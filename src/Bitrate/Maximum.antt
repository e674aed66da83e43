-- ===== src/Bitrate/Maximum.antt =====
-- What the windowed maximum of bitrate_controller.h knows of the samples it was given.
use wivrn_nx_windows.Base.{ℕ, ◌+◌, ◌≤◌, ◌<◌, ◌/◌, ◌==◌, ◌≡◌, ◌⊎◌, true, false, List, [], ◌∷◌}
use wivrn_nx_windows.Bitrate.{Doubles, Entry, MaxFilter}
use wivrn_nx_windows.Bitrate.Filter.{emptied, update}

module _ {D : Type 0} (d : Doubles D) where
  -- `>=` of numbers, none of which is NaN.
  abbrev pub IsTotal : Type 0
  IsTotal = (a b : D) → d.ge a b ≡ false → d.ge b a ≡ true

  -- `e` is a sample of the list, whose newest is the first, and no newer one is larger.
  pub Leads : Entry D → List (Entry D) → Type 0
  Leads e [] = ⊥
  Leads e (x ∷ xs) = (e ≡ x) ⊎ ((d.ge e.value x.value ≡ true) × Leads e xs)

module _ {D : Type 0} (d : Doubles D) (window : ℕ) where
  -- The filter after the samples.
  pub updated : List (Entry D) → MaxFilter D
  updated [] = emptied d
  updated (x ∷ xs) = update d (updated xs) x.value x.when window

  -- The three entries lead the samples, in the order of their values.
  abbrev Led : MaxFilter D → List (Entry D) → Type 0
  Led f xs =
      Leads d f.s0 xs
      × Leads d f.s1 xs
      × Leads d f.s2 xs
      × (d.ge f.s0.value f.s1.value ≡ true)
      × (d.ge f.s1.value f.s2.value ≡ true)

  -- Besides, the first is not old.
  abbrev Best : MaxFilter D → ℕ → List (Entry D) → Type 0
  Best f now xs = Led f xs × (now ≤ f.s0.when + window)

  -- The second entry is not that of the first for over a quarter of the window, nor the third that
  -- of the second for over half of it.
  abbrev pub IsSpread : MaxFilter D → ℕ → Type 0
  IsSpread f now =
      (((f.s1.when == f.s0.when) ≡ false) ⊎ (now ≤ f.s1.when + window / 4))
      × (((f.s2.when == f.s1.when) ≡ false) ⊎ (now ≤ f.s2.when + window / 2))

  -- What becomes of the best entry: the sample takes its place if it is no smaller or if all entries
  -- are old, it stays if it is not old, and else it is gone.
  abbrev pub Succeeds : MaxFilter D → Entry D → MaxFilter D → Type 0
  Succeeds f x f' =
      ((f'.s0 ≡ x) × ((d.ge x.value f.s0.value ≡ true) ⊎ (f.s2.when + window < x.when)))
      ⊎ ((f'.s0 ≡ f.s0)
          × (d.ge x.value f.s0.value ≡ false)
          × (x.when ≤ f.s0.when + window)
          × IsSpread f' x.when)
      ⊎ ((d.ge x.value f.s0.value ≡ false) × (f.s0.when + window < x.when))
