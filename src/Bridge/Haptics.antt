-- ===== src/Bridge/Haptics.antt =====
-- The queue of haptic pulses of bridge.cpp.
use wivrn_nx_windows.Base.{
  ℕ, zero, suc, ◌+◌, ◌≤◌, ◌<◌, ◌≡◌, refl, ap, sym, ◌∙◌, none, some, List, [], ◌∷◌, ◌++◌, arith,
  length, length-append, leb, if◌then◌else◌, List-cases, inl, inr,
}
use mathlib.Core.List.{append_assoc, append-nil}
use wivrn_nx_windows.Bridge.{Haptic, Bridge, max_haptics, pop_front, push_haptic, pop_haptic}

module _ {F : Type 0} where
  pub push_all : Bridge F → List (Haptic F) → Bridge F
  push_all b [] = b
  push_all b (h ∷ hs) = push_all (push_haptic b h) hs

  -- What `n` calls of `pop_haptic` give.
  pub pop_all : ℕ → Bridge F → List (Haptic F)
  pop_all zero b = []
  pop_all (suc n) b =
      let (b', found) = pop_haptic b in
      let rest = pop_all n b' in elim found [ none ↦ [] | some h ↦ h ∷ rest ]

  push_haptic_fits :
      (b : Bridge F) (h : Haptic F)
      → length b.haptics < max_haptics
      → (push_haptic b h).haptics ≡ b.haptics ++ (h ∷ [])
  unfolding push_haptic
  push_haptic_fits b h fits = ground arith

  push_all_fits :
      (b : Bridge F) (hs : List (Haptic F))
      → length b.haptics + length hs ≤ max_haptics
      → (push_all b hs).haptics ≡ b.haptics ++ hs
  unfolding push_all
  push_all_fits b [] fits = sym (append-nil _)
  push_all_fits b (h ∷ hs) fits =
      let e = push_haptic_fits b h (omega arith) in
      let n : length (push_haptic b h).haptics ≡ length b.haptics + 1 =
        ap length e ∙ length-append b.haptics (h ∷ []) in
      push_all_fits (push_haptic b h) hs (omega arith)
      ∙ ap (λ ks. ks ++ hs) e
      ∙ append_assoc b.haptics (h ∷ []) hs

  pop_all_haptics :
      (hs : List (Haptic F)) (b : Bridge F) → b.haptics ≡ hs → pop_all (length hs) b ≡ hs
  unfolding pop_all pop_haptic
  pop_all_haptics [] b e = refl
  pop_all_haptics (h ∷ hs) b e =
      rw (e, pop_haptic) (ap (◌∷◌ h) (pop_all_haptics hs (record b { haptics = hs }) refl))

  -- Pulses that fit in the queue behind those it holds come out behind them, in order.
  pub pop_all-push_all :
      (b : Bridge F) (hs : List (Haptic F))
      → length b.haptics + length hs ≤ max_haptics
      → pop_all (length b.haptics + length hs) (push_all b hs) ≡ b.haptics ++ hs
  pop_all-push_all b hs fits =
      let e = push_all_fits b hs fits in
      rw⁻¹ (length-append b.haptics hs) (pop_all_haptics (b.haptics ++ hs) (push_all b hs) e)

  -- A push onto at most 10 pulses leaves at most 10, the new one last.
  pub push_haptic_bounded :
      (b : Bridge F) (h : Haptic F)
      → length b.haptics ≤ max_haptics
      → (length (push_haptic b h).haptics ≤ max_haptics)
        × ((kept : List (Haptic F)) × ((push_haptic b h).haptics ≡ kept ++ (h ∷ [])))
  unfolding push_haptic pop_front
  push_haptic_bounded b h fits =
      let kept = if leb max_haptics (length b.haptics) then pop_front b.haptics else b.haptics in
      let bound : length (kept ++ (h ∷ [])) ≤ max_haptics = elim (List-cases b.haptics) [
        | inl e ↦ ground (arith, length-append b.haptics (h ∷ []))
        | inr (k, ks, e) ↦
            ground (arith, length-append b.haptics (h ∷ []), length-append ks (h ∷ []))
      ] in
      (bound, (kept, refl))
