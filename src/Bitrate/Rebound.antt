-- ===== src/Bitrate/Rebound.antt =====
-- How `evaluate_aimd` of bitrate_controller.cpp comes back after a deep drop.
use wivrn_nx_windows.Base.{
  ℕ, zero, suc, ◌+◌, ◌^◌, min, ◌≤◌, ◌<◌, ◌≡◌, ◌⊎◌, inl, inr, true, false, none, some, arith, List,
  [], ◌∷◌, All, length,
}
use wivrn_nx_windows.Bitrate.{
  Doubles, Stats, Controller, clamp, flush, answer, recovery_confirm, recovery_step_interval,
}
use wivrn_nx_windows.Bitrate.Aimd.{
  is_recovering, scaled, rebound, increase, since, on_healthy, evaluate_aimd,
}
use wivrn_nx_windows.Bitrate.Range.{InRange}
use wivrn_nx_windows.Bitrate.Climbs.{twice, HealthyFor, evaluated, evaluate_aimd_healthy}

-- `b`, doubled `n` times.
pub doubled : ℕ → ℕ → ℕ
doubled b zero = b
doubled b (suc n) = doubled (b + b) n

doubled_mono : (a b n : ℕ) → a ≤ b → doubled a n ≤ doubled b n
unfolding doubled
doubled_mono a b zero h = h
doubled_mono a b (suc n) h = doubled_mono (a + a) (b + b) n (omega arith)

module _ {D : Type 0} (d : Doubles D) where
  -- Twice a 32-bit bitrate is exact.
  abbrev pub DoublingExact : Type 0
  DoublingExact = (n : ℕ) → n < 2 ^ 32 → scaled d n (d.decimal 20 1) ≡ n + n

  abbrev Steady : Controller D → Type 0
  Steady c = (is_recovering c.st ≡ false) × (c.min_bitrate ≤ c.bitrate) × (c.bitrate ≤ c.ceiling)

  -- A rebound that did not meet `target` yet.
  abbrev Waiting : ℕ → Controller D → Type 0
  Waiting target c =
      (is_recovering c.st ≡ true)
      × (c.recovery_target ≡ target)
      × (c.bitrate < target)
      × (target ≤ c.ceiling)
      × (c.ceiling < 2 ^ 32)
      × (c.min_bitrate ≤ c.bitrate)

  on_healthy-Steady :
      (c : Controller D) (now : ℕ)
      → Steady c
      → Steady (on_healthy d c now).0 × (c.bitrate ≤ (on_healthy d c now).0.bitrate)
  unfolding on_healthy answer increase clamp flush
  on_healthy-Steady c now h = ground arith

  rebound-Waiting :
      (c : Controller D) (target : ℕ)
      → DoublingExact
      → Waiting target c
      → (((rebound d c).bitrate ≡ target) × Steady (rebound d c))
        ⊎ (Waiting target (rebound d c)
            × (c.bitrate + c.bitrate ≤ (rebound d c).bitrate)
            × ((rebound d c).healthy_since ≡ none))
  unfolding rebound clamp flush
  rebound-Waiting c target exact h = ground (arith, exact c.bitrate)

  -- One evaluation of a rebound.
  on_healthy-Waiting :
      (c : Controller D) (now target : ℕ)
      → DoublingExact
      → Waiting target c
      → let e = (on_healthy d c now).0 in
        (Waiting target e
          × (c.bitrate ≤ e.bitrate)
          × (now < since d c now + recovery_confirm)
          × (e.healthy_since ≡ some (since d c now)))
        ⊎ ((e.bitrate ≡ target) × Steady e)
        ⊎ (Waiting target e
            × (c.bitrate + c.bitrate ≤ e.bitrate)
            × (e.healthy_since ≡ none)
            × (since d c now + recovery_step_interval ≤ now))
  unfolding on_healthy answer
  on_healthy-Waiting c now target exact h =
      let started : Controller D = record c { healthy_since = some (since d c now) } in
      ground (arith, rebound-Waiting started target exact h)

  twice-Steady :
      (c : Controller D) (p : ℕ × Stats D × ℕ × Stats D)
      → Steady c
      → HealthyFor d recovery_confirm p
      → Steady (twice d c p) × (c.bitrate ≤ (twice d c p).bitrate)
  unfolding twice HealthyFor
  twice-Steady c (t, s, later, s') h (well, well', apart) =
      let first = (evaluate_aimd d c t s).0 in
      ground (
        arith,
        evaluate_aimd_healthy d c t s well,
        evaluate_aimd_healthy d first later s' well',
        on_healthy-Steady c t h,
        on_healthy-Steady first later,
      )

  twice-Waiting :
      (c : Controller D) (target : ℕ) (p : ℕ × Stats D × ℕ × Stats D)
      → DoublingExact
      → Waiting target c
      → c.healthy_since ≡ none
      → HealthyFor d recovery_confirm p
      → (Steady (twice d c p) × (target ≤ (twice d c p).bitrate))
        ⊎ (Waiting target (twice d c p)
            × ((twice d c p).healthy_since ≡ none)
            × (c.bitrate + c.bitrate ≤ (twice d c p).bitrate))
  unfolding twice HealthyFor
  twice-Waiting c target (t, s, later, s') exact h fresh (well, well', apart) =
      let first = (evaluate_aimd d c t s).0 in
      ground (
        arith,
        evaluate_aimd_healthy d c t s well,
        evaluate_aimd_healthy d first later s' well',
        on_healthy-Waiting c t target exact h,
        on_healthy-Waiting first later target exact,
        on_healthy-Steady first later,
      )

  kept_up :
      (c : Controller D) (ps : List (ℕ × Stats D × ℕ × Stats D))
      → Steady c
      → All (HealthyFor d recovery_confirm) ps
      → c.bitrate ≤ (evaluated d c ps).bitrate
  unfolding evaluated
  kept_up c [] h well = ground arith
  kept_up c (p ∷ ps) h (well, wells) =
      let (kept, higher) = twice-Steady c p h well in
      ground (arith, kept_up (twice d c p) ps kept wells)

  doubled_up :
      (c : Controller D) (target : ℕ) (ps : List (ℕ × Stats D × ℕ × Stats D))
      → DoublingExact
      → Waiting target c
      → c.healthy_since ≡ none
      → All (HealthyFor d recovery_confirm) ps
      → min target (doubled c.bitrate (length ps)) ≤ (evaluated d c ps).bitrate
  unfolding evaluated doubled
  doubled_up c target [] exact h fresh well = ground arith
  doubled_up c target (p ∷ ps) exact h fresh (well, wells) =
      let next = twice d c p in
      elim (twice-Waiting c target p exact h fresh well) [
        | inl (kept, met) ↦ ground (arith, kept_up next ps kept wells)
        | inr (waiting, again, higher) ↦ ground (
          arith,
          doubled_up next target ps exact waiting again wells,
          doubled_mono (c.bitrate + c.bitrate) next.bitrate (length ps) higher,
        )
      ]

  -- Of a rebound in range that is not known to be healthy yet, n pairs of healthy evaluations,
  -- those of a pair 2.5 seconds apart, double the bitrate n times, or bring it to the target.
  -- The ceiling is a 32-bit number, and twice such a number is taken to be exact.
  pub evaluated_rebounds :
      (c : Controller D) (ps : List (ℕ × Stats D × ℕ × Stats D))
      → DoublingExact
      → InRange c
      → c.ceiling < 2 ^ 32
      → is_recovering c.st ≡ true
      → c.healthy_since ≡ none
      → All (HealthyFor d recovery_confirm) ps
      → min c.recovery_target (doubled c.bitrate (length ps)) ≤ (evaluated d c ps).bitrate
  evaluated_rebounds c ps exact h small st fresh well =
      let waiting : Waiting c.recovery_target c = ground arith in
      doubled_up c c.recovery_target ps exact waiting fresh well
