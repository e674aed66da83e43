-- ===== src/Bitrate/Climbs.antt =====
-- How `evaluate_aimd` of bitrate_controller.cpp raises the bitrate on a healthy link.
use wivrn_nx_windows.Base.{
  ℕ, ◌+◌, ◌*◌, min, ◌≤◌, ◌<◌, ◌≡◌, refl, ◌⊎◌, inl, true, false, none, some, arith, List, [], ◌∷◌,
  All, length,
}
use wivrn_nx_windows.Bitrate.{
  Doubles, Stats, Controller, clamp, flush, answer, increase_hold, increase_step_min,
}
use wivrn_nx_windows.Bitrate.Aimd.{
  is_recovering, degraded, healthy, step_up, increase, since, on_healthy, evaluate_aimd,
}
use wivrn_nx_windows.Bitrate.Range.{InRange}

module _ {D : Type 0} (d : Doubles D) where
  abbrev pub IsHealthy : Stats D → Type 0
  IsHealthy s = (degraded d s ≡ false) × (healthy d s ≡ true)

  -- The state after two evaluations.
  unfoldable pub twice : Controller D → ℕ × Stats D × ℕ × Stats D → Controller D
  twice c (t, s, later, s') = (evaluate_aimd d (evaluate_aimd d c t s).0 later s').0

  -- Both evaluations find a healthy link, `wait` apart.
  unfoldable pub HealthyFor : ℕ → ℕ × Stats D × ℕ × Stats D → Type 0
  HealthyFor wait (t, s, later, s') = IsHealthy s × IsHealthy s' × (t + wait ≤ later)

  unfoldable pub evaluated : Controller D → List (ℕ × Stats D × ℕ × Stats D) → Controller D
  unfolding twice
  evaluated c [] = c
  evaluated c (p ∷ ps) = evaluated (twice c p) ps

  abbrev Free : Controller D → Type 0
  Free c =
      (is_recovering c.st ≡ false)
      × (c.radio.hold ≡ false)
      × (c.min_bitrate ≤ c.bitrate)
      × (c.bitrate ≤ c.ceiling)

  -- The bitrate does not fall, and is a step higher or at the ceiling if the wait is over.
  abbrev Probes : Controller D → Controller D → ℕ → Type 0
  Probes c e now =
      Free e
      × (e.ceiling ≡ c.ceiling)
      × (c.bitrate ≤ e.bitrate)
      × (((now < since d c now + increase_hold) × (e.healthy_since ≡ some (since d c now)))
          ⊎ (((since d c now + increase_hold ≤ now) ⊎ (c.ceiling ≤ c.bitrate))
              × (min c.ceiling (c.bitrate + increase_step_min) ≤ e.bitrate)
              × ((e.healthy_since ≡ none) ⊎ (c.ceiling ≤ e.bitrate))))

  increase-Probes :
      (c : Controller D)
      → Free c
      → Free (increase d c)
        × ((increase d c).ceiling ≡ c.ceiling)
        × ((increase d c).healthy_since ≡ none)
        × (min c.ceiling (c.bitrate + increase_step_min) ≤ (increase d c).bitrate)
  unfolding increase step_up clamp flush
  increase-Probes c h = ground arith

  on_healthy-Probes : (c : Controller D) (now : ℕ) → Free c → Probes c (on_healthy d c now).0 now
  unfolding on_healthy answer
  on_healthy-Probes c now h =
      let started : Controller D = record c { healthy_since = some (since d c now) } in
      ground (arith, increase-Probes started h)

  pub evaluate_aimd_healthy :
      (c : Controller D) (now : ℕ) (s : Stats D)
      → IsHealthy s
      → evaluate_aimd d c now s ≡ on_healthy d c now
  unfolding evaluate_aimd
  evaluate_aimd_healthy c now s (sound, fine) = rw sound (rw fine refl)

  -- The link is not known to be healthy yet, or there is nothing left to gain.
  abbrev Climbing : Controller D → Type 0
  Climbing c = Free c × ((c.healthy_since ≡ none) ⊎ (c.ceiling ≤ c.bitrate))

  twice-Climbing :
      (c : Controller D) (p : ℕ × Stats D × ℕ × Stats D)
      → Climbing c
      → HealthyFor increase_hold p
      → Climbing (twice c p)
        × ((twice c p).ceiling ≡ c.ceiling)
        × (min c.ceiling (c.bitrate + increase_step_min) ≤ (twice c p).bitrate)
  unfolding twice HealthyFor
  twice-Climbing c (t, s, later, s') h (well, well', apart) =
      let first = (evaluate_aimd d c t s).0 in
      let probed : Probes c first t =
        rw (evaluate_aimd_healthy c t s well) (on_healthy-Probes c t h.0) in
      let again : Probes first (evaluate_aimd d first later s').0 later =
        rw (evaluate_aimd_healthy first later s' well') (on_healthy-Probes first later probed.0) in
      ground arith

  climbed :
      (c : Controller D) (ps : List (ℕ × Stats D × ℕ × Stats D))
      → Climbing c
      → All (HealthyFor increase_hold) ps
      → min c.ceiling (c.bitrate + length ps * increase_step_min) ≤ (evaluated c ps).bitrate
  unfolding evaluated
  climbed c [] h well = ground arith
  climbed c (p ∷ ps) h (well, wells) =
      let (climbing, same, higher) = twice-Climbing c p h well in
      let later = climbed (twice c p) ps climbing wells in ground arith

  -- From a bitrate in range, steady, without a hold and not known to be healthy yet, n pairs of
  -- healthy evaluations, those of a pair five seconds apart, bring the bitrate n times two
  -- megabits up, or to the ceiling.
  pub evaluated_climbs :
      (c : Controller D) (ps : List (ℕ × Stats D × ℕ × Stats D))
      → InRange c
      → is_recovering c.st ≡ false
      → c.radio.hold ≡ false
      → c.healthy_since ≡ none
      → All (HealthyFor increase_hold) ps
      → min c.ceiling (c.bitrate + length ps * increase_step_min) ≤ (evaluated c ps).bitrate
  evaluated_climbs c ps h st hold fresh well = climbed c ps ((st, hold, h.0, h.1), inl fresh) well
