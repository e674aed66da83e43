-- ===== src/Bitrate/Bounds.antt =====
-- The bitrate of bitrate_controller.cpp stays between its floor and its ceiling.
use wivrn_nx_windows.Base.{
  either, ℕ, ◌+◌, ◌≡◌, Bool, true, false, not, ◌&&◌, ltb, ◌==◌, if◌then◌else◌, Option, none, some,
  ◌∙◌, arith,
}
use wivrn_nx_windows.Bitrate.{
  Doubles, Stats, aimd, bbr, Controller, mode, clamp, flush, answer, estimator_min_samples,
  change_settle,
}
use wivrn_nx_windows.Bitrate.Filter.{maximum}
use wivrn_nx_windows.Bitrate.Aimd.{
  is_recovering, since, lower_target, deep_drop, gentle_drop, settled, decrease, rebound, increase,
  on_healthy, on_degraded, evaluate_aimd, severe,
}
use wivrn_nx_windows.Bitrate.Bandwidth.{
  refreshed, blind, seeded, back_off, on_acute, radio_steadied, moved, follow, on_measured,
  evaluate_bbr, acute,
}
use wivrn_nx_windows.Bitrate.Range.{
  InRange, SameRates, SameLimits, Decides, InRange-same, Decides-from, SameRates-refl, Decides-none,
}

module _ {D : Type 0} (d : Doubles D) where
  decrease-InRange :
      (c : Controller D) (now : ℕ) (acute : Bool)
      → InRange c
      → mode c ≡ aimd
      → InRange (decrease d c now acute) × SameLimits c (decrease d c now acute)
  unfolding decrease lower_target deep_drop gentle_drop settled clamp flush
  decrease-InRange c now acute h m = ground arith

  rebound-InRange :
      (c : Controller D)
      → InRange c
      → mode c ≡ aimd
      → is_recovering c.st ≡ true
      → InRange (rebound d c) × SameLimits c (rebound d c)
  unfolding rebound clamp flush
  rebound-InRange c h m r = ground arith

  increase-InRange :
      (c : Controller D)
      → InRange c
      → is_recovering c.st ≡ false
      → InRange (increase d c) × SameLimits c (increase d c)
  unfolding increase clamp flush
  increase-InRange c h r = ground arith

  on_healthy-Decides :
      (c : Controller D) (now : ℕ) → InRange c → mode c ≡ aimd → Decides c (on_healthy d c now)
  unfolding on_healthy answer
  on_healthy-Decides c now h m =
      let started = record c { healthy_since = some (since d c now) } in
      ground (arith, rebound-InRange started h m, increase-InRange started h)

  on_degraded-Decides :
      (c : Controller D) (now : ℕ) (acute : Bool)
      → InRange c
      → mode c ≡ aimd
      → Decides c (on_degraded d c now acute)
  unfolding on_degraded answer
  on_degraded-Decides c now acute h m =
      let waiting = record c { healthy_since = none } in
      ground (arith, decrease-InRange waiting now acute h m)

  pub evaluate_aimd-Decides :
      (c : Controller D) (now : ℕ) (s : Stats D)
      → InRange c
      → mode c ≡ aimd
      → Decides c (evaluate_aimd d c now s)
  unfolding evaluate_aimd
  evaluate_aimd-Decides c now s h m =
      ground (arith, on_healthy-Decides c now h m, on_degraded-Decides c now (severe d s) h m)

  refreshed-SameRates : (c : Controller D) (now : ℕ) → SameRates c (refreshed d c now)
  unfolding refreshed
  refreshed-SameRates c now = ground arith

  blind-Decides :
      (c : Controller D) (now : ℕ) (s : Stats D)
      → InRange c
      → mode c ≡ bbr
      → Decides c (blind d c now s)
  unfolding blind answer clamp flush
  blind-Decides c now s h m = ground arith

  on_acute-Decides :
      (c : Controller D) (now : ℕ) (s : Stats D)
      → InRange c
      → mode c ≡ bbr
      → Decides c (on_acute d c now s)
  unfolding on_acute back_off answer clamp flush
  on_acute-Decides c now s h m = ground arith

  radio_steadied-SameRates : (c : Controller D) (now : ℕ) → SameRates c (radio_steadied c now)
  unfolding radio_steadied
  radio_steadied-SameRates c now = ground arith

  moved-SameRates : (c : Controller D) (now : ℕ) → SameRates c (moved d c now).0
  unfolding moved flush
  moved-SameRates c now = ground arith

  follow-Decides :
      (c : Controller D) (now : ℕ) (bw : D) (forced : Bool)
      → InRange c
      → mode c ≡ bbr
      → Decides c (follow d c now bw forced)
  unfolding follow clamp flush
  follow-Decides c now bw forced h m = ground arith

  on_measured-Decides :
      (c : Controller D) (now : ℕ) → InRange c → mode c ≡ bbr → Decides c (on_measured d c now)
  unfolding on_measured
  on_measured-Decides c now h m =
      let (c1, forced) = moved d (radio_steadied c now) now in
      ground (
        arith,
        radio_steadied-SameRates c now,
        moved-SameRates (radio_steadied c now) now,
        follow-Decides c1 now (maximum c.estimator.bandwidth) forced,
      )

  seeded-SameRates : (c : Controller D) (now : ℕ) → SameRates c (seeded d c now)
  unfolding seeded
  seeded-SameRates c now = ground arith

  pub evaluate_bbr-Decides :
      (c : Controller D) (now : ℕ) (s : Stats D)
      → InRange c
      → mode c ≡ bbr
      → Decides c (evaluate_bbr d c now s)
  unfolding evaluate_bbr
  evaluate_bbr-Decides c now s h m =
      let c1 = refreshed d c now in
      let unmeasured = ltb c1.estimator.bandwidth_samples estimator_min_samples in
      let c2 = if unmeasured then seeded d c1 now else c1 in
      let same1 = refreshed-SameRates c now in
      let (there1, law1) = InRange-same c c1 same1 h in
      let same2 =
        either (SameRates c1) unmeasured (seeded d c1 now) c1 (seeded-SameRates c1 now)
          (SameRates-refl c1) in
      let (there2, law2) = InRange-same c1 c2 same2 there1 in
      let failing = on_acute d c2 now s in
      let measured = on_measured d c2 now in
      let blindly = blind d c1 now s in
      let failed = acute d c.estimator s in
      let from2 : (p : Controller D × Option ℕ) → Decides c2 p → Decides c p =
        λ p q. Decides-from c c1 p same1 (Decides-from c1 c2 p same2 q) in
      let law = law2 ∙ law1 ∙ m in
      let known =
        either (Decides c) failed failing measured
          (from2 failing (on_acute-Decides c2 now s there2 law))
          (from2 measured (on_measured-Decides c2 now there2 law)) in
      let settled =
        either (Decides c) (unmeasured && not failed) blindly (if failed then failing else measured)
          (Decides-from c c1 blindly same1 (blind-Decides c1 now s there1 (law1 ∙ m))) known in
      either (Decides c)
        (not (c.estimator.last_bbr_change == 0)
          && ltb now (c.estimator.last_bbr_change + change_settle))
        (c, none)
        (if unmeasured && not failed then blindly else if failed then failing else measured)
        (Decides-none c h) settled
