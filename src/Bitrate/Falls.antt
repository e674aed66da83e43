-- ===== src/Bitrate/Falls.antt =====
-- When bitrate_controller.cpp lowers the bitrate.
use wivrn_nx_windows.Base.{
  ℕ, ◌+◌, ◌^◌, ◌≤◌, ◌<◌, ◌≡◌, ◌∙◌, ◌⊎◌, Bool, true, ◌||◌, Option, none, some, arith,
}
use wivrn_nx_windows.Base.Int.{ℤ}
use wivrn_nx_windows.Bitrate.{
  Doubles, Stats, Mode, aimd, bbr, Feedback, Controller, mode, clamp, flush, answer,
  decrease_cooldown,
}
use wivrn_nx_windows.Bitrate.RadioTrend.{Trend, analyse_radio}
use wivrn_nx_windows.Bitrate.Aimd.{
  is_recovering, scaled, lower_target, deep_drop, gentle_drop, settled, decrease, rebound, increase,
  since, on_healthy, on_degraded, evaluate_aimd, severe,
}
use wivrn_nx_windows.Bitrate.Bandwidth.{evaluate_bbr}
use wivrn_nx_windows.Bitrate.Control.{evaluate, on_feedback}
use wivrn_nx_windows.Bitrate.Wifi.{
  heard, falling, starved, release_rising, release_stable, stepped, preempt, on_trend,
  on_wifi_state,
}
use wivrn_nx_windows.Bitrate.Range.{InRange, SameRates, InRange-same}
use wivrn_nx_windows.Bitrate.Steps.{evaluate_branches, on_feedback_branches}

module _ {D : Type 0} (d : Doubles D) where
  -- Twice a 32-bit bitrate is not less than it.
  abbrev pub DoublingGrows : Type 0
  DoublingGrows = (n : ℕ) → n < 2 ^ 32 → n ≤ scaled d n (d.decimal 20 1)

  -- Either the bitrate does not fall, or the cooldown after the last decrease is over and starts again.
  abbrev pub Cooled : Controller D → Controller D × Option ℕ → ℕ → Type 0
  Cooled c p now =
      ((p.0.last_decrease ≡ c.last_decrease) × (c.bitrate ≤ p.0.bitrate))
      ⊎ ((c.last_decrease + decrease_cooldown ≤ now) × (p.0.last_decrease ≡ now))

  pub Cooled-from :
      (c c' : Controller D) (p : Controller D × Option ℕ) (now : ℕ)
      → SameRates c c'
      → Cooled c' p now
      → Cooled c p now
  Cooled-from c c' p now same h = ground arith

  pub Cooled-none : (c : Controller D) (now : ℕ) → Cooled c (c, none) now
  Cooled-none c now = ground arith

  decrease-last_decrease :
      (c : Controller D) (now : ℕ) (acute : Bool) → (decrease d c now acute).last_decrease ≡ now
  unfolding decrease lower_target deep_drop gentle_drop settled flush
  decrease-last_decrease c now acute = ground arith

  rebound_grows :
      (c : Controller D)
      → DoublingGrows
      → c.ceiling < 2 ^ 32
      → InRange c
      → is_recovering c.st ≡ true
      → (c.bitrate ≤ (rebound d c).bitrate) × ((rebound d c).last_decrease ≡ c.last_decrease)
  unfolding rebound clamp flush
  rebound_grows c grows small h r = ground (arith, grows c.bitrate)

  increase_grows :
      (c : Controller D)
      → InRange c
      → (c.bitrate ≤ (increase d c).bitrate) × ((increase d c).last_decrease ≡ c.last_decrease)
  unfolding increase clamp flush
  increase_grows c h = ground arith

  evaluate_aimd-Cooled :
      (c : Controller D) (now : ℕ) (s : Stats D)
      → DoublingGrows
      → c.ceiling < 2 ^ 32
      → InRange c
      → Cooled c (evaluate_aimd d c now s) now
  unfolding evaluate_aimd on_healthy on_degraded answer
  evaluate_aimd-Cooled c now s grows small h =
      let waiting : Controller D = record c { healthy_since = none } in
      let started : Controller D = record c { healthy_since = some (since d c now) } in
      ground (
        arith,
        decrease-last_decrease waiting now (severe d s),
        rebound_grows started grows small h,
        increase_grows started h,
      )

  law-Cooled :
      (c : Controller D) (law : Mode) (now : ℕ) (s : Stats D)
      → DoublingGrows
      → c.ceiling < 2 ^ 32
      → InRange c
      → law ≡ aimd
      → Cooled c (elim law [ aimd ↦ evaluate_aimd d c now s | bbr ↦ evaluate_bbr d c now s ]) now
  law-Cooled c aimd now s grows small h m = evaluate_aimd-Cooled c now s grows small h
  law-Cooled c bbr now s grows small h m = ground arith

  ceiling_same : (c c' : Controller D) → SameRates c c' → c.ceiling < 2 ^ 32 → c'.ceiling < 2 ^ 32
  ceiling_same c c' same small = ground arith

  evaluate-Cooled :
      (c : Controller D) (now : ℕ)
      → DoublingGrows
      → c.ceiling < 2 ^ 32
      → InRange c
      → mode c ≡ aimd
      → Cooled c (evaluate d c now) now
  evaluate-Cooled c now grows small h m =
      evaluate_branches d (λ p. Cooled c p now) c now
        (λ c' same. Cooled-from c c' (c', none) now same (Cooled-none c' now))
        (λ c' s same.
          Cooled-from c c'
            (elim (mode c) [ aimd ↦ evaluate_aimd d c' now s | bbr ↦ evaluate_bbr d c' now s ]) now
            same
            (law-Cooled c' (mode c) now s grows (ceiling_same c c' same small)
              (InRange-same c c' same h).0 m))

  pub on_feedback-Cooled :
      (c : Controller D) (f : Feedback) (period_ns : ℤ) (streaming : Bool) (now : ℕ)
      → DoublingGrows
      → c.ceiling < 2 ^ 32
      → InRange c
      → mode c ≡ aimd
      → Cooled c (on_feedback d c f period_ns streaming now) now
  on_feedback-Cooled c f period_ns streaming now grows small h m =
      on_feedback_branches d (λ p. Cooled c p now) c f period_ns streaming now
        (λ c' same. Cooled-from c c' (c', none) now same (Cooled-none c' now))
        (λ c' same.
          let (there, law) = InRange-same c c' same h in
          Cooled-from c c' (evaluate d c' now) now same
            (evaluate-Cooled c' now grows (ceiling_same c c' same small) there (law ∙ m)))

  -- `on_wifi_state` lowers the bitrate by its own step only, in either law.
  stepped_falls :
      (c : Controller D) (now : ℕ)
      → ((n : ℕ) → n < 2 ^ 32 → scaled d n (d.decimal 7 1) ≤ n)
      → c.ceiling < 2 ^ 32
      → InRange c
      → (stepped d c now).bitrate ≤ c.bitrate
  unfolding stepped clamp
  stepped_falls c now shrinks small h = ground (arith, shrinks c.bitrate)

  preempt_falls :
      (c : Controller D) (now : ℕ)
      → ((n : ℕ) → n < 2 ^ 32 → scaled d n (d.decimal 7 1) ≤ n)
      → c.ceiling < 2 ^ 32
      → InRange c
      → ((preempt d c now).0.bitrate ≤ c.bitrate)
        × ((preempt d c now).0.last_decrease ≡ now)
        × ((preempt d c now).0.radio.hold ≡ true)
  unfolding preempt flush
  preempt_falls c now shrinks small h = ground (arith, stepped_falls c now shrinks small h)

  on_trend_falls :
      (c : Controller D) (t : Trend D) (now : ℕ)
      → ((n : ℕ) → n < 2 ^ 32 → scaled d n (d.decimal 7 1) ≤ n)
      → c.ceiling < 2 ^ 32
      → InRange c
      → ((on_trend d c t now).0.bitrate ≤ c.bitrate) × Cooled c (on_trend d c t now) now
  unfolding on_trend
  on_trend_falls c t now shrinks small h =
      let degrading = falling d t || starved d t c.bitrate in
      let radio = release_stable d (release_rising d c.radio t) t degrading now in
      ground (arith, preempt_falls (record c { radio = radio }) now shrinks small h)

  -- A Wi-Fi report does not raise a bitrate that is in its range below a 32-bit ceiling. Either
  -- the bitrate stays and the last decrease too, or `decrease_cooldown` has passed since the
  -- last decrease, which is now. Seven tenths of a 32-bit bitrate are taken not to be more than
  -- it.
  pub on_wifi_state_falls :
      (c : Controller D) (rssi_dbm link_speed_mbps : ℤ) (now : ℕ)
      → ((n : ℕ) → n < 2 ^ 32 → scaled d n (d.decimal 7 1) ≤ n)
      → c.ceiling < 2 ^ 32
      → InRange c
      → ((on_wifi_state d c rssi_dbm link_speed_mbps now).0.bitrate ≤ c.bitrate)
        × Cooled c (on_wifi_state d c rssi_dbm link_speed_mbps now) now
  unfolding on_wifi_state
  on_wifi_state_falls c rssi_dbm link_speed_mbps now shrinks small h =
      let r = heard d c.radio rssi_dbm link_speed_mbps now in
      let (samples, trend) = analyse_radio d r.samples now in
      let c1 : Controller D = record c { radio = record r { samples = samples } } in
      ground (arith, on_trend_falls c1 trend now shrinks small h)
