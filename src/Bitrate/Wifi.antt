-- ===== src/Bitrate/Wifi.antt =====
-- `on_wifi_state` of bitrate_controller.cpp.
use wivrn_nx_windows.Base.{
  ℕ, ◌+◌, Bool, true, false, not, ◌&&◌, ◌||◌, ltb, leb, ◌==◌, if◌then◌else◌, Option, none, some, [],
  ◌∷◌, ◌++◌,
}
use wivrn_nx_windows.Base.Int.{ℤ, pos, negsuc, pos_part, ltb_ℤ}
use wivrn_nx_windows.Bitrate.{
  Doubles, aimd, bbr, BbrState, RadioSample, Radio, Controller, mode, clamp, flush,
  decrease_cooldown, radio_max_age, radio_step_interval, radio_stable_hold,
}
use wivrn_nx_windows.Bitrate.Filter.{is_valid, maximum}
use wivrn_nx_windows.Bitrate.RadioTrend.{Trend, analyse_radio}
use wivrn_nx_windows.Bitrate.Aimd.{scaled, is_recovering}
use wivrn_nx_windows.Bitrate.Control.{enabled}

-- No real link is at 0 dBm or above, or at -110 dBm or below.
pub is_plausible : ℤ → Bool
is_plausible rssi_dbm = ltb_ℤ rssi_dbm (pos 0) && ltb_ℤ (negsuc 109) rssi_dbm

module _ {D : Type 0} where
  unfoldable pub rebounding : Controller D → Bool
  rebounding c = elim (mode c) [ aimd ↦ is_recovering c.st | bbr ↦ false ]

module _ {D : Type 0} (d : Doubles D) where
  abbrev pub minus : D → D
  minus x = d.sub (d.of_int (pos 0)) x

  -- The smoothed report joins the samples, which start over after a gap.
  pub heard : Radio D → ℤ → ℤ → ℕ → Radio D
  heard r rssi_dbm link_speed_mbps now =
      let gap : Bool = elim r.samples [
        | [] ↦ false
        | s ∷ ss ↦ ltb (r.last_sample + radio_max_age) now
      ] in
      let r1 =
        if gap
        then record r { samples = []; ema = none; hold = false; stable_since = none }
        else r in
      let level = d.of_int rssi_dbm in
      let ema : D = elim r1.ema [
        | none ↦ level
        | some old ↦
            d.add (d.mul (d.decimal 4 1) level)
              (d.mul (d.sub (d.of_int (pos 1)) (d.decimal 4 1)) old)
      ] in
      let sample : RadioSample D = record {
        when = now;
        rssi_dbm = ema;
        link_speed_mbps = pos_part link_speed_mbps;
      } in
      record r1 { last_sample = now; ema = some ema; samples = r1.samples ++ (sample ∷ []) }

  pub falling : Trend D → Bool
  falling t = d.lt t.delta_db (minus (d.decimal 60 1)) && d.lt t.rssi_dbm (minus (d.decimal 650 1))

  pub starved : Trend D → ℕ → Bool
  starved t bitrate =
      let speed = d.of_int (pos t.link_speed_mbps) in
      ltb 0 t.link_speed_mbps
      && ltb 0 t.link_speed_peak_mbps
      && d.ge (d.mul (d.decimal 5 1) (d.of_int (pos t.link_speed_peak_mbps))) speed
      && d.lt (d.mul speed (d.decimal 1_000_000 0))
          (d.mul (d.decimal 20 1) (d.of_int (pos bitrate)))

  -- A signal that comes back lets the hold go.
  pub release_rising : Radio D → Trend D → Radio D
  release_rising r t =
      if r.hold && d.lt (d.decimal 30 1) t.delta_db && d.lt (minus (d.decimal 650 1)) t.rssi_dbm
      then record r { hold = false }
      else r

  -- So does one that stopped falling for long enough.
  pub release_stable : Radio D → Trend D → Bool → ℕ → Radio D
  release_stable r t degrading now =
      let waited : Radio D = elim r.stable_since [
        | none ↦ record r { stable_since = some now }
        | some since ↦
            if leb (since + radio_stable_hold) now
            then record r { hold = false; stable_since = none }
            else r
      ] in
      if r.hold && not degrading && d.lt (d.abs t.slope_db_per_s) (d.decimal 75 2)
      then waited
      else record r { stable_since = none }

  -- The preemptive step, never upwards from the estimate.
  unfoldable pub stepped : Controller D → ℕ → Controller D
  stepped c now =
      let e = c.estimator in
      let target = clamp c (d.to_nat (d.mul (d.decimal 75 2) (maximum e.bandwidth))) in
      let e1 = record e { bbr_st = BbrState.steady } in
      let lowered = record c {
        bitrate = target;
        estimator = record e1 { last_bbr_change = now };
      } in
      let estimated = if ltb target c.bitrate then lowered else record c { estimator = e1 } in
      let guessed = record c { bitrate = clamp c (scaled d c.bitrate (d.decimal 7 1)) } in
      elim (mode c) [ aimd ↦ guessed | bbr ↦ if is_valid e.bandwidth then estimated else guessed ]

  unfoldable pub preempt : Controller D → ℕ → Controller D × Option ℕ
  unfolding stepped
  preempt c now =
      let c1 = stepped c now in
      let c2 = record c1 {
        radio = record (c1.radio) { hold = true; last_step = now };
        last_decrease = now;
      } in
      if c2.bitrate == c.bitrate then (c2, none) else (flush c2, some c2.bitrate)

  -- What the controller does about a usable trend.
  unfoldable pub on_trend : Controller D → Trend D → ℕ → Controller D × Option ℕ
  unfolding falling starved release_rising release_stable preempt
  on_trend c t now =
      let degrading = falling t || starved t c.bitrate in
      let r = release_stable (release_rising c.radio t) t degrading now in
      let c1 = record c { radio = r } in
      if not degrading
      then (c1, none)
      else if ltb now (c.last_decrease + decrease_cooldown)
          || ltb now (r.last_step + radio_step_interval)
      then (c1, none)
      else preempt c1 now

  unfoldable pub on_wifi_state : Controller D → ℤ → ℤ → ℕ → Controller D × Option ℕ
  unfolding is_plausible heard rebounding on_trend
  on_wifi_state c rssi_dbm link_speed_mbps now =
      let r = heard c.radio rssi_dbm link_speed_mbps now in
      let (samples, trend) = analyse_radio d r.samples now in
      let c1 = record c { radio = record r { samples = samples } } in
      if not (enabled c) || not c.radio_aware || c.ceiling == 0
      then (c, none)
      else if not (is_plausible rssi_dbm)
      then (c, none)
      else if not trend.usable || rebounding c
      then (c1, none)
      else on_trend c1 trend now
