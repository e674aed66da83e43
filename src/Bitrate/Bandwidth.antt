-- ===== src/Bitrate/Bandwidth.antt =====
-- `evaluate_bbr` of bitrate_controller.cpp.
use wivrn_nx_windows.Base.{
  ℕ, ◌+◌, Bool, true, false, not, ◌&&◌, ◌||◌, ltb, leb, ◌==◌, if◌then◌else◌, Option, none, some,
}
use wivrn_nx_windows.Base.Int.{pos}
use wivrn_nx_windows.Bitrate.{
  Doubles, Stats, BbrState, Estimator, Controller, clamp, flush, answer, lost_frames_decrease,
  late_frames_decrease, decrease_cooldown, increase_hold, estimator_window, estimator_min_samples,
  round_duration, startup_stall_rounds, probe_interval, probe_duration, steady_interval,
  change_settle,
}
use wivrn_nx_windows.Bitrate.Filter.{is_valid, maximum, emptied, update, cap}
use wivrn_nx_windows.Bitrate.Aimd.{healthy, step_up, since}

abbrev pub is_startup : BbrState → Bool
is_startup BbrState.startup = true
is_startup _ = false

abbrev pub is_steady : BbrState → Bool
is_steady BbrState.steady = true
is_steady _ = false

abbrev pub is_probe : BbrState → Bool
is_probe BbrState.probe = true
is_probe _ = false

module _ {D : Type 0} where
  -- A falling radio ends the ramp and the probe.
  unfoldable pub radio_steadied : Controller D → ℕ → Controller D
  radio_steadied c now =
      let e = c.estimator in
      if c.radio.hold && not (is_steady e.bbr_st)
      then record c {
        estimator = record e { bbr_st = BbrState.steady; probe_until = 0; last_probe = now };
      }
      else c

module _ {D : Type 0} (d : Doubles D) where
  -- How much slower the link is than the best it did.
  pub slowdown : Estimator D → Stats D → D
  slowdown e s =
      if is_valid e.bandwidth && d.lt (d.of_int (pos 0)) s.rate
      then d.div (maximum e.bandwidth) s.rate
      else d.of_int (pos 1)

  pub acute : Estimator D → Stats D → Bool
  unfolding slowdown
  acute e s =
      leb lost_frames_decrease s.lost
      || leb late_frames_decrease s.late
      || (not (is_probe e.bbr_st)
          && (d.lt (d.decimal 100 2) s.utilisation
              || (not (is_startup e.bbr_st) && d.lt (d.decimal 160 2) (slowdown e s))))

  -- An estimate that no loaded frame refreshed is dropped.
  unfoldable pub refreshed : Controller D → ℕ → Controller D
  refreshed c now =
      let e = c.estimator in
      if not (e.bandwidth_samples == 0) && ltb (e.last_bandwidth_sample + estimator_window) now
      then record c { estimator = record e { bandwidth = emptied d; bandwidth_samples = 0 } }
      else c

  -- Nothing is measured and the link did not fail: the additive probe.
  unfoldable pub blind : Controller D → ℕ → Stats D → Controller D × Option ℕ
  blind c now s =
      let started = record c { healthy_since = some (since d c now) } in
      let raised = flush (record started { bitrate = clamp c (c.bitrate + step_up d c) }) in
      if not (healthy d s) || c.radio.hold
      then (record c { healthy_since = none }, none)
      else if ltb now (since d c now + increase_hold) || leb c.ceiling c.bitrate
      then (started, none)
      else answer c.bitrate raised

  -- Nothing is measured and the link failed: the bitrate is the measurement.
  unfoldable pub seeded : Controller D → ℕ → Controller D
  seeded c now =
      let e = c.estimator in
      record c {
        estimator = record e {
          bandwidth = update d (emptied d) (d.of_int (pos c.bitrate)) now estimator_window;
          bandwidth_samples = estimator_min_samples;
          last_bandwidth_sample = now;
        };
      }

  unfoldable pub back_off : Controller D → ℕ → Stats D → Controller D
  back_off c now s =
      let e = c.estimator in
      let measured = d.lt (d.of_int (pos 0)) s.rate in
      let limit = if measured then s.rate else d.mul (d.decimal 70 2) (maximum e.bandwidth) in
      let bandwidth = cap d e.bandwidth limit in
      flush (record c {
        last_decrease = now;
        estimator = record e {
          bandwidth = bandwidth;
          bbr_st = BbrState.steady;
          startup_stalled = startup_stall_rounds;
          last_probe = now;
          last_bbr_change = now;
          probe_until = 0;
        };
        bitrate = clamp c (d.to_nat (d.mul (d.decimal 70 2) (maximum bandwidth)));
      })

  unfoldable pub on_acute : Controller D → ℕ → Stats D → Controller D × Option ℕ
  unfolding back_off
  on_acute c now s =
      if ltb now (c.last_decrease + decrease_cooldown)
      then (c, none)
      else answer c.bitrate (back_off c now s)

  -- A round of the startup ramp.
  pub startup_round : Estimator D → ℕ → Estimator D
  startup_round e now =
      let bw = maximum e.bandwidth in
      let stalled =
        if d.lt (d.mul (d.decimal 125 2) e.startup_mark) bw then 0 else e.startup_stalled + 1 in
      let e1 =
        if e.round_started == 0
        then record e { round_started = now; startup_mark = bw }
        else if leb (e.round_started + round_duration) now
        then record e { startup_stalled = stalled; startup_mark = bw; round_started = now }
        else e in
      if leb startup_stall_rounds e1.startup_stalled
      then record e1 { bbr_st = BbrState.steady; last_probe = now }
      else e1

  -- The state machine, and whether the bitrate has to follow at once.
  unfoldable pub moved : Controller D → ℕ → Controller D × Bool
  unfolding startup_round
  moved c now =
      let e = c.estimator in
      let ended =
        flush (record c { estimator = record e { bbr_st = BbrState.steady; last_probe = now } }) in
      let probing = record c {
        estimator = record e { bbr_st = BbrState.probe; probe_until = now + probe_duration };
      } in
      elim e.bbr_st [
        | BbrState.startup ↦ (record c { estimator = startup_round e now }, false)
        | BbrState.probe ↦ if leb e.probe_until now then (ended, true) else (c, false)
        | BbrState.steady ↦
            if not c.radio.hold
              && leb (e.last_probe + probe_interval) now
              && ltb c.bitrate c.ceiling
            then (probing, false)
            else (c, false)
      ]

  pub gain : Controller D → D
  gain c = elim c.estimator.bbr_st [
    | BbrState.startup ↦ d.decimal 125 2
    | BbrState.probe ↦ d.decimal 110 2
    | BbrState.steady ↦ if c.radio.hold then d.decimal 75 2 else d.decimal 85 2
  ]

  -- The new bitrate is too soon, or too close to the old one.
  pub held_back : Controller D → ℕ → ℕ → Bool
  held_back c now target =
      let delta = d.abs (d.sub (d.of_int (pos target)) (d.of_int (pos c.bitrate))) in
      ltb now (c.estimator.last_bbr_change + steady_interval)
      || (not (c.bitrate == 0) && d.lt delta (d.mul (d.decimal 5 2) (d.of_int (pos c.bitrate))))

  -- The bitrate goes to the gain times the estimate `bw`.
  unfoldable pub follow : Controller D → ℕ → D → Bool → Controller D × Option ℕ
  unfolding gain held_back
  follow c now bw forced =
      let target = clamp c (d.to_nat (d.mul (gain c) bw)) in
      let e = c.estimator in
      let changed = record c { bitrate = target; estimator = record e { last_bbr_change = now } } in
      if not (is_startup e.bbr_st) && not forced && held_back c now target
      then (c, none)
      else if target == c.bitrate
      then (changed, none)
      else (flush changed, some target)

  unfoldable pub on_measured : Controller D → ℕ → Controller D × Option ℕ
  unfolding radio_steadied moved follow
  on_measured c now =
      let (c1, forced) = moved (radio_steadied c now) now in
      follow c1 now (maximum c.estimator.bandwidth) forced

  unfoldable pub evaluate_bbr : Controller D → ℕ → Stats D → Controller D × Option ℕ
  unfolding acute refreshed blind seeded on_acute on_measured
  evaluate_bbr c now s =
      let failed = acute c.estimator s in
      let c1 = refreshed c now in
      let unmeasured = ltb c1.estimator.bandwidth_samples estimator_min_samples in
      let c2 = if unmeasured then seeded c1 now else c1 in
      if not (c.estimator.last_bbr_change == 0)
        && ltb now (c.estimator.last_bbr_change + change_settle)
      then (c, none)
      else if unmeasured && not failed
      then blind c1 now s
      else if failed
      then on_acute c2 now s
      else on_measured c2 now
