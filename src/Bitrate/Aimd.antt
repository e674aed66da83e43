-- ===== src/Bitrate/Aimd.antt =====
-- `evaluate_aimd` of bitrate_controller.cpp.
use wivrn_nx_windows.Base.{
  ℕ, ◌+◌, min, max, Bool, true, false, ◌&&◌, ◌||◌, ltb, leb, ◌==◌, if◌then◌else◌, Option, none,
  some,
}
use wivrn_nx_windows.Base.Int.{pos}
use wivrn_nx_windows.Bitrate.{
  Doubles, Stats, State, steady, recovering, Controller, clamp, flush, answer, lost_frames_decrease,
  lost_frames_severe, late_frames_decrease, late_frames_severe, decrease_cooldown,
  increase_step_min, increase_hold, recovery_confirm, recovery_step_interval,
}

abbrev pub is_recovering : State → Bool
is_recovering steady = false
is_recovering recovering = true

module _ {D : Type 0} where
  -- A rebound whose target is met is over.
  unfoldable pub settled : Controller D → Controller D
  settled c =
      if is_recovering c.st && leb c.recovery_target c.bitrate then record c { st = steady } else c

module _ {D : Type 0} (d : Doubles D) where
  -- `uint64_t(value * factor)` of an integer.
  unfoldable pub scaled : ℕ → D → ℕ
  scaled value factor = d.to_nat (d.mul (d.of_int (pos value)) factor)

  unfoldable pub severe : Stats D → Bool
  severe s =
      d.lt (d.decimal 100 2) s.utilisation
      || leb lost_frames_severe s.lost
      || leb late_frames_severe s.late

  unfoldable pub degraded : Stats D → Bool
  degraded s =
      severe s
      || d.lt (d.decimal 85 2) s.utilisation
      || leb lost_frames_decrease s.lost
      || leb late_frames_decrease s.late

  unfoldable pub healthy : Stats D → Bool
  healthy s = d.lt s.utilisation (d.decimal 60 2) && s.lost == 0 && s.late == 0

  -- Congestion that came back during a rebound lowers what the rebound aims at.
  unfoldable pub lower_target : Controller D → Controller D
  unfolding scaled
  lower_target c =
      if is_recovering c.st
      then record c { recovery_target = clamp c (scaled c.recovery_target (d.decimal 75 2)) }
      else c

  unfoldable pub deep_drop : Controller D → Controller D
  unfolding scaled
  deep_drop c = record c {
    recovery_target = if is_recovering c.st then c.recovery_target else c.bitrate;
    bitrate = clamp c (scaled c.bitrate (d.decimal 4 1));
    st = recovering;
    first_recovery_step = true;
    radio = record (c.radio) { hold = false };
  }

  unfoldable pub gentle_drop : Controller D → Controller D
  unfolding scaled
  gentle_drop c = record c { bitrate = clamp c (scaled c.bitrate (d.decimal 7 1)) }

  unfoldable pub decrease : Controller D → ℕ → Bool → Controller D
  unfolding lower_target deep_drop gentle_drop settled
  decrease c now acute =
      let c1 = lower_target (record c { last_decrease = now }) in
      flush (settled (if acute then deep_drop c1 else gentle_drop c1))

  -- One step of the rebound.
  unfoldable pub rebound : Controller D → Controller D
  unfolding scaled
  rebound c =
      let bitrate = min c.recovery_target (clamp c (scaled c.bitrate (d.decimal 20 1))) in
      flush (record c {
        bitrate = bitrate;
        first_recovery_step = false;
        st = if leb c.recovery_target bitrate then steady else c.st;
      })

  unfoldable pub step_up : Controller D → ℕ
  unfolding scaled
  step_up c = max increase_step_min (scaled c.ceiling (d.decimal 5 2))

  unfoldable pub increase : Controller D → Controller D
  unfolding step_up
  increase c =
      let bitrate = clamp c (c.bitrate + step_up c) in
      flush (record c { bitrate = bitrate; recovery_target = bitrate })

  abbrev pub since : Controller D → ℕ → ℕ
  since c now = elim c.healthy_since [ none ↦ now | some t ↦ t ]

  unfoldable pub on_healthy : Controller D → ℕ → Controller D × Option ℕ
  unfolding rebound increase
  on_healthy c now =
      let started = record c { healthy_since = some (since c now) } in
      let wait = if c.first_recovery_step then recovery_confirm else recovery_step_interval in
      let rebounds =
        if ltb now (since c now + wait)
        then (started, none)
        else answer c.bitrate (rebound started) in
      let climbs =
        if c.radio.hold || ltb now (since c now + increase_hold) || leb c.ceiling c.bitrate
        then (started, none)
        else answer c.bitrate (increase started) in
      if is_recovering c.st then rebounds else climbs

  unfoldable pub on_degraded : Controller D → ℕ → Bool → Controller D × Option ℕ
  unfolding decrease
  on_degraded c now acute =
      let waiting = record c { healthy_since = none } in
      if ltb now (c.last_decrease + decrease_cooldown)
      then (waiting, none)
      else answer c.bitrate (decrease waiting now acute)

  unfoldable pub evaluate_aimd : Controller D → ℕ → Stats D → Controller D × Option ℕ
  unfolding on_healthy on_degraded severe degraded healthy
  evaluate_aimd c now s =
      if degraded s
      then on_degraded c now (severe s)
      else if healthy s
      then on_healthy c now
      else (record c { healthy_since = none }, none)
