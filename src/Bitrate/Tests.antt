-- ===== src/Bitrate/Tests.antt =====
-- bitrate_controller.cpp on doubles that are a natural number of hundredths.
use wivrn_nx_windows.Base.{
  ℕ, ◌+◌, ◌-◌, ◌*◌, ◌/◌, ◌^◌, min, ◌≤◌, ◌<◌, ◌≡◌, ◌≢◌, refl, ◌⊎◌, inr, true, false, none, List, [],
  ◌∷◌, All, length, arith, ltb, leb,
}
use wivrn_nx_windows.Base.Int.{pos, negsuc, pos_part}
use wivrn_nx_windows.Bitrate.{
  Doubles, Stats, aimd, Config, Feedback, Entry, State, Controller, mode, flush, ms,
  increase_step_min, increase_hold, recovery_confirm,
}
use wivrn_nx_windows.Bitrate.Aimd.{scaled, degraded, severe, healthy}
use wivrn_nx_windows.Bitrate.Control.{no_frames, no_radio, no_estimate, configure}
use wivrn_nx_windows.Bitrate.Range.{InRange}
use wivrn_nx_windows.Bitrate.Calls.{
  Call, run, encoder, IsValid, run-configure_bounded, encoder-configure,
}
use wivrn_nx_windows.Bitrate.Cooldown.{Spaced, falls, Keeps, falls-Spaced}
use wivrn_nx_windows.Bitrate.Off.{Reports, set_client_enabled_off}
use wivrn_nx_windows.Bitrate.Climbs.{HealthyFor, evaluated, evaluated_climbs}
use wivrn_nx_windows.Bitrate.Rebound.{doubled, evaluated_rebounds}

-- `decimal` keeps the part of the number above a hundredth.
abbrev pub hundredths : Doubles ℕ
hundredths = record {
  of_int = λ n. pos_part n * 100;
  decimal = λ n k. n * 100 / 10 ^ k;
  to_nat = λ x. x / 100;
  to_float = λ x. x;
  add = λ x y. x + y;
  sub = λ x y. x - y;
  mul = λ x y. x * y / 100;
  div = λ x y. x * 100 / y;
  abs = λ x. x;
  lt = ltb;
  ge = λ x y. leb y x;
}

abbrev pub conf : Config
conf = record { enabled = true; min_bitrate_bps = 10_000_000; control = aimd }

abbrev pub blank : Controller ℕ
blank = record {
  conf = conf;
  client_enabled = true;
  client_mode = none;
  radio_aware = true;
  ceiling = 0;
  bitrate = 0;
  min_bitrate = 0;
  st = State.steady;
  recovery_target = 0;
  first_recovery_step = true;
  ring = no_frames;
  frame_period = 0;
  pacing_window = 0;
  estimator = no_estimate hundredths;
  window = [];
  healthy_since = none;
  last_evaluation = 0;
  last_decrease = 0;
  radio = no_radio;
}

abbrev pub packet : ℕ → Feedback
packet frame = record {
  frame_index = frame;
  stream_index = 0;
  sent_to_decoder = false;
  received_first_packet = 0;
  received_last_packet = 0;
  received_from_decoder = false;
  blitted = false;
  times_displayed = 0;
}

-- A frame that was lost is reported, and the signal falls.
abbrev reports : List (Call ℕ)
reports =
    Call.frame_bytes 1 0 4_000 (ms 10)
    ∷ Call.feedback (packet 1) (pos 11_111_111) true (ms 300)
    ∷ Call.wifi (negsuc 69) (pos 400) (ms 500)
    ∷ Call.feedback (packet 17) (pos 11_111_111) true (ms 2_700)
    ∷ []

-- The client lowers the ceiling, and turns the radio off.
abbrev calls : List (Call ℕ)
calls = Call.ceiling 60_000_000 ∷ Call.radio_aware false ∷ reports

abbrev started : Controller ℕ
started = configure hundredths blank conf 100_000_000 true true none

run-configure_bounded_example :
    let last = run hundredths started calls in
    (last.ceiling ≡ 0)
    ⊎ ((min last.conf.min_bitrate_bps last.ceiling ≤ last.bitrate) × (last.bitrate ≤ last.ceiling))
run-configure_bounded_example =
    run-configure_bounded hundredths blank conf 100_000_000 true true none calls

encoder-configure_example :
    encoder hundredths 100_000_000 started calls ≡ (run hundredths started calls).bitrate
encoder-configure_example = encoder-configure hundredths blank conf 100_000_000 true true none calls

shrinks : (n : ℕ) → n < 2 ^ 32 → scaled hundredths n (hundredths.decimal 7 1) ≤ n
unfolding scaled
shrinks n small = omega arith

exact : (n : ℕ) → n < 2 ^ 32 → scaled hundredths n (hundredths.decimal 20 1) ≡ n + n
unfolding scaled
exact n small = omega arith

grows : (n : ℕ) → n < 2 ^ 32 → n ≤ scaled hundredths n (hundredths.decimal 20 1)
unfolding scaled
grows n small = omega arith

started-InRange : InRange started
unfolding configure flush
started-InRange = ground arith

started-IsValid : IsValid hundredths started
unfolding configure flush IsValid
started-IsValid = inr (started-InRange, refl)

calls-Keep : All Keeps calls
unfolding Keeps
calls-Keep = (omega arith, (tt, (tt, (tt, (tt, (tt, tt))))))

started_small : started.ceiling < 2 ^ 32
unfolding configure flush
started_small = omega arith

started_law : mode started ≡ aimd
unfolding configure flush
started_law = refl

falls-Spaced_example : Spaced started.last_decrease (falls hundredths started calls)
falls-Spaced_example =
    falls-Spaced hundredths started calls grows shrinks started_small started-IsValid started_law
      calls-Keep

reports-Report : All Reports reports
unfolding Reports
reports-Report = (tt, (tt, (tt, (tt, tt))))

started_given : started.ceiling ≢ 0
unfolding configure flush
started_given = λ h. ground arith

started_on : started.client_enabled ≡ true
unfolding configure flush
started_on = refl

set_client_enabled_off_example :
    let off = Call.client_on false ∷ reports in
    ((run hundredths started off).bitrate ≡ started.ceiling)
    × (encoder hundredths 7_000_000 started off ≡ started.ceiling)
set_client_enabled_off_example =
    set_client_enabled_off hundredths started 7_000_000 reports started_on started_given
      reports-Report

abbrev fine : Stats ℕ
fine = record { utilisation = 30; lost = 0; late = 0; count = 40; rate = 0; rate_count = 0 }

-- Two evaluations from `t` on, five seconds apart.
abbrev pair : ℕ → ℕ × Stats ℕ × ℕ × Stats ℕ
pair t = (t, fine, t + ms 5_000, fine)

abbrev pairs : List (ℕ × Stats ℕ × ℕ × Stats ℕ)
pairs = pair (ms 1_000) ∷ pair (ms 6_500) ∷ []

pairs-HealthyFor : All (HealthyFor hundredths increase_hold) pairs
unfolding HealthyFor degraded severe healthy
pairs-HealthyFor =
    (((refl, refl), (refl, refl), omega arith), (((refl, refl), (refl, refl), omega arith), tt))

abbrev low : Controller ℕ
low = record blank {
  ceiling = 100_000_000;
  bitrate = 20_000_000;
  min_bitrate = 10_000_000;
  recovery_target = 20_000_000;
}

evaluated_climbs_example :
    min low.ceiling (low.bitrate + length pairs * increase_step_min)
    ≤ (evaluated hundredths low pairs).bitrate
evaluated_climbs_example =
    evaluated_climbs hundredths low pairs (ground arith) refl refl refl pairs-HealthyFor

-- A deep drop from 80 Mbit/s.
abbrev dropped : Controller ℕ
dropped = record low { st = State.recovering; recovery_target = 80_000_000 }

pairs-confirm : All (HealthyFor hundredths recovery_confirm) pairs
unfolding HealthyFor degraded severe healthy
pairs-confirm =
    (((refl, refl), (refl, refl), omega arith), (((refl, refl), (refl, refl), omega arith), tt))

evaluated_rebounds_example :
    min dropped.recovery_target (doubled dropped.bitrate (length pairs))
    ≤ (evaluated hundredths dropped pairs).bitrate
evaluated_rebounds_example =
    evaluated_rebounds hundredths dropped pairs exact (ground arith) (omega arith) refl refl
      pairs-confirm

abbrev rates : List (Entry ℕ)
rates = record { when = ms 200; value = 90 } ∷ record { when = ms 100; value = 80 } ∷ []

abbrev latest : Entry ℕ
latest = record { when = ms 400; value = 70 }

abbrev newest : Entry ℕ
newest = record { when = ms 500; value = 60 }
