-- ===== src/Bitrate.antt =====
-- helper/src/wivrn/bitrate_controller.h: the state and the constants of the automatic bitrate.
--
-- A `double` or `float` is a value of a type `D` with the operations that the code uses. A time of
-- the steady clock is its nanoseconds since the epoch, so that the difference of two times is
-- compared by adding. Headset times are not negative, and 64-bit frame numbers, byte sums and times
-- do not wrap. The log lines are left out.
pub mod Filter
pub mod Window
pub mod RadioTrend
pub mod Aimd
pub mod Bandwidth
pub mod Control
pub mod Wifi
pub mod Range
pub mod Bounds
pub mod Steps
pub mod Calls
pub mod Falls
pub mod Cooldown
pub mod Off
pub mod Climbs
pub mod Rebound
pub mod Maximum
pub mod Tests
use wivrn_nx_windows.Base.{
  ℕ, zero, suc, ◌+◌, ◌-◌, ◌*◌, ◌^◌, ◌≤◌, ◌≡◌, Bool, true, false, Option, none, some, List, [], ◌∷◌,
  ltb, ◌==◌, if◌then◌else◌,
}
use wivrn_nx_windows.Base.Int.{ℤ, pos}

-- `decimal n k` is the literal n / 10 ^ k, `to_nat` the cast to `uint64_t`, `to_float` the one to
-- `float`.
pub record Doubles (D : Type 0) : Type 0 where
  pub of_int : ℤ → D
  pub decimal : ℕ → ℕ → D
  pub to_nat : D → ℕ
  pub to_float : D → D
  pub add : D → D → D
  pub sub : D → D → D
  pub mul : D → D → D
  pub div : D → D → D
  pub abs : D → D
  pub lt : D → D → Bool
  pub ge : D → D → Bool

abbrev pub ms : ℕ → ℕ
ms n = n * 1_000_000

abbrev pub window_duration : ℕ
window_duration = ms 2000

abbrev pub min_samples : ℕ
min_samples = 20

abbrev pub evaluation_interval : ℕ
evaluation_interval = ms 250

abbrev pub frame_ring_size : ℕ
frame_ring_size = 16

abbrev pub video_stream_count : ℕ
video_stream_count = 3

abbrev pub lost_frames_decrease : ℕ
lost_frames_decrease = 1

abbrev pub lost_frames_severe : ℕ
lost_frames_severe = 3

abbrev pub late_frames_decrease : ℕ
late_frames_decrease = 4

abbrev pub late_frames_severe : ℕ
late_frames_severe = 10

abbrev pub decrease_cooldown : ℕ
decrease_cooldown = ms 2000

abbrev pub increase_step_min : ℕ
increase_step_min = 2_000_000

abbrev pub increase_hold : ℕ
increase_hold = ms 5000

abbrev pub recovery_confirm : ℕ
recovery_confirm = ms 2500

abbrev pub recovery_step_interval : ℕ
recovery_step_interval = ms 1000

abbrev pub radio_trend_window : ℕ
radio_trend_window = ms 4000

abbrev pub radio_max_age : ℕ
radio_max_age = ms 5000

abbrev pub radio_min_samples : ℕ
radio_min_samples = 4

abbrev pub radio_step_interval : ℕ
radio_step_interval = ms 4000

abbrev pub radio_stable_hold : ℕ
radio_stable_hold = ms 3000

abbrev pub estimator_window : ℕ
estimator_window = ms 10000

abbrev pub estimator_min_samples : ℕ
estimator_min_samples = 12

abbrev pub round_duration : ℕ
round_duration = ms 500

abbrev pub startup_stall_rounds : ℕ
startup_stall_rounds = 3

abbrev pub probe_interval : ℕ
probe_interval = ms 8000

abbrev pub probe_duration : ℕ
probe_duration = ms 500

abbrev pub steady_interval : ℕ
steady_interval = ms 1000

abbrev pub change_settle : ℕ
change_settle = ms 250

pub data Mode : Type 0 where
  aimd bbr : Mode

pub record Config : Type 0 where
  pub enabled : Bool
  pub min_bitrate_bps : ℕ
  pub control : Mode

-- The fields of a feedback packet that the controller reads.
pub record Feedback : Type 0 where
  pub frame_index : ℕ
  pub stream_index : ℕ
  pub sent_to_decoder : Bool
  pub received_first_packet : ℕ
  pub received_last_packet : ℕ
  pub received_from_decoder : Bool
  pub blitted : Bool
  pub times_displayed : ℕ

-- `uint64_t(-1)`
abbrev pub no_index : ℕ
no_index = 2 ^ 64 - 1

pub record FrameState : Type 0 where
  pub index : ℕ
  pub first : ℕ
  pub last : ℕ
  pub valid : Bool
  pub lost : Bool
  pub late : Bool
  pub bytes : ℕ

abbrev pub no_frame : FrameState
no_frame = record {
  index = no_index;
  first = 0;
  last = 0;
  valid = false;
  lost = false;
  late = false;
  bytes = 0;
}

pub record Sample (D : Type 0) : Type 0 where
  pub when : ℕ
  pub utilisation : D
  pub lost : Bool
  pub late : Bool
  pub rate : D

pub record Entry (D : Type 0) : Type 0 where
  pub when : ℕ
  pub value : D

pub record MaxFilter (D : Type 0) : Type 0 where
  pub s0 : Entry D
  pub s1 : Entry D
  pub s2 : Entry D
  pub count : ℕ

pub record RadioSample (D : Type 0) : Type 0 where
  pub when : ℕ
  pub rssi_dbm : D
  pub link_speed_mbps : ℕ

pub data State : Type 0 where
  steady recovering : State

pub data BbrState : Type 0 where
  startup steady probe : BbrState

pub record Stats (D : Type 0) : Type 0 where
  pub utilisation : D
  pub lost : ℕ
  pub late : ℕ
  pub count : ℕ
  pub rate : D
  pub rate_count : ℕ

-- The frames whose feedback is being collected.
pub record FrameRing : Type 0 where
  pub frames : List FrameState
  pub newest_frame : ℕ
  pub has_frames : Bool
  pub stale_before : ℕ

-- The state of the v2 estimator.
pub record Estimator (D : Type 0) : Type 0 where
  pub bbr_st : BbrState
  pub bandwidth : MaxFilter D
  pub bandwidth_samples : ℕ
  pub last_bandwidth_sample : ℕ
  pub startup_mark : D
  pub startup_stalled : ℕ
  pub round_started : ℕ
  pub last_probe : ℕ
  pub probe_until : ℕ
  pub last_bbr_change : ℕ

-- The radio trend and its hold.
pub record Radio (D : Type 0) : Type 0 where
  pub samples : List (RadioSample D)
  pub ema : Option D
  pub last_sample : ℕ
  pub last_step : ℕ
  pub hold : Bool
  pub stable_since : Option ℕ

pub record Controller (D : Type 0) : Type 0 where
  pub conf : Config
  pub client_enabled : Bool
  pub client_mode : Option Mode
  pub radio_aware : Bool
  pub ceiling : ℕ
  pub bitrate : ℕ
  pub min_bitrate : ℕ
  pub st : State
  pub recovery_target : ℕ
  pub first_recovery_step : Bool
  pub ring : FrameRing
  pub frame_period : ℕ
  pub pacing_window : D
  pub estimator : Estimator D
  pub window : List (Sample D)
  pub healthy_since : Option ℕ
  pub last_evaluation : ℕ
  pub last_decrease : ℕ
  pub radio : Radio D

module _ {D : Type 0} where
  -- The headset's choice wins over the configuration.
  abbrev pub mode : Controller D → Mode
  mode c = elim c.client_mode [ none ↦ c.conf.control | some m ↦ m ]

  -- `std::clamp` between the floor and the ceiling.
  pub clamp : Controller D → ℕ → ℕ
  clamp c value =
      if ltb value c.min_bitrate
      then c.min_bitrate
      else if ltb c.ceiling value
      then c.ceiling
      else value

  pub flush : Controller D → Controller D
  flush c = record c {
    window = [];
    healthy_since = none;
    last_evaluation = 0;
    ring =
        if c.ring.has_frames
        then record (c.ring) { stale_before = c.ring.newest_frame + 1 }
        else c.ring;
  }

  -- What a decision answers: the bitrate, if it differs from what it was.
  pub answer : ℕ → Controller D → Controller D × Option ℕ
  answer previous c = if c.bitrate == previous then (c, none) else (c, some c.bitrate)
