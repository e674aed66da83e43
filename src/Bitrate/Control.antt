-- ===== src/Bitrate/Control.antt =====
-- The operations of bitrate_controller.cpp.
use wivrn_nx_windows.Base.{
  ℕ, ◌+◌, ◌-◌, ◌%◌, ◌^◌, min, max, Bool, true, false, not, ◌&&◌, ◌||◌, ltb, leb, ◌==◌, xor_bool,
  if◌then◌else◌, Option, none, some, [], ◌∷◌, set,
}
use wivrn_nx_windows.Base.Int.{ℤ, pos_part}
use wivrn_nx_windows.Bitrate.{
  Doubles, Mode, aimd, bbr, Config, Feedback, FrameState, no_frame, FrameRing, State, BbrState,
  Estimator, Radio, Controller, mode, flush, min_samples, evaluation_interval, frame_ring_size,
  video_stream_count, radio_max_age, estimator_min_samples,
}
use wivrn_nx_windows.Bitrate.Filter.{is_valid, maximum, emptied}
use wivrn_nx_windows.Bitrate.Window.{frame_at, seen, opened, analyse, nat, min_of}
use wivrn_nx_windows.Bitrate.Aimd.{is_recovering, evaluate_aimd}
use wivrn_nx_windows.Bitrate.Bandwidth.{evaluate_bbr}

pub data StateName : Type 0 where
  off steady recovering startup probe : StateName

pub record Status : Type 0 where
  pub bitrate_bps : ℕ
  pub ceiling_bps : ℕ
  pub control : Mode
  pub state : StateName
  pub radio_hold : Bool
  pub estimate_bps : ℕ

unfoldable pub same_mode : Mode → Mode → Bool
same_mode aimd aimd = true
same_mode bbr bbr = true
same_mode _ _ = false

pub same_choice : Option Mode → Option Mode → Bool
unfolding same_mode
same_choice none none = true
same_choice (some m) (some n) = same_mode m n
same_choice _ _ = false

abbrev pub no_frames : FrameRing
no_frames = record {
  frames =
      no_frame ∷ no_frame ∷ no_frame ∷ no_frame ∷ no_frame ∷ no_frame ∷ no_frame ∷ no_frame
      ∷ no_frame ∷ no_frame ∷ no_frame ∷ no_frame ∷ no_frame ∷ no_frame ∷ no_frame ∷ no_frame ∷ [];
  newest_frame = 0;
  has_frames = false;
  stale_before = 0;
}

-- `frames = {}`, which leaves `newest_frame` alone.
abbrev pub cleared : FrameRing → FrameRing
cleared ring = record no_frames { newest_frame = ring.newest_frame }

-- What one packet says of its frame.
pub reported : FrameState → Feedback → FrameState
reported frame f =
    let first =
      if f.received_first_packet == 0
      then frame.first
      else if frame.first == 0
      then f.received_first_packet
      else min frame.first f.received_first_packet in
    let arrived = record frame {
      first = first;
      last = max frame.last f.received_last_packet;
      valid = true;
    } in
    let told = if f.sent_to_decoder then arrived else record frame { lost = true } in
    let late = f.received_from_decoder && not f.blitted && f.times_displayed == 0 in
    record told { late = told.late || late }

module _ {D : Type 0} where
  abbrev pub no_radio : Radio D
  no_radio = record {
    samples = [];
    ema = none;
    last_sample = 0;
    last_step = 0;
    hold = false;
    stable_since = none;
  }

  unfoldable pub enabled : Controller D → Bool
  enabled c = c.conf.enabled && c.client_enabled

  unfoldable pub set_radio_aware : Controller D → Bool → Controller D
  set_radio_aware c aware =
      if xor_bool aware c.radio_aware then record c { radio_aware = aware; radio = no_radio } else c

  -- A hold on reports that stopped coming is let go.
  unfoldable pub release_stale : Controller D → ℕ → Controller D
  release_stale c now =
      if c.radio.hold && ltb (c.radio.last_sample + radio_max_age) now
      then record c { radio = record (c.radio) { hold = false } }
      else c

module _ {D : Type 0} (d : Doubles D) where
  abbrev pub no_estimate : Estimator D
  no_estimate = record {
    bbr_st = BbrState.startup;
    bandwidth = emptied d;
    bandwidth_samples = 0;
    last_bandwidth_sample = 0;
    startup_mark = nat d 0;
    startup_stalled = 0;
    round_started = 0;
    last_probe = 0;
    probe_until = 0;
    last_bbr_change = 0;
  }

  unfoldable pub configure : Controller D → Config → ℕ → Bool → Bool → Option Mode → Controller D
  configure c conf ceiling client_enabled radio_aware client_mode =
      record (flush (record c {
        conf = conf;
        client_enabled = client_enabled;
        radio_aware = radio_aware;
        client_mode = client_mode;
        ceiling = ceiling;
        min_bitrate =
            min conf.min_bitrate_bps (if ceiling == 0 then conf.min_bitrate_bps else ceiling);
        bitrate = ceiling;
        recovery_target = ceiling;
        st = State.steady;
        first_recovery_step = true;
        ring = cleared c.ring;
      })) { radio = no_radio; estimator = no_estimate }

  unfoldable pub reset_locked : Controller D → Controller D × Option ℕ
  reset_locked c =
      let again = flush (record c {
        bitrate = c.ceiling;
        recovery_target = c.ceiling;
        st = State.steady;
        first_recovery_step = true;
        ring = cleared c.ring;
      }) in
      if c.ceiling == 0 then (c, none) else (
        record again {
          estimator = no_estimate;
          radio = record (c.radio) { hold = false; stable_since = none; last_step = 0 };
        },
        some c.ceiling,
      )

  unfoldable pub set_client_mode : Controller D → Option Mode → Controller D × Option ℕ
  unfolding same_mode same_choice
  set_client_mode c m =
      let chosen = record c { client_mode = m } in
      if same_choice m c.client_mode
      then (c, none)
      else if same_mode (mode c) (mode chosen)
      then (chosen, none)
      else reset_locked chosen

  unfoldable pub set_pacing_window : Controller D → D → Controller D
  set_pacing_window c window =
      let low = nat d 0 in
      let high = d.decimal 1 0 in
      record c {
        pacing_window = if d.lt window low then low else if d.lt high window then high else window;
      }

  unfoldable pub set_client_enabled : Controller D → Bool → Controller D × Option ℕ
  set_client_enabled c on =
      if xor_bool on c.client_enabled
      then reset_locked (record c { client_enabled = on })
      else (c, none)

  unfoldable pub set_ceiling : Controller D → ℕ → Controller D × Option ℕ
  set_ceiling c ceiling =
      if ceiling == 0 || ceiling == c.ceiling
      then (c, none)
      else reset_locked
          (record c { ceiling = ceiling; min_bitrate = min c.conf.min_bitrate_bps ceiling })

  pub bandwidth_estimate : Controller D → ℕ
  bandwidth_estimate c =
      let e = c.estimator in
      let estimate = d.to_nat (min_of d (maximum e.bandwidth) (nat d (2 ^ 32 - 1))) in
      let known = is_valid e.bandwidth && leb estimator_min_samples e.bandwidth_samples in
      elim (mode c) [ aimd ↦ 0 | bbr ↦ if known then estimate else 0 ]

  unfoldable pub snapshot : Controller D → Status
  unfolding bandwidth_estimate
  snapshot c =
      let law : StateName = if is_recovering c.st then StateName.recovering else StateName.steady in
      let ramp : StateName = elim c.estimator.bbr_st [
        | BbrState.startup ↦ StateName.startup
        | BbrState.steady ↦ StateName.steady
        | BbrState.probe ↦ StateName.probe
      ] in
      let on : StateName = elim (mode c) [ aimd ↦ law | bbr ↦ ramp ] in
      record {
        bitrate_bps = c.bitrate;
        ceiling_bps = c.ceiling;
        control = mode c;
        state = if enabled c then on else StateName.off;
        radio_hold = enabled c && c.radio.hold && c.radio_aware;
        estimate_bps = bandwidth_estimate c;
      }

  unfoldable pub on_frame_bytes : Controller D → ℕ → ℕ → ℕ → ℕ → Controller D
  on_frame_bytes c frame_index stream_index bytes now =
      let (c1, collecting) = seen c frame_index in
      let c2 = opened d c1 frame_index now in
      let i = frame_index % frame_ring_size in
      let frame = frame_at c2.ring.frames i in
      let counted = record c2 {
        ring = record (c2.ring) {
          frames = set c2.ring.frames i (record frame { bytes = frame.bytes + bytes });
        };
      } in
      if not (same_mode (mode c) bbr) || not (enabled c) || c.ceiling == 0
      then c
      else if leb video_stream_count stream_index || bytes == 0
      then c
      else if not collecting
      then c1
      else counted

  unfoldable pub evaluate : Controller D → ℕ → Controller D × Option ℕ
  unfolding release_stale
  evaluate c now =
      let c1 = release_stale (record c { last_evaluation = now }) now in
      let (c2, s) = analyse d c1 now in
      let decided : Controller D × Option ℕ = elim (mode c) [
        | aimd ↦ evaluate_aimd d c2 now s
        | bbr ↦ evaluate_bbr d c2 now s
      ] in
      if ltb now (c.last_evaluation + evaluation_interval)
      then (c, none)
      else if ltb s.count min_samples
      then (c2, none)
      else decided

  unfoldable pub on_feedback : Controller D → Feedback → ℤ → Bool → ℕ → Controller D × Option ℕ
  unfolding reported
  on_feedback c f period_ns streaming now =
      let (c1, collecting) = seen (record c { frame_period = pos_part period_ns }) f.frame_index in
      let c2 = opened d c1 f.frame_index now in
      let i = f.frame_index % frame_ring_size in
      let told = record c2 {
        ring = record (c2.ring) {
          frames = set c2.ring.frames i (reported (frame_at c2.ring.frames i) f);
        };
      } in
      if not (enabled c) || not streaming || c.ceiling == 0 || pos_part period_ns == 0
      then (c, none)
      else if leb video_stream_count f.stream_index
      then (c, none)
      else if not collecting
      then (c1, none)
      else evaluate told now
