-- ===== src/Intake/Tests.antt =====
-- video_intake.h with an encoder that answers at once.
use wivrn_nx_windows.Base.{
  ℕ, ◌+◌, ◌≡◌, refl, ◌⊎◌, Bool, true, false, ◌==◌, if◌then◌else◌, none, some, List, [], ◌∷◌, arith,
}
use wivrn_nx_windows.VideoBridge.{VideoBridge}
use wivrn_nx_windows.Staging.{StagingConfig}
use wivrn_nx_windows.Intake.{
  FrameReady, Intake, Encoder, ok, no_info, encode_work, wake, take_pending, encode_begin,
  ensure_encoder, encode_with, encode_finish, on_frame_ready, refuse, push_done, pop_done,
}
use wivrn_nx_windows.Intake.Rounds.{
  System, Event, idle, ready, polled, turn, tracked, HasRoom, run, step, advance,
}
use wivrn_nx_windows.Intake.Conserved.{tracked-run}
use wivrn_nx_windows.Intake.Current.{IsCurrent, tries, frames, encoder-frames}
use wivrn_nx_windows.Intake.Obeyed.{Documents, InStep, noticed, encode_work-InStep}

-- The state counts the calls of `configure`; frames come out empty.
abbrev encoder : Bool → Encoder ℕ ℕ
encoder accepts = record {
  configure = λ e config pid cfg. (e + 1, accepts);
  shutdown = λ e. e;
  set_bitrate = λ e bps. e;
  stream_info = λ e. no_info;
  encode = λ e f idr. (e, ok, []);
}

abbrev bridge : VideoBridge ℕ
bridge = record {
  wanted = record {
    active = true;
    refresh_hz = 90;
    bitrate_bps = 50_000_000;
    bitrate_generation = 3;
    allow_h265 = true;
    allow_h264 = true;
    idr_generation = 7;
    config_generation = 2;
  };
  pref_bitrate_bps = 50_000_000;
  pref_codec = 0;
  pref_adaptive = true;
  stream = record { info = no_info; valid = false; generation = 1 };
  frames = [];
  frames_queued = 0;
  frames_dropped = 0;
}

abbrev config : StagingConfig
config = record {
  generation = 4;
  width = 64;
  height = 32;
  dxgi_format = 28;
  count = 2;
  handles = some 1 ∷ some 2 ∷ [];
}

abbrev frame : ℕ → FrameReady ℕ
frame n = record {
  frame_id = n;
  sample_time_qpc = 0;
  generation = 4;
  staging_index = 0;
  pose = [];
  predict_s = 0;
}

abbrev intake : Intake ℕ ℕ
intake = record {
  has_encoder = true;
  encoder = 0;
  stop = false;
  vrserver_pid = 77;
  staging = some config;
  staging_changed = false;
  pending = none;
  done = [];
  encoder_ready = false;
  encoder_generation = 0;
  encoder_config_generation = 0;
  idr_seen = 0;
  bitrate_seen = 0;
  frames_seen = 0;
  frames_encoded = 0;
  frames_dropped = 0;
}

abbrev system : System ℕ ℕ
system = record { intake = intake; bridge = bridge; thread = idle; sent = [] }

-- Frame 2 takes the place of frame 1, and is encoded.
abbrev events : List (Event ℕ)
events = ready (frame 1) ∷ ready (frame 2) ∷ turn ∷ turn ∷ turn ∷ turn ∷ polled ∷ polled ∷ []

events-HasRoom : HasRoom (encoder true) system events
unfolding step advance wake take_pending encode_begin encode_work ensure_encoder encode_with
    encode_finish on_frame_ready refuse push_done pop_done
events-HasRoom = (
  omega arith,
  (
    omega arith,
    (omega arith, (omega arith, (omega arith, (omega arith, (omega arith, (omega arith, tt)))))),
  ),
)

tracked-run_example : tracked 2 (run (encoder true) system events) ≡ 1
tracked-run_example = tracked-run (encoder true) system events 2 events-HasRoom

-- The state is the bitrate and the number of key frames that were forced.
abbrev watched : Encoder ℕ (ℕ × ℕ)
watched = record {
  configure = λ e config pid cfg. ((cfg.bitrate_bps, e.1), true);
  shutdown = λ e. e;
  set_bitrate = λ e bps. (bps, e.1);
  stream_info = λ e. no_info;
  encode = λ e f idr. ((e.0, if idr then e.1 + 1 else e.1), ok, []);
}

watched-Documents : Documents watched (λ e. e.0) (λ e. e.1)
watched-Documents = record {
  configure_rate = λ e c pid a h. refl;
  configure_keys = λ e c pid a. refl;
  shutdown_keys = λ e. refl;
  set_rate = λ e n. refl;
  set_keys = λ e n. refl;
  encode_rate = λ e f k. refl;
  forced = λ e f h. refl;
  unforced = λ e f. refl;
}

-- An encoder that runs, with a bitrate and a key frame that it has not been asked for yet.
abbrev running : Intake ℕ (ℕ × ℕ)
running = record {
  has_encoder = true;
  encoder = (30_000_000, 5);
  stop = false;
  vrserver_pid = 77;
  staging = some config;
  staging_changed = false;
  pending = none;
  done = [];
  encoder_ready = true;
  encoder_generation = 4;
  encoder_config_generation = 2;
  idr_seen = 6;
  bitrate_seen = 2;
  frames_seen = 0;
  frames_encoded = 0;
  frames_dropped = 0;
}

behind : InStep (λ (e : ℕ × ℕ). e.0) running bridge.wanted
behind on seen = ground arith

encode_work-InStep_example :
    let r = bridge.wanted in
    let (s', b', encoded) = encode_work watched running bridge config 77 (frame 1) in
    InStep (λ (e : ℕ × ℕ). e.0) s' r
    × (((encoded ≡ true)
          × IsCurrent watched s' config r
          × (s'.encoder.0 ≡ r.bitrate_bps)
          × (s'.idr_seen ≡ r.idr_generation)
          × (((r.idr_generation ≡ noticed running config r) × (s'.encoder.1 ≡ 5))
              ⊎ (((r.idr_generation == noticed running config r) ≡ false) × (s'.encoder.1 ≡ 6))))
        ⊎ ((encoded ≡ false) × ((s'.idr_seen ≡ running.idr_seen) ⊎ (s'.idr_seen ≡ 0))))
encode_work-InStep_example =
    encode_work-InStep watched (λ e. e.0) (λ e. e.1) watched-Documents running bridge config 77
      (frame 1) behind

encoder-frames_example :
    (frames (encoder false) 3 intake bridge config 77 (frame 1)).encoder
    ≡ tries (encoder false) 3 0 config 77 bridge.wanted
encoder-frames_example =
    encoder-frames (encoder false) 3 intake bridge config 77 (frame 1) (λ e. refl) refl refl
