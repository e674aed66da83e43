-- ===== src/PipeServer/Tests.antt =====
-- pipe_server.cpp with payloads that are a greeting, and a pipe whose third write fails.
use wivrn_nx_windows.Base.{ℕ, ◌≡◌, inr, Bool, true, false, not, none, List, [], ◌∷◌, ◌==◌, arith}
use wivrn_nx_windows.VideoBridge.{VideoBridge}
use wivrn_nx_windows.Bridge.{HmdConfig, fresh, make}
use wivrn_nx_windows.Intake.{FrameDone, Intake, no_info, on_shim_gone}
use wivrn_nx_windows.PipeServer.{PipeServer, Layout, Wait, arrived, elapsed, Round, shim_magic}
use wivrn_nx_windows.PipeServer.Loop.{flush_frame_done, session, run_client}
use wivrn_nx_windows.PipeServer.Answered.{GivesBack, flush_frame_done-GivesBack}
use wivrn_nx_windows.PipeServer.Opening.{Opening}
use wivrn_nx_windows.PipeServer.Session.{session-Opening, run_client_refused}

abbrev pub layout : Layout ℕ ℕ
layout = record {
  hello = λ p. record { magic = shim_magic; version = p; vrserver_pid = 77 };
  haptic = λ p. record { device = 1; duration_s = p; frequency_hz = p; amplitude = p };
  staging_config = λ p. record {
    generation = p;
    width = 64;
    height = 32;
    dxgi_format = 28;
    count = 0;
    handles = [];
  };
  frame_ready = λ p. record {
    frame_id = p;
    sample_time_qpc = 0;
    generation = 4;
    staging_index = 0;
    pose = [];
    predict_s = 0;
  };
}

abbrev pub write : ℕ → Bool
write n = not (n == 2)

abbrev pub hmd : HmdConfig ℕ
hmd = record {
  eye_width = 2_000;
  eye_height = 2_000;
  refresh_hz = 90;
  ipd_m = 63;
  proj_left = [];
  proj_right = [];
  proj_top = [];
  proj_bottom = [];
  eye_to_head_q = [];
  eye_to_head_p = [];
}

abbrev answer : ℕ → FrameDone
answer n = record { frame_id = n; staging_index = 0; flags = 0 }

abbrev intake : Intake ℕ ℕ
intake = record {
  has_encoder = true;
  encoder = 0;
  stop = false;
  vrserver_pid = 0;
  staging = none;
  staging_changed = false;
  pending = none;
  done = answer 1 ∷ answer 2 ∷ answer 3 ∷ answer 4 ∷ [];
  encoder_ready = false;
  encoder_generation = 0;
  encoder_config_generation = 0;
  idr_seen = 0;
  bitrate_seen = 0;
  frames_seen = 0;
  frames_encoded = 0;
  frames_dropped = 0;
}

abbrev pub video : VideoBridge ℕ
video = record {
  wanted = record {
    active = false;
    refresh_hz = 90;
    bitrate_bps = 50_000_000;
    bitrate_generation = 3;
    allow_h265 = true;
    allow_h264 = true;
    idr_generation = 7;
    config_generation = 2;
  };
  pref_bitrate_bps = 50_000_000;
  pref_codec = 0;
  pref_adaptive = true;
  stream = record { info = no_info; valid = false; generation = 1 };
  frames = [];
  frames_queued = 0;
  frames_dropped = 0;
}

abbrev pub server : PipeServer ℕ ℕ
server = record {
  bridge = make 0 1 hmd;
  intake = intake;
  video = video;
  cursor = fresh;
  sent = [];
  writes = 0;
  poses_sent = 0;
  inputs_sent = 0;
  frames_ready_seen = 0;
  frames_done_sent = 0;
  keepalives_seen = 0;
  haptics_seen = 0;
  unknown_seen = 0;
  staging_configs_seen = 0;
}

-- A greeting of a version.
abbrev pub greeting : ℕ → Wait ℕ
greeting version = arrived (record { size = 16; raw_type = 1; payload = version })

-- A frame comes, and then nothing.
abbrev pub rounds : List (Round ℕ ℕ ℕ)
rounds =
    record {
      bridge = λ b. b;
      intake = λ i. i;
      video = λ v. v;
      wait = arrived (record { size = 60; raw_type = 201; payload = 5 });
    }
    ∷ record { bridge = λ b. b; intake = λ i. i; video = λ v. v; wait = elapsed }
    ∷ []

flush_frame_done-GivesBack_example : GivesBack write server (flush_frame_done write server)
flush_frame_done-GivesBack_example = flush_frame_done-GivesBack write server

session-Opening_example : Opening hmd (session layout write server (greeting 3) rounds).0.sent
session-Opening_example =
    session-Opening layout write server (greeting 3) rounds (λ h. ground arith)

-- A shim of another version.
run_client_refused_example :
    let (s', keep) = run_client layout write server (greeting 2) rounds false in
    (s'.sent ≡ [])
    × (s'.bridge ≡ server.bridge)
    × (s'.video ≡ server.video)
    × (s'.intake ≡ on_shim_gone server.intake)
    × (keep ≡ not false)
run_client_refused_example =
    run_client_refused layout write server (greeting 2) rounds false
      (inr (inr (inr (λ h. ground arith))))
