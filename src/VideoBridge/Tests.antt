-- ===== src/VideoBridge/Tests.antt =====
-- video_bridge.h on a session with frames of one entry for each eye.
use wivrn_nx_windows.Base.{
  ℕ, ◌+◌, ◌≤◌, ◌<◌, ◌≡◌, refl, ◌⊎◌, Bool, true, false, List, [], ◌∷◌, ◌++◌, length, ◌==◌, not,
}
use wivrn_nx_windows.VideoBridge.{
  EncodedFrame, VideoBridge, h264, max_queued, push_frames, trim, trim_loop, drop_victim,
}
use wivrn_nx_windows.VideoBridge.Queue.{IsTail, push_frames_lem}
use wivrn_nx_windows.VideoBridge.Generations.{
  Call, calls, client, bitrate, idr, gone, pushed, taken, Follows, calls-Follows,
}

abbrev entry : ℕ → ℕ → EncodedFrame ℕ
entry number eye = record {
  frame_id = number;
  sample_time_qpc = 0;
  predict_s = 0;
  pose_q = [];
  pose_p = [];
  stream_index = eye;
  idr = false;
  bytes = number ∷ [];
}

-- An active client, H.265 or H.264 at 90 Hz, two frames queued; `--codec` asks for H.264.
abbrev bridge : VideoBridge ℕ
bridge = record {
  wanted = record {
    active = true;
    refresh_hz = 90;
    bitrate_bps = 50_000_000;
    bitrate_generation = 3;
    allow_h265 = true;
    allow_h264 = true;
    idr_generation = 7;
    config_generation = 2;
  };
  pref_bitrate_bps = 80_000_000;
  pref_codec = 1;
  pref_adaptive = true;
  stream = record {
    info = record { width = 100; height = 100; codec = h264 };
    valid = true;
    generation = 1;
  };
  frames = entry 1 0 ∷ entry 1 1 ∷ entry 2 0 ∷ entry 2 1 ∷ [];
  frames_queued = 4;
  frames_dropped = 0;
}

abbrev hz_ne : ℕ → ℕ → Bool
hz_ne a b = not (a == b)

-- Frame 1 goes whole.
trim_example : trim (bridge.frames ++ (entry 3 0 ∷ [])) ≡ entry 2 0 ∷ entry 2 1 ∷ entry 3 0 ∷ []
unfolding trim trim_loop drop_victim
trim_example = refl

push_frames_lem_example :
    let b' = push_frames bridge (entry 3 0 ∷ []) in
    (length b'.frames ≤ max_queued)
    × IsTail (bridge.frames ++ (entry 3 0 ∷ [])) b'.frames
    × ((max_queued < 5) ⊎ (b'.frames ≡ bridge.frames ++ (entry 3 0 ∷ [])))
    × (b'.frames_queued ≡ 5)
    × (b'.frames_dropped + length b'.frames ≡ 5)
push_frames_lem_example = push_frames_lem bridge (entry 3 0) [] refl

abbrev session : List (Call ℕ)
session =
    client 72 true true ∷ bitrate 60_000_000 ∷ idr ∷ pushed (entry 3 0 ∷ []) ∷ taken ∷ gone ∷ []

calls-Follows_example : Follows hz_ne bridge.wanted (calls hz_ne bridge session).wanted
calls-Follows_example = calls-Follows hz_ne bridge session
