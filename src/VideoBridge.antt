-- ===== src/VideoBridge.antt =====
-- helper/src/video_bridge.h and video_bridge.cpp: what the session asks of the encoder, and the
-- queue of encoded frames between them.
--
-- Each operation holds the lock for its whole body, so it is one step on the state; the log lines
-- are left out. The 64-bit generations and counters do not wrap. A `float` is a value of a type `F`
-- with the comparison `!=`.
pub mod Queue
pub mod Stream
pub mod Generations
mod Tests
use wivrn_nx_windows.Base.{
  ℕ, zero, suc, ◌+◌, ◌-◌, ◌*◌, ◌≤◌, Bool, true, false, ◌&&◌, ◌||◌, not, ltb, ◌==◌, xor_bool,
  if◌then◌else◌, List, [], ◌∷◌, ◌++◌, length,
}

pub data VideoCodec : Type 0 where
  h264 h265 : VideoCodec

abbrev pub codec_eq : VideoCodec → VideoCodec → Bool
codec_eq h264 h264 = true
codec_eq h265 h265 = true
codec_eq _ _ = false

pub record EncoderStreamInfo : Type 0 where
  pub width : ℕ
  pub height : ℕ
  pub codec : VideoCodec

-- The defaulted `operator==`.
abbrev pub info_eq : EncoderStreamInfo → EncoderStreamInfo → Bool
info_eq a b = a.width == b.width && a.height == b.height && codec_eq a.codec b.codec

pub record EncodedFrame (F : Type 0) : Type 0 where
  pub frame_id : ℕ
  pub sample_time_qpc : ℕ
  pub predict_s : F
  pub pose_q : List F
  pub pose_p : List F
  pub stream_index : ℕ
  pub idr : Bool
  pub bytes : List ℕ

pub record VideoRequest (F : Type 0) : Type 0 where
  pub active : Bool
  pub refresh_hz : F
  pub bitrate_bps : ℕ
  pub bitrate_generation : ℕ
  pub allow_h265 : Bool
  pub allow_h264 : Bool
  pub idr_generation : ℕ
  pub config_generation : ℕ

pub record Prefs : Type 0 where
  pub ceiling_bps : ℕ
  pub codec : ℕ
  pub adaptive : Bool

pub record StreamState : Type 0 where
  pub info : EncoderStreamInfo
  pub valid : Bool
  pub generation : ℕ

pub record VideoBridge (F : Type 0) : Type 0 where
  pub wanted : VideoRequest F
  pub pref_bitrate_bps : ℕ
  pub pref_codec : ℕ
  pub pref_adaptive : Bool
  pub stream : StreamState
  pub frames : List (EncodedFrame F)
  pub frames_queued : ℕ
  pub frames_dropped : ℕ

abbrev pub max_queued : ℕ
max_queued = 4

module _ {F : Type 0} where
  pub set_prefs : VideoBridge F → ℕ → ℕ → Bool → VideoBridge F
  set_prefs b bitrate_bps codec adaptive = record b {
    pref_bitrate_bps = bitrate_bps;
    pref_codec = codec;
    pref_adaptive = adaptive;
    wanted = record (b.wanted) { bitrate_bps = bitrate_bps };
  }

  unfoldable pub prefs : VideoBridge F → Prefs
  prefs b = record {
    ceiling_bps = b.pref_bitrate_bps;
    codec = b.pref_codec;
    adaptive = b.pref_adaptive;
  }

  unfoldable pub set_bitrate : VideoBridge F → ℕ → VideoBridge F
  set_bitrate b bitrate_bps =
      if not b.wanted.active || bitrate_bps == 0 || bitrate_bps == b.wanted.bitrate_bps
      then b
      else record b {
        wanted = record (b.wanted) {
          bitrate_bps = bitrate_bps;
          bitrate_generation = b.wanted.bitrate_generation + 1;
        };
      }

  -- The command line's codec, 1 or 2, takes the other one off the client's offer.
  pub offered_h265 : VideoBridge F → Bool → Bool
  offered_h265 b allow_h265 = if b.pref_codec == 1 then false else allow_h265

  pub offered_h264 : VideoBridge F → Bool → Bool
  offered_h264 b allow_h264 = if b.pref_codec == 2 then false else allow_h264

  -- `hz_ne` is `!=` on floats.
  pub client_changed : (F → F → Bool) → VideoRequest F → F → Bool → Bool → Bool
  client_changed hz_ne r refresh_hz use_h265 use_h264 =
      not r.active
      || hz_ne r.refresh_hz refresh_hz
      || xor_bool r.allow_h265 use_h265
      || xor_bool r.allow_h264 use_h264

  unfoldable pub set_client : (F → F → Bool) → VideoBridge F → F → Bool → Bool → VideoBridge F
  unfolding offered_h265 offered_h264 client_changed
  set_client hz_ne b refresh_hz allow_h265 allow_h264 =
      let use_h265 = offered_h265 b allow_h265 in
      let use_h264 = offered_h264 b allow_h264 in
      let changed = client_changed hz_ne b.wanted refresh_hz use_h265 use_h264 in
      let moved = not (b.wanted.bitrate_bps == b.pref_bitrate_bps) in
      record b {
        wanted = record (b.wanted) {
          active = true;
          refresh_hz = refresh_hz;
          bitrate_bps = if moved then b.pref_bitrate_bps else b.wanted.bitrate_bps;
          bitrate_generation =
              if moved then b.wanted.bitrate_generation + 1 else b.wanted.bitrate_generation;
          allow_h265 = use_h265;
          allow_h264 = use_h264;
          config_generation =
              if changed then b.wanted.config_generation + 1 else b.wanted.config_generation;
          idr_generation = if changed then b.wanted.idr_generation + 1 else b.wanted.idr_generation;
        };
      }

  pub clear_client : VideoBridge F → VideoBridge F
  clear_client b =
      if not b.wanted.active
      then b
      else record b { wanted = record (b.wanted) { active = false }; frames = [] }

  unfoldable pub request_idr : VideoBridge F → VideoBridge F
  request_idr b = record b {
    wanted = record (b.wanted) { idr_generation = b.wanted.idr_generation + 1 };
  }

  pub request : VideoBridge F → VideoRequest F
  request b = b.wanted

  -- The frames appended to the caller's vector, and their number.
  pub take_frames :
      VideoBridge F → List (EncodedFrame F) → VideoBridge F × List (EncodedFrame F) × ℕ
  take_frames b out = (record b { frames = [] }, out ++ b.frames, length b.frames)

  unfoldable pub stream_state : VideoBridge F → StreamState
  stream_state b = b.stream

  pub publish_stream : VideoBridge F → EncoderStreamInfo → Bool → VideoBridge F
  publish_stream b info valid =
      if not (xor_bool b.stream.valid valid) && info_eq b.stream.info info then b else record b {
        stream = record { info = info; valid = valid; generation = b.stream.generation + 1 };
      }

  -- The inner loop: what is left once the frames of `victim` are gone from the front.
  pub drop_victim : ℕ → List (EncodedFrame F) → List (EncodedFrame F)
  drop_victim victim [] = []
  drop_victim victim (f ∷ fs) =
      let rest = drop_victim victim fs in if f.frame_id == victim then rest else f ∷ fs

  -- The outer loop, on fuel. Every round takes the first frame at least.
  pub trim_loop : ℕ → List (EncodedFrame F) → List (EncodedFrame F)
  unfolding drop_victim
  trim_loop zero fs = fs
  trim_loop (suc fuel) [] = []
  trim_loop (suc fuel) (f ∷ fs) =
      let rest = trim_loop fuel (drop_victim f.frame_id (f ∷ fs)) in
      if ltb max_queued (length (f ∷ fs)) then rest else f ∷ fs

  pub trim : List (EncodedFrame F) → List (EncodedFrame F)
  unfolding trim_loop
  trim fs = trim_loop (length fs) fs

  pub push_frames : VideoBridge F → List (EncodedFrame F) → VideoBridge F
  push_frames b [] = b
  push_frames b (f ∷ fs) =
      let all = b.frames ++ (f ∷ fs) in
      if not b.wanted.active then b else record b {
        frames = trim all;
        frames_queued = b.frames_queued + length (f ∷ fs);
        frames_dropped = b.frames_dropped + (length all - length (trim all));
      }
