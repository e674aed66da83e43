-- ===== src/Intake.antt =====
-- helper/src/video_intake.h and video_intake.cpp: frames from the shim to the encoder and back.
--
-- A part that holds the lock is one function on the state; `encode_one` is its two locked parts
-- around the work of the encoder thread, and a round of `run` is `wake`, `drop_encoder` and
-- `take_pending`. The encoder is the interface `IVideoEncoder` over a state
-- `E`; `has_encoder` says whether there is one. A `float` is a value of a type `F`. Threads, the
-- condition variable and the log lines are left out; generations and counters do not wrap.
pub mod Answers
pub mod Rounds
pub mod Conserved
pub mod Bounded
pub mod Turns
pub mod Current
pub mod Obeyed
mod Tests
use wivrn_nx_windows.Base.{
  ℕ, suc, ◌+◌, ◌≤◌, Bool, true, false, ◌&&◌, ◌||◌, not, ltb, leb, ◌==◌, if◌then◌else◌, Option, none,
  some, List, [], ◌∷◌, ◌++◌, length,
}
use wivrn_nx_windows.VideoBridge.{
  VideoCodec, h265, EncoderStreamInfo, EncodedFrame, VideoRequest, VideoBridge, publish_stream,
  push_frames,
}
use wivrn_nx_windows.Staging.{StagingConfig}

pub record FrameReady (F : Type 0) : Type 0 where
  pub frame_id : ℕ
  pub sample_time_qpc : ℕ
  pub generation : ℕ
  pub staging_index : ℕ
  pub pose : List F
  pub predict_s : F

pub record FrameDone : Type 0 where
  pub frame_id : ℕ
  pub staging_index : ℕ
  pub flags : ℕ

pub record EncoderConfig (F : Type 0) : Type 0 where
  pub refresh_hz : F
  pub bitrate_bps : ℕ
  pub allow_h265 : Bool
  pub allow_h264 : Bool

pub data EncodeResult : Type 0 where
  ok dropped fatal : EncodeResult

-- `IVideoEncoder`, on a state `E`.
pub record Encoder (F E : Type 0) : Type 0 where
  pub configure : E → StagingConfig → ℕ → EncoderConfig F → E × Bool
  pub shutdown : E → E
  pub set_bitrate : E → ℕ → E
  pub stream_info : E → EncoderStreamInfo
  pub encode : E → FrameReady F → Bool → E × EncodeResult × List (EncodedFrame F)

pub record Intake (F E : Type 0) : Type 0 where
  pub has_encoder : Bool
  pub encoder : E
  pub stop : Bool
  pub vrserver_pid : ℕ
  pub staging : Option StagingConfig
  pub staging_changed : Bool
  pub pending : Option (FrameReady F)
  pub done : List FrameDone
  pub encoder_ready : Bool
  pub encoder_generation : ℕ
  pub encoder_config_generation : ℕ
  pub idr_seen : ℕ
  pub bitrate_seen : ℕ
  pub frames_seen : ℕ
  pub frames_encoded : ℕ
  pub frames_dropped : ℕ

-- `ipc::FrameDone::flags`
abbrev pub done_encoded : ℕ
done_encoded = 0

abbrev pub done_dropped : ℕ
done_dropped = 1

abbrev pub max_done : ℕ
max_done = 8

-- The value-initialised `EncoderStreamInfo{}`.
abbrev pub no_info : EncoderStreamInfo
no_info = record { width = 0; height = 0; codec = h265 }

pub pop_front : List FrameDone → List FrameDone
pop_front [] = []
pop_front (d ∷ ds) = ds

-- The frame refers to a slot of the ring that the intake knows.
pub refers : {F : Type 0} → Option StagingConfig → FrameReady F → Bool
refers none f = false
refers (some c) f = f.generation == c.generation && ltb f.staging_index c.count

module _ {F E : Type 0} where
  pub push_done : Intake F E → ℕ → ℕ → ℕ → Intake F E
  unfolding pop_front
  push_done s frame_id staging_index flags =
      let kept = if leb max_done (length s.done) then pop_front s.done else s.done in
      let one : FrameDone = record {
        frame_id = frame_id;
        staging_index = staging_index;
        flags = flags;
      } in
      record s { done = kept ++ (one ∷ []) }

  pub set_vrserver_pid : Intake F E → ℕ → Intake F E
  set_vrserver_pid s pid = record s { vrserver_pid = pid }

  -- The frame that waits is answered as dropped if it is not of this generation.
  pub drop_stale : Intake F E → ℕ → Intake F E
  drop_stale s generation = elim s.pending [
    | none ↦ s
    | some p ↦
        if p.generation == generation
        then s
        else record (push_done s p.frame_id p.staging_index done_dropped) { pending = none }
  ]

  pub on_staging_config : Intake F E → StagingConfig → Intake F E
  unfolding drop_stale
  on_staging_config s config = record (drop_stale s config.generation) {
    staging = some config;
    staging_changed = true;
  }

  pub refuse : Intake F E → FrameReady F → Intake F E
  refuse s f =
      let s' = push_done s f.frame_id f.staging_index done_dropped in
      record s' { frames_dropped = s'.frames_dropped + 1 }

  pub on_frame_ready : Intake F E → VideoBridge F → FrameReady F → Intake F E
  unfolding refers
  on_frame_ready s bridge frame =
      let s1 = record s { frames_seen = s.frames_seen + 1 } in
      let displaced : Intake F E = elim s1.pending [ none ↦ s1 | some p ↦ refuse s1 p ] in
      if not (refers s1.staging frame)
      then refuse s1 frame
      else if not s1.has_encoder || not bridge.wanted.active
      then refuse s1 frame
      else record displaced { pending = some frame }

  pub on_shim_gone : Intake F E → Intake F E
  on_shim_gone s = record s { staging = none; staging_changed = true; pending = none; done = [] }

  unfoldable pub pop_done : Intake F E → Intake F E × Option FrameDone
  pop_done s = elim s.done [ [] ↦ (s, none) | d ∷ ds ↦ (record s { done = ds }, some d) ]

  module _ (encoder : Encoder F E) where
    -- The encoder is torn down when the ring it reads from is gone.
    pub tear_down : Intake F E → VideoBridge F → Intake F E × VideoBridge F
    tear_down s bridge = (
      record s { encoder = encoder.shutdown s.encoder; encoder_ready = false },
      publish_stream bridge no_info false,
    )

    -- One round of `run`, awake, up to where it gives up the lock to tear the encoder down: whether
    -- it does.
    pub wake : Intake F E → Intake F E × Bool
    wake s = (
      record s { staging_changed = false },
      s.staging_changed && (s.has_encoder && s.encoder_ready),
    )

    pub drop_encoder : Intake F E → VideoBridge F → Intake F E × VideoBridge F
    unfolding tear_down
    drop_encoder s bridge =
        let (s1, bridge1) = tear_down s bridge in (record s1 { encoder_generation = 0 }, bridge1)

    -- The rest of the round: the frame to encode, if there is one.
    pub take_pending : Intake F E → Intake F E × Option (FrameReady F)
    take_pending s = (record s { pending = none }, s.pending)

    pub ensure_encoder :
        Intake F E → VideoBridge F → StagingConfig → ℕ → VideoRequest F → Intake F E × VideoBridge F
    unfolding tear_down
    ensure_encoder s bridge config vrserver_pid request =
        let cfg : EncoderConfig F = record {
          refresh_hz = request.refresh_hz;
          bitrate_bps = request.bitrate_bps;
          allow_h265 = request.allow_h265;
          allow_h264 = request.allow_h264;
        } in
        let (s1, bridge1) = if s.encoder_ready then tear_down s bridge else (s, bridge) in
        let (e, configured) = encoder.configure s1.encoder config vrserver_pid cfg in
        let s2 = record s1 {
          encoder = e;
          encoder_generation = config.generation;
          encoder_config_generation = request.config_generation;
        } in
        if s.encoder_ready
          && s.encoder_generation == config.generation
          && s.encoder_config_generation == request.config_generation
        then (s, bridge)
        else if not configured
        then (s2, bridge1)
        else (
          record s2 {
            encoder_ready = true;
            idr_seen = 0;
            bitrate_seen = request.bitrate_generation;
          },
          publish_stream bridge1 (encoder.stream_info e) true,
        )

    -- The first locked part of `encode_one`: the configuration to encode with.
    pub encode_begin : Intake F E → FrameReady F → Intake F E × Option (StagingConfig × ℕ)
    encode_begin s frame = elim s.staging [
      | none ↦ (push_done s frame.frame_id frame.staging_index done_dropped, none)
      | some config ↦ (s, some (config, s.vrserver_pid))
    ]

    -- The call of the encoder and what follows it, up to the last locked part; whether the frame
    -- was encoded.
    pub encode_with :
        Intake F E
        → VideoBridge F
        → VideoRequest F
        → FrameReady F
        → Intake F E × VideoBridge F × Bool
    unfolding tear_down
    encode_with s bridge request frame =
        let s1 = if request.bitrate_generation == s.bitrate_seen then s else record s {
          bitrate_seen = request.bitrate_generation;
          encoder = encoder.set_bitrate s.encoder request.bitrate_bps;
        } in
        let force_idr = not (request.idr_generation == s1.idr_seen) in
        let (e, result, encoded) = encoder.encode s1.encoder frame force_idr in
        let s2 = record s1 { encoder = e } in
        elim result [
          | ok ↦ (
            record s2 { idr_seen = if force_idr then request.idr_generation else s2.idr_seen },
            push_frames bridge encoded,
            true,
          )
          | dropped ↦ (s2, bridge, false)
          | fatal ↦ let (s3, bridge3) = tear_down s2 bridge in (s3, bridge3, false)
        ]

    -- All that `encode_one` does between its locked parts.
    pub encode_work :
        Intake F E
        → VideoBridge F
        → StagingConfig
        → ℕ
        → FrameReady F
        → Intake F E × VideoBridge F × Bool
    encode_work s bridge config pid frame =
        let request = bridge.wanted in
        let (s1, bridge1) = ensure_encoder s bridge config pid request in
        if not request.active
        then (s, bridge, false)
        else if not s1.encoder_ready
        then (s1, bridge1, false)
        else encode_with s1 bridge1 request frame

    -- The last locked part: the counters, and the answer to the shim.
    pub encode_finish : Intake F E → FrameReady F → Bool → Intake F E
    encode_finish s frame true =
        push_done (record s { frames_encoded = s.frames_encoded + 1 }) frame.frame_id
          frame.staging_index done_encoded
    encode_finish s frame false =
        push_done (record s { frames_dropped = s.frames_dropped + 1 }) frame.frame_id
          frame.staging_index done_dropped

    pub encode_one : Intake F E → VideoBridge F → FrameReady F → Intake F E × VideoBridge F
    encode_one s bridge frame =
        let (s1, found) = encode_begin s frame in
        elim found [
          | none ↦ (s1, bridge)
          | some (config, pid) ↦
              let (s2, bridge2, done) = encode_work s1 bridge config pid frame in
              (encode_finish s2 frame done, bridge2)
        ]
