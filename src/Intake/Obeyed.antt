-- ===== src/Intake/Obeyed.antt =====
-- What the encoder itself is asked for by video_intake.cpp: the bitrate it runs at and the key
-- frames that are forced on it.
use wivrn_nx_windows.Base.{
  ℕ, ◌+◌, ◌≡◌, ◌⊎◌, Bool, true, false, not, ◌&&◌, ◌==◌, if◌then◌else◌, arith,
}
use wivrn_nx_windows.VideoBridge.{VideoBridge, VideoRequest}
use wivrn_nx_windows.Staging.{StagingConfig}
use wivrn_nx_windows.Intake.{
  FrameReady, Intake, Encoder, EncoderConfig, ok, ensure_encoder, encode_with, encode_work,
  tear_down,
}
use wivrn_nx_windows.Intake.Current.{IsCurrent, asked, encode_work-IsCurrent}

-- What an encoder documents of the bitrate `rate` that it runs at and of the number `keys` of key
-- frames that were forced on it so far.
pub record Documents {F E : Type 0} (encoder : Encoder F E) (rate keys : E → ℕ) : Type 0 where
  pub configure_rate :
      (e : E) (c : StagingConfig) (pid : ℕ) (a : EncoderConfig F)
      → (encoder.configure e c pid a).1 ≡ true
      → rate (encoder.configure e c pid a).0 ≡ a.bitrate_bps
  pub configure_keys :
      (e : E) (c : StagingConfig) (pid : ℕ) (a : EncoderConfig F)
      → keys (encoder.configure e c pid a).0 ≡ keys e
  pub shutdown_keys : (e : E) → keys (encoder.shutdown e) ≡ keys e
  pub set_rate : (e : E) (n : ℕ) → rate (encoder.set_bitrate e n) ≡ n
  pub set_keys : (e : E) (n : ℕ) → keys (encoder.set_bitrate e n) ≡ keys e
  pub encode_rate : (e : E) (f : FrameReady F) (k : Bool) → rate (encoder.encode e f k).0 ≡ rate e
  pub forced :
      (e : E) (f : FrameReady F)
      → (encoder.encode e f true).1 ≡ ok
      → keys (encoder.encode e f true).0 ≡ keys e + 1
  pub unforced : (e : E) (f : FrameReady F) → keys (encoder.encode e f false).0 ≡ keys e

-- The key frames that the encoder thread has seen asked for, where the encoder stays up for this
-- ring and these codecs; of a new one none.
abbrev pub noticed : {F E : Type 0} → Intake F E → StagingConfig → VideoRequest F → ℕ
noticed s config r =
    if s.encoder_ready
      && s.encoder_generation == config.generation
      && s.encoder_config_generation == r.config_generation
    then s.idr_seen
    else 0

-- An encoder that is up and has seen the bitrate of the request runs at it.
abbrev pub InStep : {F E : Type 0} → (E → ℕ) → Intake F E → VideoRequest F → Type 0
InStep rate s r =
    s.encoder_ready ≡ true → s.bitrate_seen ≡ r.bitrate_generation → rate s.encoder ≡ r.bitrate_bps

module _ {F E : Type 0} (encoder : Encoder F E) (rate keys : E → ℕ)
    (law : Documents encoder rate keys) where
  ensure_encoder-InStep :
      (s : Intake F E) (b : VideoBridge F) (config : StagingConfig) (pid : ℕ) (r : VideoRequest F)
      → InStep rate s r
      → InStep rate (ensure_encoder encoder s b config pid r).0 r
  unfolding ensure_encoder tear_down
  ensure_encoder-InStep s b config pid r h = ground (
    arith,
    law.configure_rate s.encoder config pid (asked encoder r),
    law.configure_rate (encoder.shutdown s.encoder) config pid (asked encoder r),
  )

  ensure_encoder-noticed :
      (s : Intake F E) (b : VideoBridge F) (config : StagingConfig) (pid : ℕ) (r : VideoRequest F)
      → let s' = (ensure_encoder encoder s b config pid r).0 in
        (keys s'.encoder ≡ keys s.encoder)
        × ((s'.encoder_ready ≡ false) ⊎ (s'.idr_seen ≡ noticed s config r))
  unfolding ensure_encoder tear_down
  ensure_encoder-noticed s b config pid r = ground (
    arith,
    law.configure_keys s.encoder config pid (asked encoder r),
    law.configure_keys (encoder.shutdown s.encoder) config pid (asked encoder r),
    law.shutdown_keys s.encoder,
  )

  -- A call of the encoder on a frame that it encodes.
  encode_with-InStep :
      (s : Intake F E) (b : VideoBridge F) (r : VideoRequest F) (f : FrameReady F)
      → s.encoder_ready ≡ true
      → InStep rate s r
      → let (s', b', encoded) = encode_with encoder s b r f in
        ((s'.encoder_ready ≡ false) ⊎ (rate s'.encoder ≡ r.bitrate_bps))
        × ((encoded ≡ true) → s'.encoder_ready ≡ true)
  unfolding encode_with tear_down
  encode_with-InStep s b r f on h =
      let force_idr = not (r.idr_generation == s.idr_seen) in
      ground (
        arith,
        law.encode_rate s.encoder f force_idr,
        law.encode_rate (encoder.set_bitrate s.encoder r.bitrate_bps) f force_idr,
        law.set_rate s.encoder r.bitrate_bps,
      )

  encode_with-keys :
      (s : Intake F E) (b : VideoBridge F) (r : VideoRequest F) (f : FrameReady F)
      → let (s', b', encoded) = encode_with encoder s b r f in
        (encoded ≡ true)
        → ((r.idr_generation ≡ s.idr_seen) × (keys s'.encoder ≡ keys s.encoder))
          ⊎ (((r.idr_generation == s.idr_seen) ≡ false) × (keys s'.encoder ≡ keys s.encoder + 1))
  unfolding encode_with tear_down
  encode_with-keys s b r f h =
      let e' = encoder.set_bitrate s.encoder r.bitrate_bps in
      ground (
        arith,
        law.forced s.encoder f,
        law.forced e' f,
        law.unforced s.encoder f,
        law.unforced e' f,
        law.set_keys s.encoder r.bitrate_bps,
      )

  -- A frame that was encoded finds the encoder up, made for this ring and these codecs, and has
  -- it run at the bitrate of the request. One key frame was forced on it if one was asked for that
  -- the encoder thread had not noticed, and none else; now it has noticed them all. A frame that
  -- was not encoded leaves any key frame owed: what was noticed is as before, or 0. Either way a
  -- bitrate that the encoder thread has seen stays the one at which the encoder runs.
  pub encode_work-InStep :
      (s : Intake F E) (b : VideoBridge F) (config : StagingConfig) (pid : ℕ) (f : FrameReady F)
      → InStep rate s b.wanted
      → let r = b.wanted in
        let (s', b', encoded) = encode_work encoder s b config pid f in
        InStep rate s' r
        × (((encoded ≡ true)
              × IsCurrent encoder s' config r
              × (rate s'.encoder ≡ r.bitrate_bps)
              × (s'.idr_seen ≡ r.idr_generation)
              × (((r.idr_generation ≡ noticed s config r) × (keys s'.encoder ≡ keys s.encoder))
                  ⊎ (((r.idr_generation == noticed s config r) ≡ false)
                      × (keys s'.encoder ≡ keys s.encoder + 1))))
            ⊎ ((encoded ≡ false) × ((s'.idr_seen ≡ s.idr_seen) ⊎ (s'.idr_seen ≡ 0))))
  unfolding encode_work
  encode_work-InStep s b config pid f h =
      let r = b.wanted in
      let (s1, b1) = ensure_encoder encoder s b config pid r in
      ground (
        arith,
        encode_work-IsCurrent encoder s b config pid f,
        ensure_encoder-InStep s b config pid r h,
        ensure_encoder-noticed s b config pid r,
        encode_with-InStep s1 b1 r f,
        encode_with-keys s1 b1 r f,
      )
