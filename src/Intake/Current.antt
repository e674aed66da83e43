-- ===== src/Intake/Current.antt =====
-- What the encoder has seen of the requests of the session after a frame, in video_intake.cpp.
use wivrn_nx_windows.Base.{
  ℕ, zero, suc, ◌≡◌, refl, ap, ◌∙◌, ◌⊎◌, true, false, arith, ◌==◌, if◌then◌else◌, not,
}
use wivrn_nx_windows.VideoBridge.{VideoBridge, VideoRequest}
use wivrn_nx_windows.VideoBridge.Stream.{valid-publish_stream, push_frames-stream}
use wivrn_nx_windows.Staging.{StagingConfig}
use wivrn_nx_windows.Intake.{
  FrameReady, Intake, Encoder, EncoderConfig, ensure_encoder, encode_with, encode_work, tear_down,
  no_info,
}

module _ {F E : Type 0} (encoder : Encoder F E) where
  -- The encoder is up, and was configured for this ring and these codecs.
  abbrev pub IsCurrent : Intake F E → StagingConfig → VideoRequest F → Type 0
  IsCurrent s config r =
      (s.encoder_ready ≡ true)
      × (s.encoder_generation ≡ config.generation)
      × (s.encoder_config_generation ≡ r.config_generation)

  -- The configuration that the session asks for.
  abbrev pub asked : VideoRequest F → EncoderConfig F
  asked r = record {
    refresh_hz = r.refresh_hz;
    bitrate_bps = r.bitrate_bps;
    allow_h265 = r.allow_h265;
    allow_h264 = r.allow_h264;
  }

  ensure_encoder-IsCurrent :
      (s : Intake F E) (b : VideoBridge F) (config : StagingConfig) (pid : ℕ) (r : VideoRequest F)
      → let s' = (ensure_encoder encoder s b config pid r).0 in
        (s'.encoder_ready ≡ false) ⊎ IsCurrent s' config r
  unfolding ensure_encoder tear_down
  ensure_encoder-IsCurrent s b config pid r = ground arith

  ensure_encoder-seen :
      (s : Intake F E) (b : VideoBridge F) (config : StagingConfig) (pid : ℕ) (r : VideoRequest F)
      → let s' = (ensure_encoder encoder s b config pid r).0 in
        (s'.idr_seen ≡ s.idr_seen) ⊎ (s'.idr_seen ≡ 0)
  unfolding ensure_encoder tear_down
  ensure_encoder-seen s b config pid r = ground arith

  ensure_encoder-IsPublished :
      (s : Intake F E) (b : VideoBridge F) (config : StagingConfig) (pid : ℕ) (r : VideoRequest F)
      → b.stream.valid ≡ s.encoder_ready
      → let (s', b') = ensure_encoder encoder s b config pid r in b'.stream.valid ≡ s'.encoder_ready
  unfolding ensure_encoder tear_down
  ensure_encoder-IsPublished s b config pid r h =
      let (s1, b1) = if s.encoder_ready then tear_down encoder s b else (s, b) in
      let (e, configured) = encoder.configure s1.encoder config pid (asked r) in
      ground (
        arith,
        valid-publish_stream b no_info false,
        valid-publish_stream b1 (encoder.stream_info e) true,
      )

  encode_with-IsPublished :
      (s : Intake F E) (b : VideoBridge F) (r : VideoRequest F) (f : FrameReady F)
      → b.stream.valid ≡ s.encoder_ready
      → let (s', b', encoded) = encode_with encoder s b r f in b'.stream.valid ≡ s'.encoder_ready
  unfolding encode_with tear_down
  encode_with-IsPublished s b r f h =
      let s1 = if r.bitrate_generation == s.bitrate_seen then s else record s {
        bitrate_seen = r.bitrate_generation;
        encoder = encoder.set_bitrate s.encoder r.bitrate_bps;
      } in
      let force_idr = not (r.idr_generation == s1.idr_seen) in
      let (e, result, encoded) = encoder.encode s1.encoder f force_idr in
      ground (arith, valid-publish_stream b no_info false, push_frames-stream b encoded)

  encode_with-IsCurrent :
      (s : Intake F E) (b : VideoBridge F) (config : StagingConfig) (r : VideoRequest F)
      (f : FrameReady F)
      → IsCurrent s config r
      → let (s', b', encoded) = encode_with encoder s b r f in
        (s'.bitrate_seen ≡ r.bitrate_generation)
        × ((encoded ≡ true) → IsCurrent s' config r × (s'.idr_seen ≡ r.idr_generation))
        × ((encoded ≡ false) → s'.idr_seen ≡ s.idr_seen)
  unfolding encode_with tear_down
  encode_with-IsCurrent s b config r f h = ground arith

  -- A frame that was encoded leaves the encoder up to date: it is up, made for this ring and these
  -- codecs, at the bitrate of the request, and it owes no key frame. A frame that was not leaves
  -- any key frame owed: what the encoder thread has seen of them is as before, or 0.
  pub encode_work-IsCurrent :
      (s : Intake F E) (b : VideoBridge F) (config : StagingConfig) (pid : ℕ) (f : FrameReady F)
      → let r = b.wanted in
        let (s', b', encoded) = encode_work encoder s b config pid f in
        ((encoded ≡ true)
          × IsCurrent s' config r
          × (s'.bitrate_seen ≡ r.bitrate_generation)
          × (s'.idr_seen ≡ r.idr_generation))
        ⊎ ((encoded ≡ false) × ((s'.idr_seen ≡ s.idr_seen) ⊎ (s'.idr_seen ≡ 0)))
  unfolding encode_work
  encode_work-IsCurrent s b config pid f =
      let r = b.wanted in
      let (s1, b1) = ensure_encoder encoder s b config pid r in
      ground (
        arith,
        ensure_encoder-IsCurrent s b config pid r,
        ensure_encoder-seen s b config pid r,
        encode_with-IsCurrent s1 b1 config r f,
      )

  -- What the session reads of the stream is valid exactly while the encoder is up.
  abbrev pub IsPublished : Intake F E → VideoBridge F → Type 0
  IsPublished s b = b.stream.valid ≡ s.encoder_ready

  -- Encoding a frame keeps the published stream valid exactly while the encoder is up, whatever
  -- the encoder does.
  pub encode_work-IsPublished :
      (s : Intake F E) (b : VideoBridge F) (config : StagingConfig) (pid : ℕ) (f : FrameReady F)
      → IsPublished s b
      → let (s', b', encoded) = encode_work encoder s b config pid f in IsPublished s' b'
  unfolding encode_work
  encode_work-IsPublished s b config pid f h =
      let (s1, b1) = ensure_encoder encoder s b config pid b.wanted in
      ground (
        arith,
        ensure_encoder-IsPublished s b config pid b.wanted h,
        encode_with-IsPublished s1 b1 b.wanted f,
      )

  -- The encoder after `n` more tries of one configuration.
  abbrev pub tries : ℕ → E → StagingConfig → ℕ → VideoRequest F → E
  tries zero e config pid r = e
  tries (suc n) e config pid r = tries n (encoder.configure e config pid (asked r)).0 config pid r

  abbrev pub frames : ℕ → Intake F E → VideoBridge F → StagingConfig → ℕ → FrameReady F → Intake F E
  frames zero s b config pid f = s
  frames (suc n) s b config pid f = frames n (encode_work encoder s b config pid f).0 b config pid f

  encode_work-refused :
      (s : Intake F E) (b : VideoBridge F) (config : StagingConfig) (pid : ℕ) (f : FrameReady F)
      → (encoder.configure s.encoder config pid (asked b.wanted)).1 ≡ false
      → s.encoder_ready ≡ false
      → b.wanted.active ≡ true
      → let s' = (encode_work encoder s b config pid f).0 in
        (s'.encoder_ready ≡ false)
        × (s'.encoder ≡ (encoder.configure s.encoder config pid (asked b.wanted)).0)
  unfolding encode_work ensure_encoder
  encode_work-refused s b config pid f refused down on = ground arith

  -- While the encoder is down and refuses a configuration, every frame of an active client tries it
  -- again, the ring and the request being as they were when it was refused first.
  pub encoder-frames :
      (n : ℕ) (s : Intake F E) (b : VideoBridge F) (config : StagingConfig) (pid : ℕ)
      (f : FrameReady F)
      → ((e : E) → (encoder.configure e config pid (asked b.wanted)).1 ≡ false)
      → s.encoder_ready ≡ false
      → b.wanted.active ≡ true
      → (frames n s b config pid f).encoder ≡ tries n s.encoder config pid b.wanted
  encoder-frames zero s b config pid f refuses down on = refl
  encoder-frames (suc n) s b config pid f refuses down on =
      let s' = (encode_work encoder s b config pid f).0 in
      let (down', e) = encode_work-refused s b config pid f (refuses s.encoder) down on in
      encoder-frames n s' b config pid f refuses down' on
      ∙ ap (λ e'. tries n e' config pid b.wanted) e
