-- ===== src/Intake/Turns.antt =====
-- The turns of the encoder thread and `encode_one` of video_intake.cpp.
use wivrn_nx_windows.Base.{ℕ, ◌≡◌, refl, some, [], ◌∷◌}
use wivrn_nx_windows.VideoBridge.{VideoBridge}
use wivrn_nx_windows.Staging.{StagingConfig}
use wivrn_nx_windows.Intake.{
  FrameReady, Intake, Encoder, encode_begin, encode_work, encode_finish, encode_one,
}
use wivrn_nx_windows.Intake.Rounds.{idle, taken, working, System, turn, advance, step, run}

module _ {F E : Type 0} where
  module _ (encoder : Encoder F E) where
    encode_begin-some :
        (s : Intake F E) (f : FrameReady F) (c : StagingConfig)
        → s.staging ≡ some c
        → encode_begin encoder s f ≡ (s, some (c, s.vrserver_pid))
    unfolding encode_begin
    encode_begin-some s f c h = rw h refl

    advance_taken :
        (s : Intake F E) (b : VideoBridge F) (f : FrameReady F) (c : StagingConfig)
        → s.staging ≡ some c
        → advance encoder s b (taken f) ≡ (s, b, working f c s.vrserver_pid)
    unfolding advance
    advance_taken s b f c h = rw (encode_begin-some s f c h) refl

    encode_one-some :
        (s : Intake F E) (b : VideoBridge F) (f : FrameReady F) (c : StagingConfig)
        → s.staging ≡ some c
        → let (s2, b2, encoded) = encode_work encoder s b c s.vrserver_pid f in
          encode_one encoder s b f ≡ (encode_finish encoder s2 f encoded, b2)
    unfolding encode_one
    encode_one-some s b f c h =
        rw (encode_begin-some s f c h, encode_one) (rw (encode_begin-some s f c h) refl)

    advance_rest :
        (s : Intake F E) (b : VideoBridge F) (f : FrameReady F) (c : StagingConfig) (pid : ℕ)
        → let (s1, b1, t1) = advance encoder s b (working f c pid) in
          let (s2, b2, encoded) = encode_work encoder s b c pid f in
          advance encoder s1 b1 t1 ≡ (encode_finish encoder s2 f encoded, b2, idle)
    unfolding advance
    advance_rest s b f c pid = refl

    -- Three turns of the encoder thread from a frame that it took, the ring being known, are one
    -- call of `encode_one`; they leave the thread idle.
    pub turns-encode_one :
        (m : System F E) (f : FrameReady F) (c : StagingConfig)
        → m.thread ≡ taken f
        → m.intake.staging ≡ some c
        → let m' = run encoder m (turn ∷ turn ∷ turn ∷ []) in
          (m'.intake ≡ (encode_one encoder m.intake m.bridge f).0)
          × (m'.bridge ≡ (encode_one encoder m.intake m.bridge f).1)
          × (m'.thread ≡ idle)
    unfolding run step
    turns-encode_one m f c t h =
        rw
          (
            t,
            advance_taken m.intake m.bridge f c h,
            advance_rest m.intake m.bridge f c m.intake.vrserver_pid,
            encode_one-some m.intake m.bridge f c h,
          )
          (refl, refl, refl)
