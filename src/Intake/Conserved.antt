-- ===== src/Intake/Conserved.antt =====
-- Conservation of frames and the bound of the answers in video_intake.cpp.
use wivrn_nx_windows.Base.{ℕ, ◌+◌, ◌<◌, ◌≡◌, Bool, true, false, some, List, [], ◌∷◌, arith, length}
use wivrn_nx_windows.VideoBridge.{VideoBridge, VideoRequest}
use wivrn_nx_windows.Staging.{StagingConfig}
use wivrn_nx_windows.Intake.{
  FrameReady, Intake, max_done, done_dropped, Encoder, wake, drop_encoder, take_pending,
  ensure_encoder, encode_begin, encode_with, encode_work, encode_finish, tear_down,
}
use wivrn_nx_windows.Intake.Answers.{
  waits, held, push_done_lem, held-on_frame_ready, held-on_staging_config, held-pop_done,
}
use wivrn_nx_windows.Intake.Rounds.{
  Thread, idle, tearing, taken, working, finishing, System, Event, ready, configured, polled,
  changed, turn, offered, in_hand, tracked, advance, step, run, HasRoom,
}

offered-cons :
    {F : Type 0} (x : ℕ) (e : Event F) (es : List (Event F))
    → offered x (e ∷ es) ≡ offered x (e ∷ []) + offered x es
offered-cons x (ready f) es = omega arith
offered-cons x (configured c) es = omega arith
offered-cons x polled es = omega arith
offered-cons x (changed b) es = omega arith
offered-cons x turn es = omega arith

module _ {F E : Type 0} where
  module _ (encoder : Encoder F E) where
    encode_with_lem :
        (s : Intake F E) (bridge : VideoBridge F) (r : VideoRequest F) (f : FrameReady F)
        → ((encode_with encoder s bridge r f).0.done ≡ s.done)
          × ((encode_with encoder s bridge r f).0.pending ≡ s.pending)
    unfolding encode_with tear_down
    encode_with_lem s bridge r f = ground arith

    ensure_encoder_lem :
        (s : Intake F E) (bridge : VideoBridge F) (config : StagingConfig) (pid : ℕ)
        (r : VideoRequest F)
        → ((ensure_encoder encoder s bridge config pid r).0.done ≡ s.done)
          × ((ensure_encoder encoder s bridge config pid r).0.pending ≡ s.pending)
    unfolding ensure_encoder tear_down
    ensure_encoder_lem s bridge config pid r = ground arith

    pub encode_work_lem :
        (s : Intake F E) (bridge : VideoBridge F) (config : StagingConfig) (pid : ℕ)
        (f : FrameReady F)
        → ((encode_work encoder s bridge config pid f).0.done ≡ s.done)
          × ((encode_work encoder s bridge config pid f).0.pending ≡ s.pending)
    unfolding encode_work
    encode_work_lem s bridge config pid f =
        let (s1, bridge1) = ensure_encoder encoder s bridge config pid bridge.wanted in
        ground (
          arith,
          ensure_encoder_lem s bridge config pid bridge.wanted,
          encode_with_lem s1 bridge1 bridge.wanted f,
        )

    encode_begin_lem :
        (s : Intake F E) (b : VideoBridge F) (f : FrameReady F) (x : ℕ)
        → length s.done < max_done
        → let (s', b', t) = advance encoder s b (taken f) in
          held x s' + in_hand x t ≡ held x s + waits x (some f)
    unfolding advance encode_begin
    encode_begin_lem s b f x h =
        ground (arith, push_done_lem s f.frame_id f.staging_index done_dropped x h)

    encode_finish_lem :
        (s : Intake F E) (f : FrameReady F) (encoded : Bool) (x : ℕ)
        → length s.done < max_done
        → held x (encode_finish encoder s f encoded) ≡ held x s + waits x (some f)
    unfolding encode_finish
    encode_finish_lem s f true x h =
        let s1 = record s { frames_encoded = s.frames_encoded + 1 } in
        ground (arith, push_done_lem s1 f.frame_id f.staging_index 0 x h)
    encode_finish_lem s f false x h =
        let s1 = record s { frames_dropped = s.frames_dropped + 1 } in
        ground (arith, push_done_lem s1 f.frame_id f.staging_index done_dropped x h)

    advance-idle :
        (s : Intake F E) (b : VideoBridge F) (x : ℕ)
        → let (s', b', t') = advance encoder s b idle in held x s' + in_hand x t' ≡ held x s
    unfolding advance wake take_pending
    advance-idle s b x = ground arith

    advance_tearing :
        (s : Intake F E) (b : VideoBridge F) (x : ℕ)
        → let (s', b', t') = advance encoder s b tearing in held x s' + in_hand x t' ≡ held x s
    unfolding advance drop_encoder tear_down take_pending
    advance_tearing s b x = ground arith

    advance_working :
        (s : Intake F E) (b : VideoBridge F) (f : FrameReady F) (c : StagingConfig) (pid x : ℕ)
        → let (s', b', t') = advance encoder s b (working f c pid) in
          held x s' + in_hand x t' ≡ held x s + waits x (some f)
    unfolding advance
    advance_working s b f c pid x = ground (arith, encode_work_lem s b c pid f)

    advance_finishing :
        (s : Intake F E) (b : VideoBridge F) (f : FrameReady F) (encoded : Bool) (x : ℕ)
        → length s.done < max_done
        → let (s', b', t') = advance encoder s b (finishing f encoded) in
          held x s' + in_hand x t' ≡ held x s + waits x (some f)
    unfolding advance
    advance_finishing s b f encoded x h = ground (arith, encode_finish_lem s f encoded x h)

    advance_lem :
        (s : Intake F E) (b : VideoBridge F) (t : Thread F) (x : ℕ)
        → length s.done < max_done
        → let (s', b', t') = advance encoder s b t in
          held x s' + in_hand x t' ≡ held x s + in_hand x t
    advance_lem s b idle x h = ground (arith, advance-idle s b x)
    advance_lem s b tearing x h = ground (arith, advance_tearing s b x)
    advance_lem s b (taken f) x h = encode_begin_lem s b f x h
    advance_lem s b (working f config pid) x h = advance_working s b f config pid x
    advance_lem s b (finishing f encoded) x h = advance_finishing s b f encoded x h

    tracked-step :
        (m : System F E) (e : Event F) (x : ℕ)
        → length m.intake.done < max_done
        → tracked x (step encoder m e) ≡ tracked x m + offered x (e ∷ [])
    unfolding step
    tracked-step m (ready f) x h = ground (arith, held-on_frame_ready m.intake m.bridge f x h)
    tracked-step m (configured c) x h = ground (arith, held-on_staging_config m.intake c x h)
    tracked-step m polled x h = ground (arith, held-pop_done m.intake x)
    tracked-step m (changed b) x h = omega arith
    tracked-step m turn x h = ground (arith, advance_lem m.intake m.bridge m.thread x h)

    -- However the two threads interleave, as long as the shim leaves room in the queue of answers
    -- and stays connected, what the system holds of a frame, its answers included, is what it held
    -- plus the times the shim offered it: no offered frame is lost or answered twice.
    pub tracked-run :
        (m : System F E) (es : List (Event F)) (x : ℕ)
        → HasRoom encoder m es
        → tracked x (run encoder m es) ≡ tracked x m + offered x es
    unfolding run
    tracked-run m [] x h = omega arith
    tracked-run m (e ∷ es) x h = ground (
      arith,
      tracked-step m e x h.0,
      tracked-run (step encoder m e) es x h.1,
      offered-cons x e es,
    )
