-- ===== src/Intake/Bounded.antt =====
-- The bound of the queue of answers in video_intake.cpp.
use wivrn_nx_windows.Base.{
  ℕ, ◌+◌, ◌≤◌, inl, inr, true, false, List, [], ◌∷◌, arith, length, length-append, Option-cases,
  List-cases,
}
use wivrn_nx_windows.VideoBridge.{VideoBridge}
use wivrn_nx_windows.Staging.{StagingConfig}
use wivrn_nx_windows.Intake.{
  FrameReady, FrameDone, Intake, max_done, done_dropped, done_encoded, push_done, on_staging_config,
  on_frame_ready, pop_done, drop_stale, pop_front, refuse, Encoder, wake, drop_encoder,
  take_pending, encode_begin, encode_finish, tear_down,
}
use wivrn_nx_windows.Intake.Rounds.{
  Thread, idle, tearing, taken, working, finishing, System, Event, ready, configured, polled,
  changed, turn, advance, step, run,
}
use wivrn_nx_windows.Intake.Conserved.{encode_work_lem}

module _ {F E : Type 0} where
  module _ (encoder : Encoder F E) where
    push_done_bounded :
        (s : Intake F E) (i j k : ℕ)
        → length s.done ≤ max_done
        → length (push_done s i j k).done ≤ max_done
    unfolding push_done pop_front
    push_done_bounded s i j k h =
        let one : FrameDone = record { frame_id = i; staging_index = j; flags = k } in
        elim (List-cases s.done) [
          | inl e ↦ ground (arith, length-append s.done (one ∷ []))
          | inr (d, ds, e) ↦
              ground (arith, length-append s.done (one ∷ []), length-append ds (one ∷ []))
        ]

    refuse_bounded :
        (s : Intake F E) (f : FrameReady F)
        → length s.done ≤ max_done
        → length (refuse s f).done ≤ max_done
    unfolding refuse
    refuse_bounded s f h =
        ground (arith, push_done_bounded s f.frame_id f.staging_index done_dropped h)

    on_frame_ready_bounded :
        (s : Intake F E) (b : VideoBridge F) (f : FrameReady F)
        → length s.done ≤ max_done
        → length (on_frame_ready s b f).done ≤ max_done
    unfolding on_frame_ready
    on_frame_ready_bounded s b f h =
        let s1 = record s { frames_seen = s.frames_seen + 1 } in
        elim (Option-cases s.pending) [
          | inl e ↦ ground (arith, refuse_bounded s1 f h)
          | inr (p, e) ↦ ground (arith, refuse_bounded s1 f h, refuse_bounded s1 p h)
        ]

    on_staging_config_bounded :
        (s : Intake F E) (c : StagingConfig)
        → length s.done ≤ max_done
        → length (on_staging_config s c).done ≤ max_done
    unfolding on_staging_config drop_stale
    on_staging_config_bounded s c h = elim (Option-cases s.pending) [
      | inl e ↦ ground arith
      | inr (p, e) ↦ ground (arith, push_done_bounded s p.frame_id p.staging_index done_dropped h)
    ]

    pop_done_bounded :
        (s : Intake F E) → length s.done ≤ max_done → length (pop_done s).0.done ≤ max_done
    unfolding pop_done
    pop_done_bounded s h = ground arith

    advance_bounded :
        (s : Intake F E) (b : VideoBridge F) (t : Thread F)
        → length s.done ≤ max_done
        → length (advance encoder s b t).0.done ≤ max_done
    unfolding advance wake drop_encoder tear_down take_pending encode_begin encode_finish
    advance_bounded s b idle h = ground arith
    advance_bounded s b tearing h = ground arith
    advance_bounded s b (taken f) h =
        ground (arith, push_done_bounded s f.frame_id f.staging_index done_dropped h)
    advance_bounded s b (working f c pid) h = ground (arith, encode_work_lem encoder s b c pid f)
    advance_bounded s b (finishing f true) h =
        let s1 = record s { frames_encoded = s.frames_encoded + 1 } in
        push_done_bounded s1 f.frame_id f.staging_index done_encoded h
    advance_bounded s b (finishing f false) h =
        let s1 = record s { frames_dropped = s.frames_dropped + 1 } in
        push_done_bounded s1 f.frame_id f.staging_index done_dropped h

    step_bounded :
        (m : System F E) (e : Event F)
        → length m.intake.done ≤ max_done
        → length (step encoder m e).intake.done ≤ max_done
    unfolding step
    step_bounded m (ready f) h = on_frame_ready_bounded m.intake m.bridge f h
    step_bounded m (configured c) h = on_staging_config_bounded m.intake c h
    step_bounded m polled h = pop_done_bounded m.intake h
    step_bounded m (changed b) h = h
    step_bounded m turn h = advance_bounded m.intake m.bridge m.thread h

    -- A queue of at most 8 answers stays one, whatever the two threads do.
    pub answers_bounded :
        (m : System F E) (es : List (Event F))
        → length m.intake.done ≤ max_done
        → length (run encoder m es).intake.done ≤ max_done
    unfolding run
    answers_bounded m [] h = h
    answers_bounded m (e ∷ es) h = answers_bounded (step encoder m e) es (step_bounded m e h)
