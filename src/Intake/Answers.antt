-- ===== src/Intake/Answers.antt =====
-- Every frame that the shim offers to video_intake.cpp is answered once.
use wivrn_nx_windows.Base.{
  ℕ, ◌+◌, ◌<◌, ◌≡◌, inl, inr, Option, none, some, List, [], ◌∷◌, ◌++◌, arith, length, length-append,
  ◌==◌, if◌then◌else◌, Option-cases,
}
use wivrn_nx_windows.VideoBridge.{VideoBridge}
use wivrn_nx_windows.Staging.{StagingConfig}
use wivrn_nx_windows.Intake.{
  FrameReady, FrameDone, Intake, max_done, done_dropped, push_done, drop_stale, on_staging_config,
  refuse, on_frame_ready, pop_done,
}

-- How many of the answers are for the frame `x`.
abbrev pub answers : ℕ → List FrameDone → ℕ
answers x [] = 0
answers x (d ∷ ds) = (if d.frame_id == x then 1 else 0) + answers x ds

abbrev pub waits : {F : Type 0} → ℕ → Option (FrameReady F) → ℕ
waits x none = 0
waits x (some f) = if f.frame_id == x then 1 else 0

pub answers-append :
    (x : ℕ) (ds es : List FrameDone) → answers x (ds ++ es) ≡ answers x ds + answers x es
answers-append x [] es = omega arith
answers-append x (d ∷ ds) es = omega (arith, answers-append x ds es)

module _ {F E : Type 0} where
  -- What the intake holds of the frame `x`: waiting, or answered and not yet sent.
  abbrev pub held : ℕ → Intake F E → ℕ
  held x s = waits x s.pending + answers x s.done

  pub push_done_lem :
      (s : Intake F E) (i j k x : ℕ)
      → length s.done < max_done
      → (answers x (push_done s i j k).done ≡ answers x s.done + (if i == x then 1 else 0))
        × (length (push_done s i j k).done ≡ length s.done + 1)
        × ((push_done s i j k).pending ≡ s.pending)
  unfolding push_done
  push_done_lem s i j k x h =
      let one : FrameDone = record { frame_id = i; staging_index = j; flags = k } in
      ground (arith, answers-append x s.done (one ∷ []), length-append s.done (one ∷ []))

  refuse_lem :
      (s : Intake F E) (f : FrameReady F) (x : ℕ)
      → length s.done < max_done
      → (answers x (refuse s f).done ≡ answers x s.done + waits x (some f))
        × ((refuse s f).pending ≡ s.pending)
  unfolding refuse
  refuse_lem s f x h = ground (arith, push_done_lem s f.frame_id f.staging_index done_dropped x h)

  pub held-on_frame_ready :
      (s : Intake F E) (bridge : VideoBridge F) (f : FrameReady F) (x : ℕ)
      → length s.done < max_done
      → held x (on_frame_ready s bridge f) ≡ held x s + waits x (some f)
  unfolding on_frame_ready
  held-on_frame_ready s bridge f x h =
      let s1 = record s { frames_seen = s.frames_seen + 1 } in
      elim (Option-cases s.pending) [
        | inl e ↦ ground (arith, refuse_lem s1 f x h)
        | inr (p, e) ↦ ground (arith, refuse_lem s1 f x h, refuse_lem s1 p x h)
      ]

  pub held-on_staging_config :
      (s : Intake F E) (c : StagingConfig) (x : ℕ)
      → length s.done < max_done
      → held x (on_staging_config s c) ≡ held x s
  unfolding on_staging_config drop_stale
  held-on_staging_config s c x h = elim (Option-cases s.pending) [
    | inl e ↦ ground arith
    | inr (p, e) ↦ ground (arith, push_done_lem s p.frame_id p.staging_index done_dropped x h)
  ]

  pub held-pop_done :
      (s : Intake F E) (x : ℕ)
      → held x s
        ≡ held x (pop_done s).0 + (elim (pop_done s).1 [ none ↦ 0 | some d ↦ answers x (d ∷ []) ])
  unfolding pop_done
  held-pop_done s x = ground arith
