-- ===== src/Idr/Recovery.antt =====
-- A lost frame of idr_tracker.h is answered by one recovery IDR, and by no more than one.
use wivrn_nx_windows.Base.{
  ℕ, ◌+◌, ◌≤◌, ◌≡◌, refl, ◌⊎◌, inl, inr, true, false, List, [], ◌∷◌, ◌++◌, arith, All, length,
  Bool-cases,
}
use wivrn_nx_windows.Idr.{
  IdrTracker, need_idr, wait_idr_feedback, running, Feedback, reset, min_recovery_interval,
  on_frame_sent, request, on_feedback, poll,
}
use wivrn_nx_windows.Idr.Run.{Event, sent, feedback, polled, restarted, step, grants, run}

-- The call puts no key frame on the wire and does not start the tracker over.
abbrev pub NoKeyFrame : Event → Type 0
NoKeyFrame (sent i idr) = idr ≡ false
NoKeyFrame (feedback f now) = Unit {0}
NoKeyFrame (polled now) = Unit {0}
NoKeyFrame restarted = ⊥

-- The feedback reports a loss that the tracker has to answer.
abbrev pub IsLoss : IdrTracker → Feedback → Type 0
IsLoss t f =
    (f.sent_to_decoder ≡ false)
    × (((t.state ≡ wait_idr_feedback) × (f.frame_index ≡ t.idr_id))
        ⊎ ((t.state ≡ running) × (t.first_p ≤ f.frame_index)))

-- A request was granted, and nothing more is owed until its key frame goes out.
abbrev IsQuiet : IdrTracker → Type 0
IsQuiet t = (t.state ≡ need_idr) × (t.pending ≡ false)

-- A request is held since the grant at `last`.
abbrev IsOwed : ℕ → IdrTracker → Type 0
IsOwed last t = (t.state ≡ need_idr) × (t.pending ≡ true) × (t.last_request ≡ last)

step-IsQuiet :
    (t : IdrTracker) (e : Event)
    → NoKeyFrame e
    → IsQuiet t
    → (step t e).1 ≡ false × IsQuiet (step t e).0
unfolding step on_frame_sent on_feedback poll
step-IsQuiet t (sent i true) h q = cc
step-IsQuiet t (sent i false) h q = ground arith
step-IsQuiet t (feedback f now) h q = ground arith
step-IsQuiet t (polled now) h q = ground arith
step-IsQuiet t restarted h q = absurd h

grants_quiet : (t : IdrTracker) (es : List Event) → All NoKeyFrame es → IsQuiet t → grants t es ≡ []
unfolding grants
grants_quiet t [] h q = refl
grants_quiet t (e ∷ es) h q =
    ground (arith, step-IsQuiet t e h.0 q, grants_quiet (step t e).0 es h.1)

-- A held request stays held or is granted.
step-IsOwed :
    (last : ℕ) (t : IdrTracker) (e : Event)
    → NoKeyFrame e
    → IsOwed last t
    → (((step t e).1 ≡ false) × IsOwed last (step t e).0)
      ⊎ (((step t e).1 ≡ true) × IsQuiet (step t e).0)
unfolding step on_frame_sent on_feedback poll
step-IsOwed last t (sent i true) h q = cc
step-IsOwed last t (sent i false) h q = ground arith
step-IsOwed last t (feedback f now) h q = ground arith
step-IsOwed last t (polled now) h q = ground arith
step-IsOwed last t restarted h q = absurd h

poll_due :
    (last t' : ℕ) (t : IdrTracker)
    → IsOwed last t
    → last + min_recovery_interval ≤ t'
    → (step t (polled t')).1 ≡ true
unfolding step poll
poll_due last t' t q h = ground arith

All-snoc : (es : List Event) (t' : ℕ) → All NoKeyFrame es → All NoKeyFrame (es ++ polled t' ∷ [])
All-snoc [] t' h = (tt, tt)
All-snoc (e ∷ es) t' h = (h.0, All-snoc es t' h.1)

grants_owed :
    (last t' : ℕ) (t : IdrTracker) (es : List Event)
    → All NoKeyFrame es
    → IsOwed last t
    → last + min_recovery_interval ≤ t'
    → length (grants t (es ++ polled t' ∷ [])) ≡ 1
unfolding grants
grants_owed last t' t [] h q d = ground (arith, poll_due last t' t q d)
grants_owed last t' t (e ∷ es) h q d = elim (step-IsOwed last t e h.0 q) [
  | inl (no_grant, q') ↦ rw no_grant (grants_owed last t' (step t e).0 es h.1 q' d)
  | inr (grant, q') ↦
      rw (grant, grants_quiet (step t e).0 (es ++ polled t' ∷ []) (All-snoc es t' h.1) q')
]

on_feedback_loss :
    (t : IdrTracker) (f : Feedback) (now : ℕ)
    → IsLoss t f
    → (((on_feedback t f now).1 ≡ false) × IsOwed t.last_request (on_feedback t f now).0)
      ⊎ (((on_feedback t f now).1 ≡ true) × IsQuiet (on_feedback t f now).0)
unfolding on_feedback request
on_feedback_loss t f now l = ground arith

step_loss :
    (t : IdrTracker) (f : Feedback) (now : ℕ)
    → IsLoss t f
    → (((step t (feedback f now)).1 ≡ false) × IsOwed t.last_request (step t (feedback f now)).0)
      ⊎ (((step t (feedback f now)).1 ≡ true) × IsQuiet (step t (feedback f now)).0)
unfolding step
step_loss t f now l = on_feedback_loss t f now l

-- A reported loss is answered exactly once: along any calls that follow it, put no key frame on
-- the wire and do not reset the tracker, closed by a poll at least 500 ms after the last grant, one recovery IDR is granted.
pub loss_granted_once :
    (t : IdrTracker) (f : Feedback) (now t' : ℕ) (es : List Event)
    → IsLoss t f
    → All NoKeyFrame es
    → t.last_request + min_recovery_interval ≤ t'
    → length (grants t (feedback f now ∷ es ++ polled t' ∷ [])) ≡ 1
unfolding grants
loss_granted_once t f now t' es l h d = elim (step_loss t f now l) [
  | inl (held, q) ↦ rw held (grants_owed t.last_request t' (step t (feedback f now)).0 es h q d)
  | inr (grant, q) ↦
      rw (
        grant,
        grants_quiet (step t (feedback f now)).0 (es ++ polled t' ∷ []) (All-snoc es t' h) q,
      )
]

-- A request is held only while the tracker waits for a key frame.
abbrev IsConsistent : IdrTracker → Type 0
IsConsistent t = (t.state ≡ need_idr) ⊎ (t.pending ≡ false)

step-IsConsistent : (t : IdrTracker) (e : Event) → IsConsistent t → IsConsistent (step t e).0
unfolding step reset on_frame_sent on_feedback request poll
step-IsConsistent t (sent i true) c = ground arith
step-IsConsistent t (sent i false) c = ground arith
step-IsConsistent t (feedback f now) c = ground arith
step-IsConsistent t (polled now) c = ground arith
step-IsConsistent t restarted c = inr refl

run-IsConsistent : (t : IdrTracker) (es : List Event) → IsConsistent t → IsConsistent (run t es)
unfolding run
run-IsConsistent t [] c = c
run-IsConsistent t (e ∷ es) c = run-IsConsistent (step t e).0 es (step-IsConsistent t e c)

-- A grant leaves the tracker quiet.
step_grant :
    (t : IdrTracker) (e : Event) → IsConsistent t → (step t e).1 ≡ true → IsQuiet (step t e).0
unfolding step on_feedback request poll
step_grant t (sent i idr) c g = cc
step_grant t (feedback f now) c g = ground arith
step_grant t (polled now) c g = ground arith
step_grant t restarted c g = absurd (ground arith)

grants_at_most_one :
    (t : IdrTracker) (es : List Event)
    → IsConsistent t
    → All NoKeyFrame es
    → length (grants t es) ≤ 1
unfolding grants
grants_at_most_one t [] c h = omega arith
grants_at_most_one t (e ∷ es) c h = elim (Bool-cases (step t e).1) [
  | inl grant ↦ rw (grant, grants_quiet (step t e).0 es h.1 (step_grant t e c grant)) (omega arith)
  | inr no_grant ↦ rw no_grant (grants_at_most_one (step t e).0 es (step-IsConsistent t e c) h.1)
]

-- In a session that starts with a reset, any stretch of calls with no reset that puts no key frame on the wire
-- is granted at most one recovery IDR, however many losses are reported in it.
pub grants-run-reset :
    (t : IdrTracker) (before es : List Event)
    → All NoKeyFrame es
    → length (grants (run (reset t) before) es) ≤ 1
unfolding reset
grants-run-reset t before es h =
    grants_at_most_one (run (reset t) before) es (run-IsConsistent (reset t) before (inr refl)) h
