-- ===== src/Idr/Run.antt =====
-- A session's calls on the tracker, in the order in which the session thread makes them: beside
-- those for a frame, a feedback and a poll, the reset when the headset is told of another stream.
use wivrn_nx_windows.Base.{ℕ, Bool, false, List, [], ◌∷◌, if◌then◌else◌}
use wivrn_nx_windows.Idr.{IdrTracker, Feedback, reset, on_frame_sent, on_feedback, poll}

pub data Event : Type 0 where
  sent : ℕ → Bool → Event
  feedback : Feedback → ℕ → Event
  polled : ℕ → Event
  restarted : Event

unfoldable pub step : IdrTracker → Event → IdrTracker × Bool
unfolding reset on_frame_sent on_feedback poll
step t (sent i idr) = (on_frame_sent t i idr, false)
step t (feedback f now) = on_feedback t f now
step t (polled now) = poll t now
step t restarted = (reset t, false)

abbrev pub time : Event → ℕ
time (sent i idr) = 0
time (feedback f now) = now
time (polled now) = now
time restarted = 0

-- The times at which a recovery IDR is granted.
unfoldable pub grants : IdrTracker → List Event → List ℕ
grants t [] = []
grants t (e ∷ es) =
    let rest = grants (step t e).0 es in if (step t e).1 then time e ∷ rest else rest

unfoldable pub run : IdrTracker → List Event → IdrTracker
run t [] = t
run t (e ∷ es) = run (step t e).0 es
