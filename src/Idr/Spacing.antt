-- ===== src/Idr/Spacing.antt =====
-- How often a recovery IDR of idr_tracker.h may be granted.
use wivrn_nx_windows.Base.{
  ℕ, ◌+◌, ◌≤◌, ◌<◌, ◌≡◌, refl, ◌⊎◌, Bool, true, false, List, [], ◌∷◌, arith, All,
}
use wivrn_nx_windows.Idr.{
  IdrTracker, Feedback, min_recovery_interval, on_frame_sent, request, on_feedback, poll,
}
use wivrn_nx_windows.Idr.Run.{Event, sent, feedback, polled, restarted, step, time, grants}

-- The clock has left its epoch, and the call does not start the tracker over.
abbrev pub IsStamped : Event → Type 0
IsStamped (sent i idr) = Unit {0}
IsStamped (feedback f now) = 0 < now
IsStamped (polled now) = 0 < now
IsStamped restarted = ⊥

-- No two neighbours are closer than the floor.
abbrev pub Spaced : List ℕ → Type 0
Spaced [] = Unit {0}
Spaced (g ∷ []) = Unit {0}
Spaced (g ∷ h ∷ gs) = (g + min_recovery_interval ≤ h) × Spaced (h ∷ gs)

-- The same of a list that follows a grant at `last`, where 0 says that there was none.
abbrev SpacedFrom : ℕ → List ℕ → Type 0
SpacedFrom last [] = Unit {0}
SpacedFrom last (g ∷ gs) =
    ((last ≡ 0) ⊎ (last + min_recovery_interval ≤ g)) × (0 < g) × SpacedFrom g gs

-- What one call does to the time of the last grant.
Granted : IdrTracker → ℕ → IdrTracker × Bool → Type 0
Granted t now (u, true) =
    ((t.last_request ≡ 0) ⊎ (t.last_request + min_recovery_interval ≤ now)) × (u.last_request ≡ now)
Granted t now (u, false) = u.last_request ≡ t.last_request

request-Granted : (t : IdrTracker) (now : ℕ) → Granted t now (request t now)
unfolding request Granted
request-Granted t now = ground arith

on_feedback-Granted :
    (t : IdrTracker) (f : Feedback) (now : ℕ) → Granted t now (on_feedback t f now)
unfolding on_feedback Granted
on_feedback-Granted t f now = ground arith

poll-Granted : (t : IdrTracker) (now : ℕ) → Granted t now (poll t now)
unfolding poll Granted
poll-Granted t now = ground arith

step-Granted : (t : IdrTracker) (e : Event) → IsStamped e → Granted t (time e) (step t e)
unfolding step Granted on_frame_sent
step-Granted t (sent i true) h = refl
step-Granted t (sent i false) h = ground arith
step-Granted t (feedback f now) h = on_feedback-Granted t f now
step-Granted t (polled now) h = poll-Granted t now
step-Granted t restarted h = absurd h

grant_stamped : (t : IdrTracker) (e : Event) → IsStamped e → (step t e).1 ≡ true → 0 < time e
unfolding step
grant_stamped t (sent i idr) h g = cc
grant_stamped t (feedback f now) h g = h
grant_stamped t (polled now) h g = h
grant_stamped t restarted h g = absurd h

grants-SpacedFrom :
    (t : IdrTracker) (es : List Event) → All IsStamped es → SpacedFrom t.last_request (grants t es)
unfolding grants Granted
grants-SpacedFrom t [] h = tt
grants-SpacedFrom t (e ∷ es) h =
    ground
      (arith, step-Granted t e h.0, grant_stamped t e h.0, grants-SpacedFrom (step t e).0 es h.1)

Spaced-SpacedFrom : (last : ℕ) (gs : List ℕ) → SpacedFrom last gs → Spaced gs
Spaced-SpacedFrom last [] h = tt
Spaced-SpacedFrom last (g ∷ []) h = tt
Spaced-SpacedFrom last (g ∷ k ∷ gs) h = ground (arith, Spaced-SpacedFrom g (k ∷ gs) h.2)

-- Between two resets, over any sequence of calls made after the epoch of the clock, from any state of the tracker, two
-- recovery IDRs are granted at least 500 ms apart, whatever the order of their times.
pub grants-Spaced : (t : IdrTracker) (es : List Event) → All IsStamped es → Spaced (grants t es)
grants-Spaced t es h = Spaced-SpacedFrom t.last_request (grants t es) (grants-SpacedFrom t es h)
