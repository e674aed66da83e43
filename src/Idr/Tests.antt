-- ===== src/Idr/Tests.antt =====
-- idr_tracker.h on concrete sessions.
use wivrn_nx_windows.Base.{ℕ, ◌≡◌, refl, true, false, List, [], ◌∷◌, ◌++◌, arith, length, inr, ◌*◌}
use wivrn_nx_windows.Idr.{IdrTracker, running, on_frame_sent, request, on_feedback, poll, reset}
use wivrn_nx_windows.Idr.Run.{Event, sent, feedback, polled, restarted, step, grants}
use wivrn_nx_windows.Idr.Spacing.{Spaced, grants-Spaced}
use wivrn_nx_windows.Idr.Recovery.{loss_granted_once}

abbrev ms : ℕ → ℕ
ms n = n * 1_000_000

abbrev lost : ℕ → ℕ → Event
lost i now = feedback (record { frame_index = i; sent_to_decoder = false }) now

-- A stream of P frames from frame 11, with the last recovery IDR granted at 1 s.
abbrev streaming : IdrTracker
streaming = record {
  state = running;
  idr_id = 10;
  first_p = 11;
  pending = false;
  last_request = ms 1000;
  damped = 0;
}

-- The loss of frame 20 is held until 1.5 s.
abbrev session : List Event
session =
    lost 20 (ms 1100)
    ∷ lost 21 (ms 1110)
    ∷ polled (ms 1200)
    ∷ polled (ms 1500)
    ∷ sent 30 true
    ∷ lost 30 (ms 1600)
    ∷ polled (ms 2000)
    ∷ []

grants-session : grants streaming session ≡ ms 1500 ∷ ms 2000 ∷ []
unfolding grants step on_frame_sent on_feedback request poll
grants-session = refl

-- A reset forgets the last grant: two follow each other at 100 ms.
floor_forgotten :
    grants streaming (lost 20 (ms 1600) ∷ restarted ∷ sent 30 true ∷ lost 30 (ms 1700) ∷ [])
    ≡ ms 1600 ∷ ms 1700 ∷ []
unfolding grants step on_frame_sent on_feedback request poll reset
floor_forgotten = refl

grants-Spaced_example : Spaced (grants streaming session)
grants-Spaced_example = grants-Spaced streaming session (omega arith)

loss_granted_once_example :
    length
      (grants streaming (lost 20 (ms 1100) ∷ (lost 21 (ms 1110) ∷ []) ++ polled (ms 1500) ∷ []))
    ≡ 1
loss_granted_once_example =
    loss_granted_once streaming (record { frame_index = 20; sent_to_decoder = false }) (ms 1100)
      (ms 1500) (lost 21 (ms 1110) ∷ []) (refl, inr (refl, omega arith)) (tt, tt) (omega arith)
