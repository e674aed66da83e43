-- ===== src/IpcClient/Phases.antt =====
-- The order in which ipc_client.cpp fires the callbacks.
use wivrn_nx_windows.Base.{
  ℕ, ◌≡◌, ◌∙◌, refl, Bool, true, false, Option, none, some, List, [], ◌∷◌, ◌++◌, arith, either,
}
use wivrn_nx_windows.IpcClient.{
  ToHelper, Callback, on_config, on_session_ready, on_disconnect, Started, completed, in_flight,
  failed, Waited, IpcClient, Request, a_haptic, a_staging_config, a_frame_ready,
}
use wivrn_nx_windows.IpcClient.Loop.{
  queue_message, enqueue, queue, queue_all, push, push_all, wait_read, pump_read, send_message,
  send_pending,
}

-- What the driver may count on: no session, one whose configuration is known, and one that is ready.
pub data Phase : Type 0 where
  offline configured ready : Phase

module _ {F : Type 0} where
  -- The phase after a callback, if it may fire.
  unfoldable pub step : Phase → Callback F → Option Phase
  step offline (on_config c) = some configured
  step offline on_disconnect = some offline
  step offline e = none
  step configured on_session_ready = some ready
  step configured e = none
  step ready on_session_ready = none
  step ready on_disconnect = some offline
  step ready e = some ready

  unfoldable pub after : Option Phase → List (Callback F) → Option Phase
  unfolding step
  after none es = none
  after p [] = p
  after (some p) (e ∷ es) = after (step p e) es

  pub after_append :
      (p : Option Phase) (es : List (Callback F)) (e : Callback F) (q : Phase)
      → after p es ≡ some q
      → after p (es ++ (e ∷ [])) ≡ step q e
  unfolding after
  after_append none [] e q h = ground arith
  after_append none (x ∷ es) e q h = ground arith
  after_append (some p) [] e q h = ground arith
  after_append (some p) (x ∷ es) e q h = after_append (step p x) es e q h

  -- The callbacks so far may fire, and leave the driver in the phase.
  unfoldable pub IsIn : Phase → IpcClient F → Type 0
  unfolding after
  IsIn p c = after (some offline) c.heard ≡ some p

  -- No callback fires between the two, and no session begins or ends.
  unfoldable pub Quiet : IpcClient F → IpcClient F → Type 0
  Quiet c d = (d.connected ≡ c.connected) × (d.heard ≡ c.heard)

  queue-Quiet : (c : IpcClient F) (r : Request F) → Quiet c (queue c r).0
  unfolding queue queue_message enqueue Quiet
  queue-Quiet c (a_haptic x) = ground arith
  queue-Quiet c (a_staging_config x) = ground arith
  queue-Quiet c (a_frame_ready x) = ground arith

  push-Quiet : (c : IpcClient F) (r : Request F) → Quiet c (push c r)
  unfolding push enqueue Quiet
  push-Quiet c (a_haptic x) = ground arith
  push-Quiet c (a_staging_config x) = ground arith
  push-Quiet c (a_frame_ready x) = ground arith

  pub Quiet-Quiet : (c d e : IpcClient F) → Quiet c d → Quiet d e → Quiet c e
  unfolding Quiet
  Quiet-Quiet c d e (h, k) (i, j) = (i ∙ h, j ∙ k)

  pub queue_all-Quiet : (c : IpcClient F) (rs : List (Request F)) → Quiet c (queue_all c rs)
  unfolding queue_all Quiet
  queue_all-Quiet c [] = (refl, refl)
  queue_all-Quiet c (r ∷ rs) =
      let c1 = (queue c r).0 in
      Quiet-Quiet c c1 (queue_all c1 rs) (queue-Quiet c r) (queue_all-Quiet c1 rs)

  pub push_all-Quiet : (c : IpcClient F) (rs : List (Request F)) → Quiet c (push_all c rs)
  unfolding push_all Quiet
  push_all-Quiet c [] = (refl, refl)
  push_all-Quiet c (r ∷ rs) =
      let c1 = push c r in Quiet-Quiet c c1 (push_all c1 rs) (push-Quiet c r) (push_all-Quiet c1 rs)

module _ {F : Type 0} (write : ℕ → Bool) where
  pub send_message-Quiet : (c : IpcClient F) (m : ToHelper F) → Quiet c (send_message write c m).0
  unfolding send_message Quiet
  send_message-Quiet c m = ground arith

  pub send_pending-Quiet :
      (c : IpcClient F) (ms : List (ToHelper F)) → Quiet c (send_pending write c ms).0
  unfolding send_pending Quiet
  send_pending-Quiet c [] = (refl, refl)
  send_pending-Quiet c (m ∷ ms) =
      let c0 : IpcClient F = record c { pending = ms } in
      let (c1, ok) = send_message write c0 m in
      let one = send_message-Quiet c0 m in
      either (λ p. Quiet c p.0) ok (send_pending write c1 ms) (c1, false)
        (Quiet-Quiet c c1 (send_pending write c1 ms).0 one (send_pending-Quiet c1 ms)) one

module _ {F P : Type 0} where
  wait_read-Quiet : (c : IpcClient F) (w : Waited P) → Quiet c (wait_read c w).0
  unfolding wait_read Quiet
  wait_read-Quiet c w = ground arith

  pub pump_read-Quiet :
      (c : IpcClient F) (s : Started P) (w : Waited P) → Quiet c (pump_read c s w).0
  unfolding pump_read Quiet
  pump_read-Quiet c (completed m) w = let lem = wait_read-Quiet c w in ground arith
  pump_read-Quiet c failed w = let lem = wait_read-Quiet c w in ground arith
  pump_read-Quiet c in_flight w = wait_read-Quiet (record c { read_pending = true }) w
