-- ===== src/IpcClient/Left.antt =====
-- What the thread of ipc_client.cpp leaves in its queue between two sessions.
use wivrn_nx_windows.Base.{
  ℕ, ◌+◌, ◌≡◌, refl, Bool, false, not, ◌&&◌, ◌≤◌, arith, length, length-append, length-drop, drop,
  List, [], ◌∷◌, ◌++◌, either,
}
use wivrn_nx_windows.IpcClient.{
  Callback, on_disconnect, Layout, IpcClient, Request, Attempt, a_haptic, a_staging_config,
  a_frame_ready, haptic, staging_config, frame_ready,
}
use wivrn_nx_windows.IpcClient.Loop.{
  enqueue, push, push_all, drop_pending_messages, close_pipe, open_pipe, fire, run_session, hang_up,
  attempt, thread_main,
}
use wivrn_nx_windows.IpcClient.Queue.{queue_all_refused}

module _ {F : Type 0} where
  length-push : (c : IpcClient F) (r : Request F) → length (push c r).pending ≤ length c.pending + 1
  unfolding push enqueue
  length-push c (a_haptic x) = ground (arith, length-append c.pending (haptic x ∷ []))
  length-push c (a_staging_config x) = ground (
    arith,
    length-append c.pending (staging_config x ∷ []),
    length-append (drop 1 c.pending) (staging_config x ∷ []),
    length-drop 1 c.pending,
  )
  length-push c (a_frame_ready x) = ground (arith, length-append c.pending (frame_ready x ∷ []))

  length-push_all :
      (c : IpcClient F) (rs : List (Request F))
      → length (push_all c rs).pending ≤ length c.pending + length rs
  unfolding push_all
  length-push_all c [] = omega arith
  length-push_all c (r ∷ rs) =
      let one = length-push c r in let rest = length-push_all (push c r) rs in omega arith

-- The number of requests that others push between sessions.
unfoldable pub late : {F P : Type 0} → List (Attempt F P) → ℕ
late [] = 0
late (a ∷ rest) = length a.pushes + late rest

module _ {F P : Type 0} (layout : Layout F P) (answers : Callback F → List (Request F))
    (write : ℕ → Bool) where
  hang_up-pending : (c : IpcClient F) → (hang_up answers c).pending ≡ []
  unfolding hang_up fire drop_pending_messages close_pipe
  hang_up-pending c =
      let c1 : IpcClient F = record c {
        connected = false;
        pending = [];
        pipe = false;
        read_pending = false;
        heard = c.heard ++ (on_disconnect ∷ []);
      } in
      rw (queue_all_refused c1 (answers on_disconnect) refl) refl

  attempt_left :
      (c : IpcClient F) (a : Attempt F P)
      → length (attempt layout answers write c a).0.pending ≤ length c.pending + length a.pushes
  unfolding attempt open_pipe
  attempt_left c a =
      let pushed = push_all c a.pushes in
      let c0 : IpcClient F = record pushed { running = pushed.running && not a.stops } in
      let c1 = (open_pipe c0 a.created a.mode_set).0 in
      ground (
        arith,
        length-push_all c a.pushes,
        hang_up-pending (run_session layout answers write c1 a.process a.start a.turns),
      )

  pub thread_left :
      (c : IpcClient F) (attempts : List (Attempt F P))
      → length (thread_main layout answers write c attempts).pending
        ≤ length c.pending + late attempts
  unfolding thread_main late
  thread_left c [] = omega arith
  thread_left c (a ∷ rest) =
      let (c1, on) = attempt layout answers write c a in
      let left = attempt_left c a in
      let all = length c.pending + (length a.pushes + late rest) in
      either (λ d. length d.pending ≤ all) on (thread_main layout answers write c1 rest) c1
        (let later = thread_left c1 rest in omega arith) (omega arith)
