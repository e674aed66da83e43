-- ===== src/IpcClient/Threads.antt =====
-- The thread of ipc_client.cpp, session after session.
use wivrn_nx_windows.Base.{
  ℕ, ◌+◌, ◌≡◌, ◌∙◌, refl, ◌⊎◌, inl, inr, Bool, true, false, not, ◌&&◌, ◌≤◌, length, leb, some, List,
  [], ◌∷◌, ◌++◌, if◌then◌else◌, either,
}
use wivrn_nx_windows.PipeServer.{shim_magic, protocol_version}
use wivrn_nx_windows.IpcClient.{
  Callback, on_disconnect, Layout, IpcClient, Session, Request, Turn, Attempt, keep_alive,
  shim_hello, keep_alive_interval,
}
use wivrn_nx_windows.IpcClient.Loop.{
  queue_all, push_all, drop_pending_messages, close_pipe, open_pipe, pump_read, send_message,
  flush_outgoing, fire, listen, send_keep_alive, turn, converse, run_session, hang_up, attempt,
  thread_main,
}
use wivrn_nx_windows.IpcClient.Queue.{queue_all_refused}
use wivrn_nx_windows.IpcClient.Left.{late, thread_left}
use wivrn_nx_windows.IpcClient.Phases.{
  offline, ready, step, IsIn, Quiet, Quiet-Quiet, queue_all-Quiet, push_all-Quiet,
  send_message-Quiet, send_pending-Quiet, pump_read-Quiet, after_append,
}
use wivrn_nx_windows.IpcClient.Sessions.{IsSettled, IsSettled-Quiet, listen-IsSettled}

module _ {F : Type 0} where
  -- There is no session, and the driver knows.
  unfoldable pub IsIdle : IpcClient F → Type 0
  IsIdle c = (c.connected ≡ false) × IsIn offline c

  same-IsIdle :
      (c d : IpcClient F) → d.connected ≡ c.connected → d.heard ≡ c.heard → IsIdle c → IsIdle d
  unfolding IsIdle IsIn
  same-IsIdle c d h k (off, i) = (h ∙ off, rw k i)

  open_pipe-IsIdle :
      (c : IpcClient F) (created mode_set : Bool)
      → IsIdle c
      → IsIdle (open_pipe c created mode_set).0
  unfolding open_pipe
  open_pipe-IsIdle c false mode_set h = h
  open_pipe-IsIdle c true false h = h
  open_pipe-IsIdle c true true h =
      let d : IpcClient F = record c { pipe = true; read_pending = false; sent = []; writes = 0 } in
      same-IsIdle c d refl refl h

module _ {F P : Type 0} (layout : Layout F P) (answers : Callback F → List (Request F))
    (write : ℕ → Bool) where
  keep_alive-IsSettled :
      (s : Session F) (now qpc : ℕ) → IsSettled s → IsSettled (send_keep_alive write s now qpc).0
  unfolding send_keep_alive
  keep_alive-IsSettled s now qpc h =
      let (c, ok) = send_message write s.client (keep_alive qpc) in
      let q = send_message-Quiet write s.client (keep_alive qpc) in
      let holds : Session F × Bool → Type 0 = λ p. IsSettled p.0 in
      let sent : Session F = record s { client = c; next_keep_alive = now + keep_alive_interval } in
      let failed : Session F = record s { client = c } in
      either holds (s.got_helper_hello && leb s.next_keep_alive now)
        (if ok then (sent, true) else (failed, false)) (s, true)
        (either holds ok (sent, true) (failed, false)
          (IsSettled-Quiet s c (now + keep_alive_interval) q h)
          (IsSettled-Quiet s c s.next_keep_alive q h))
        h

  pub turn-IsSettled :
      (began : ℕ) (s : Session F) (t : Turn F P)
      → IsSettled s
      → IsSettled (turn layout answers write began s t).0
  unfolding turn flush_outgoing Quiet
  turn-IsSettled began s t h =
      let queued = queue_all s.client t.requests in
      let asked = push_all queued t.pushes in
      let c0 : IpcClient F = record asked { running = asked.running && not t.stops } in
      let s0 : Session F = record s { client = c0 } in
      let (s1, alive) = send_keep_alive write s0 t.now t.qpc in
      let (c2, flushed) = flush_outgoing write s1.client in
      let (c3, result) = pump_read c2 t.read t.wait in
      let s2 : Session F = record s1 { client = c2 } in
      let s3 : Session F = record s1 { client = c3 } in
      let quiet =
        Quiet-Quiet s.client queued asked (queue_all-Quiet s.client t.requests)
          (push_all-Quiet queued t.pushes) in
      let h0 = IsSettled-Quiet s c0 s.next_keep_alive quiet h in
      let h1 = keep_alive-IsSettled s0 t.now t.qpc h0 in
      let h2 =
        IsSettled-Quiet s1 c2 s1.next_keep_alive
          (send_pending-Quiet write s1.client s1.client.pending) h1 in
      let h3 = IsSettled-Quiet s2 c3 s1.next_keep_alive (pump_read-Quiet c2 t.read t.wait) h2 in
      let heard = listen layout answers began s3 result t.later in
      let holds : Session F × Bool → Type 0 = λ p. IsSettled p.0 in
      either holds (not c0.running) (s0, false)
        (if not alive then (s1, false) else if not flushed then (s2, false) else heard) h0
        (either holds (not alive) (s1, false) (if not flushed then (s2, false) else heard) h1
          (either holds (not flushed) (s2, false) heard h2
            (listen-IsSettled layout answers began s3 result t.later h3)))

  pub converse-IsSettled :
      (began : ℕ) (s : Session F) (ts : List (Turn F P))
      → IsSettled s
      → IsSettled (converse layout answers write began s ts)
  unfolding converse
  converse-IsSettled began s [] h = h
  converse-IsSettled began s (t ∷ ts) h =
      let (s1, on) = turn layout answers write began s t in
      let h1 = turn-IsSettled began s t h in
      either IsSettled on (converse layout answers write began s1 ts) s1
        (converse-IsSettled began s1 ts h1) h1

  -- The end of a session is one that a disconnect may follow.
  unfoldable pub IsOver : IpcClient F → Type 0
  IsOver c = IsIn ready c ⊎ IsIn offline c

  IsSettled-IsOver : (s : Session F) → IsSettled s → IsOver s.client
  unfolding IsSettled IsOver
  IsSettled-IsOver s (inl (given, on, i)) = inl i
  IsSettled-IsOver s (inr (given, on, i)) = inr i

  run_session-IsOver :
      (c : IpcClient F) (process began : ℕ) (ts : List (Turn F P))
      → c.connected ≡ false
      → IsIn offline c
      → IsOver (run_session layout answers write c process began ts)
  unfolding run_session IsSettled IsIn Quiet
  run_session-IsOver c process began ts off i =
      let hello = shim_hello shim_magic protocol_version process in
      let (c1, ok) = send_message write c hello in
      let s : Session F = record {
        client = c1;
        got_helper_hello = false;
        got_config = false;
        next_keep_alive = began + keep_alive_interval;
      } in
      let (kept, heard) = send_message-Quiet write c hello in
      let h : IsSettled s = inr (refl, kept ∙ off, rw heard i) in
      let talked = converse layout answers write began s ts in
      either IsOver ok talked.client c1 (IsSettled-IsOver talked (converse-IsSettled began s ts h))
        (IsSettled-IsOver s h)

  idle_session-IsOver :
      (c : IpcClient F) (process began : ℕ) (ts : List (Turn F P))
      → IsIdle c
      → IsOver (run_session layout answers write c process began ts)
  unfolding IsIdle
  idle_session-IsOver c process began ts (off, i) = run_session-IsOver c process began ts off i

  hang_up-IsIdle : (c : IpcClient F) → IsOver c → IsIdle (hang_up answers c)
  unfolding hang_up fire IsIdle IsIn IsOver step drop_pending_messages close_pipe
  hang_up-IsIdle c h =
      let after_it : IsIn offline (record c { heard = c.heard ++ (on_disconnect ∷ []) }) = elim h [
        | inl i ↦ after_append (some offline) c.heard on_disconnect ready i
        | inr i ↦ after_append (some offline) c.heard on_disconnect offline i
      ] in
      let c1 : IpcClient F = record c {
        connected = false;
        pending = [];
        pipe = false;
        read_pending = false;
        heard = c.heard ++ (on_disconnect ∷ []);
      } in
      rw (queue_all_refused c1 (answers on_disconnect) refl) (refl, after_it)

  attempt-IsIdle :
      (c : IpcClient F) (a : Attempt F P) → IsIdle c → IsIdle (attempt layout answers write c a).0
  unfolding attempt Quiet
  attempt-IsIdle c a h =
      let pushed = push_all c a.pushes in
      let c0 : IpcClient F = record pushed { running = pushed.running && not a.stops } in
      let (c1, opened) = open_pipe c0 a.created a.mode_set in
      let done = hang_up answers (run_session layout answers write c1 a.process a.start a.turns) in
      let holds : IpcClient F × Bool → Type 0 = λ p. IsIdle p.0 in
      let quiet = push_all-Quiet c a.pushes in
      let h0 : IsIdle c0 = same-IsIdle c c0 quiet.0 quiet.1 h in
      let h1 = open_pipe-IsIdle c0 a.created a.mode_set h0 in
      either holds (not c0.running) (c0, false)
        (if not opened then (c1, a.elapses) else (done, done.running && a.elapses)) h0
        (either holds (not opened) (c1, a.elapses) (done, done.running && a.elapses) h1
          (hang_up-IsIdle (run_session layout answers write c1 a.process a.start a.turns)
            (idle_session-IsOver c1 a.process a.start a.turns h1)))

  thread-IsIdle :
      (c : IpcClient F) (attempts : List (Attempt F P))
      → IsIdle c
      → IsIdle (thread_main layout answers write c attempts)
  unfolding thread_main
  thread-IsIdle c [] h = h
  thread-IsIdle c (a ∷ rest) h =
      let (c1, on) = attempt layout answers write c a in
      let h1 = attempt-IsIdle c a h in
      either IsIdle on (thread_main layout answers write c1 rest) c1 (thread-IsIdle c1 rest h1) h1

  -- Whatever the helper, Win32 and the other threads do, the callbacks fire in order, session after
  -- session: a configuration first, then that the session is ready, which is said once, then any
  -- but that one and at last the disconnect. At its end there is no session, and no more is in the
  -- queue than before and what others pushed between sessions, let in while there was one.
  pub thread_main-IsIdle :
      (c : IpcClient F) (attempts : List (Attempt F P))
      → IsIdle c
      → let d = thread_main layout answers write c attempts in
        IsIdle d × (length d.pending ≤ length c.pending + late attempts)
  thread_main-IsIdle c attempts h =
      (thread-IsIdle c attempts h, thread_left layout answers write c attempts)
