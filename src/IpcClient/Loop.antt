-- ===== src/IpcClient/Loop.antt =====
-- The operations of ipc_client.cpp.
use wivrn_nx_windows.Base.{
  ℕ, ◌+◌, ◌-◌, ◌/◌, Bool, true, false, not, ◌&&◌, ◌||◌, ltb, leb, ◌==◌, if◌then◌else◌, none, some,
  List, [], ◌∷◌, ◌++◌, length, drop,
}
use wivrn_nx_windows.PipeServer.{
  Message, shim_magic, helper_magic, protocol_version, max_message_size,
}
use wivrn_nx_windows.IpcClient.{
  ToHelper, shim_hello, keep_alive, haptic, staging_config, frame_ready, Callback, on_config,
  on_pose, on_device_add, on_device_remove, on_input, on_frame_done, on_session_ready,
  on_disconnect, MessageType, message_type, helper_hello, hmd_config, pose_update, device_add,
  device_remove, input_update, frame_done, unknown, Layout, Started, completed, in_flight, failed,
  Waited, for_read, for_stop, for_outgoing, for_timeout, for_nothing, ReadResult, message, timeout,
  stopped, error, interrupted, IpcClient, Session, Request, a_haptic, a_staging_config,
  a_frame_ready, Turn, Attempt, payload_size, max_pending_messages, max_pending_payload,
  handshake_timeout_ms, keep_alive_interval,
}

module _ {F : Type 0} where
  -- What the queue takes without its lock.
  unfoldable pub admits : IpcClient F → ToHelper F → Bool
  unfolding payload_size
  admits c m =
      c.connected && not (payload_size m == 0) && not (ltb max_pending_payload (payload_size m))

  -- What it does under its lock.
  unfoldable pub enqueue : IpcClient F → ToHelper F → Bool → IpcClient F × Bool
  enqueue c m evictable =
      if leb max_pending_messages (length c.pending)
      then (if evictable
          then (c, false)
          else (record c { pending = drop 1 c.pending ++ (m ∷ []) }, true))
      else (record c { pending = c.pending ++ (m ∷ []) }, true)

  -- A call with no other thread between its test and its lock.
  unfoldable pub queue_message : IpcClient F → ToHelper F → Bool → IpcClient F × Bool
  unfolding admits enqueue
  queue_message c m evictable = if admits c m then enqueue c m evictable else (c, false)

  -- `queue_haptic`, `queue_staging_config` and `queue_frame_ready`.
  unfoldable pub queue : IpcClient F → Request F → IpcClient F × Bool
  unfolding queue_message
  queue c (a_haptic h) = queue_message c (haptic h) true
  queue c (a_staging_config s) = queue_message c (staging_config s) false
  queue c (a_frame_ready f) = queue_message c (frame_ready f) true

  unfoldable pub queue_all : IpcClient F → List (Request F) → IpcClient F
  unfolding queue
  queue_all c [] = c
  queue_all c (r ∷ rs) = queue_all (queue c r).0 rs

  -- The locked half of a call that passed the test earlier, whatever happened in between.
  unfoldable pub push : IpcClient F → Request F → IpcClient F
  unfolding enqueue
  push c (a_haptic h) = (enqueue c (haptic h) true).0
  push c (a_staging_config s) = (enqueue c (staging_config s) false).0
  push c (a_frame_ready f) = (enqueue c (frame_ready f) true).0

  unfoldable pub push_all : IpcClient F → List (Request F) → IpcClient F
  unfolding push
  push_all c [] = c
  push_all c (r ∷ rs) = push_all (push c r) rs

  unfoldable pub drop_pending_messages : IpcClient F → IpcClient F
  drop_pending_messages c = record c { pending = [] }

  unfoldable pub close_pipe : IpcClient F → IpcClient F
  close_pipe c = record c { pipe = false; read_pending = false }

  unfoldable pub open_pipe : IpcClient F → Bool → Bool → IpcClient F × Bool
  open_pipe c created mode_set =
      if not created
      then (c, false)
      else if not mode_set
      then (c, false)
      else (record c { pipe = true; read_pending = false; sent = []; writes = 0 }, true)

  -- Whether the events and the thread can be created.
  pub start : IpcClient F → Bool → Bool → IpcClient F × Bool
  start c events thread =
      if c.running
      then (c, true)
      else if not events
      then (c, false)
      else (record c { running = thread }, thread)

  -- With the thread that it waits for at its end.
  pub stop : IpcClient F → IpcClient F
  unfolding close_pipe drop_pending_messages
  stop c =
      if not c.running then c else drop_pending_messages (close_pipe (record c { running = false }))

  -- Called with the read in flight.
  unfoldable pub wait_read : {P : Type 0} → IpcClient F → Waited P → IpcClient F × ReadResult P
  wait_read c for_stop = (c, stopped)
  wait_read c for_timeout = (c, timeout)
  wait_read c for_outgoing = (c, interrupted)
  wait_read c for_nothing = (c, error)
  wait_read c (for_read none) = (record c { read_pending = false }, error)
  wait_read c (for_read (some m)) = (record c { read_pending = false }, message m)

  unfoldable pub pump_read :
      {P : Type 0} → IpcClient F → Started P → Waited P → IpcClient F × ReadResult P
  unfolding wait_read
  pump_read c (completed m) wait = if c.read_pending then wait_read c wait else (c, message m)
  pump_read c failed wait = if c.read_pending then wait_read c wait else (c, error)
  pump_read c in_flight wait = wait_read (record c { read_pending = true }) wait

module _ {F : Type 0} (write : ℕ → Bool) where
  unfoldable pub send_message : IpcClient F → ToHelper F → IpcClient F × Bool
  unfolding payload_size
  send_message c m =
      let tried = record c { writes = c.writes + 1 } in
      if not c.pipe
      then (c, false)
      else if ltb max_message_size (4 + payload_size m)
      then (c, false)
      else if write c.writes
      then (record tried { sent = c.sent ++ (m ∷ []) }, true)
      else (tried, false)

  -- The loop, on what is in the queue.
  unfoldable pub send_pending : IpcClient F → List (ToHelper F) → IpcClient F × Bool
  unfolding send_message
  send_pending c [] = (c, true)
  send_pending c (m ∷ ms) =
      let (c1, ok) = send_message (record c { pending = ms }) m in
      let rest = send_pending c1 ms in if ok then rest else (c1, false)

  unfoldable pub flush_outgoing : IpcClient F → IpcClient F × Bool
  unfolding send_pending
  flush_outgoing c = send_pending c c.pending

  unfoldable pub send_keep_alive : Session F → ℕ → ℕ → Session F × Bool
  unfolding send_message
  send_keep_alive s now qpc =
      let (c, ok) = send_message s.client (keep_alive qpc) in
      if s.got_helper_hello && leb s.next_keep_alive now
      then (if ok
          then (record s { client = c; next_keep_alive = now + keep_alive_interval }, true)
          else (record s { client = c }, false))
      else (s, true)

module _ {F : Type 0} (answers : Callback F → List (Request F)) where
  -- A callback fires.
  unfoldable pub fire : IpcClient F → Callback F → IpcClient F
  unfolding queue_all
  fire c e = queue_all (record c { heard = c.heard ++ (e ∷ []) }) (answers e)

  -- The common end of the cases, for a payload of the size.
  unfoldable pub tell : Session F → Bool → Callback F → Session F × Bool
  unfolding fire
  tell s fits e = if fits then (record s { client = fire s.client e }, true) else (s, false)

  -- The cases of a device, which wait for a configuration.
  unfoldable pub tell_configured : Session F → Bool → Callback F → Session F × Bool
  unfolding tell
  tell_configured s fits e = if not s.got_config then (s, true) else tell s fits e

  -- The end of a session's handshake, seen after a message.
  unfoldable pub get_ready : Session F → Session F
  unfolding fire
  get_ready s =
      if s.got_config && not s.client.connected
      then record s { client = fire (record (s.client) { connected = true }) on_session_ready }
      else s

  -- What follows a session.
  unfoldable pub hang_up : IpcClient F → IpcClient F
  unfolding close_pipe drop_pending_messages fire
  hang_up c =
      fire (drop_pending_messages (record (close_pipe c) { connected = false })) on_disconnect

module _ {F P : Type 0} (layout : Layout F P) (answers : Callback F → List (Request F)) where
  -- The cases, for a payload of `size` bytes.
  unfoldable pub dispatch : Session F → MessageType → ℕ → P → Session F × Bool
  unfolding tell tell_configured
  dispatch s helper_hello size p =
      let hello = layout.hello p in
      if size == 8 && hello.magic == helper_magic && hello.version == protocol_version
      then (record s { got_helper_hello = true }, true)
      else (s, false)
  dispatch s hmd_config size p =
      if not s.got_helper_hello || not (size == 104)
      then (s, false)
      else tell answers (record s { got_config = true }) true (on_config (layout.hmd_config p))
  dispatch s pose_update size p =
      tell_configured answers s (size == 120) (on_pose (layout.pose_update p))
  dispatch s device_add size p =
      tell_configured answers s (size == 4) (on_device_add (layout.device_add p))
  dispatch s device_remove size p =
      tell_configured answers s (size == 4) (on_device_remove (layout.device_remove p))
  dispatch s input_update size p =
      tell_configured answers s (size == 36) (on_input (layout.input_update p))
  dispatch s frame_done size p =
      tell_configured answers s (size == 16) (on_frame_done (layout.frame_done p))
  dispatch s unknown size p = (s, true)

  unfoldable pub handle_message : Session F → Message P → Session F × Bool
  unfolding dispatch
  handle_message s m =
      if ltb m.size 4
      then (s, false)
      else dispatch s (message_type m.raw_type) (m.size - 4) m.payload

  unfoldable pub hear : Session F → Message P → Session F × Bool
  unfolding handle_message get_ready
  hear s m = let (s1, ok) = handle_message s m in (if ok then get_ready answers s1 else s1, ok)

  -- What a read makes of the session that began at `began`, `later` by the clock.
  unfoldable pub listen : ℕ → Session F → ReadResult P → ℕ → Session F × Bool
  unfolding hear
  listen began s (message m) later = hear s m
  listen began s timeout later =
      (s, s.got_config || not (ltb handshake_timeout_ms ((later - began) / 1_000_000)))
  listen began s interrupted later = (s, true)
  listen began s stopped later = (s, false)
  listen began s error later = (s, false)

module _ {F P : Type 0} (layout : Layout F P) (answers : Callback F → List (Request F))
    (write : ℕ → Bool) where
  -- A pass of the loop; the answer is whether it goes on.
  unfoldable pub turn : ℕ → Session F → Turn F P → Session F × Bool
  unfolding send_keep_alive flush_outgoing pump_read listen queue_all push_all
  turn began s t =
      let asked = push_all (queue_all s.client t.requests) t.pushes in
      let s0 = record s { client = record asked { running = asked.running && not t.stops } } in
      let (s1, alive) = send_keep_alive write s0 t.now t.qpc in
      let (c2, flushed) = flush_outgoing write s1.client in
      let (c3, result) = pump_read c2 t.read t.wait in
      if not s0.client.running
      then (s0, false)
      else if not alive
      then (s1, false)
      else if not flushed
      then (record s1 { client = c2 }, false)
      else listen layout answers began (record s1 { client = c3 }) result t.later

  unfoldable pub converse : ℕ → Session F → List (Turn F P) → Session F
  unfolding turn
  converse began s [] = s
  converse began s (t ∷ ts) =
      let (s1, on) = turn began s t in let rest = converse began s1 ts in if on then rest else s1

  unfoldable pub run_session : IpcClient F → ℕ → ℕ → List (Turn F P) → IpcClient F
  unfolding send_message converse
  run_session c process began ts =
      let (c1, ok) = send_message write c (shim_hello shim_magic protocol_version process) in
      let s : Session F = record {
        client = c1;
        got_helper_hello = false;
        got_config = false;
        next_keep_alive = began + keep_alive_interval;
      } in
      let talked = converse began s ts in if ok then talked.client else c1

  -- A pass of the loop of the thread; the answer is whether it goes on.
  unfoldable pub attempt : IpcClient F → Attempt F P → IpcClient F × Bool
  unfolding open_pipe run_session hang_up push_all
  attempt c a =
      let pushed = push_all c a.pushes in
      let c0 = record pushed { running = pushed.running && not a.stops } in
      let (c1, opened) = open_pipe c0 a.created a.mode_set in
      let done = hang_up answers (run_session c1 a.process a.start a.turns) in
      if not c0.running
      then (c0, false)
      else if not opened
      then (c1, a.elapses)
      else (done, done.running && a.elapses)

  unfoldable pub thread_main : IpcClient F → List (Attempt F P) → IpcClient F
  unfolding attempt
  thread_main c [] = c
  thread_main c (a ∷ rest) =
      let (c1, on) = attempt c a in let later = thread_main c1 rest in if on then later else c1
