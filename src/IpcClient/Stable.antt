-- ===== src/IpcClient/Stable.antt =====
-- What the passes of a session of ipc_client.cpp keep, from what its single steps keep.
use wivrn_nx_windows.Base.{
  ℕ, ◌+◌, ◌-◌, Bool, true, false, not, ◌&&◌, ◌||◌, leb, ltb, ◌==◌, none, some, List, [], ◌∷◌,
  if◌then◌else◌, either,
}
use wivrn_nx_windows.PipeServer.{Message, helper_magic, protocol_version}
use wivrn_nx_windows.IpcClient.{
  Callback, on_config, on_pose, on_device_add, on_device_remove, on_input, on_frame_done,
  on_session_ready, MessageType, message_type, helper_hello, hmd_config, pose_update, device_add,
  device_remove, input_update, frame_done, unknown, Layout, Started, completed, in_flight, failed,
  Waited, for_read, for_stop, for_outgoing, for_timeout, for_nothing, ReadResult, message, timeout,
  stopped, error, interrupted, IpcClient, Session, Request, Turn, keep_alive, keep_alive_interval,
}
use wivrn_nx_windows.IpcClient.Loop.{
  queue_all, push_all, wait_read, pump_read, send_message, flush_outgoing, send_keep_alive, fire,
  tell, tell_configured, get_ready, dispatch, handle_message, hear, listen, turn, converse,
}

module _ {F : Type 0} (answers : Callback F → List (Request F)) (write : ℕ → Bool) where
  -- The steps of a session keep `holds`.
  pub record IsStable (holds : IpcClient F → Type 0) : Type 0 where
    pub fires : (c : IpcClient F) (e : Callback F) → holds c → holds (fire answers c e)
    pub connects : (c : IpcClient F) → holds c → holds (record c { connected = true })
    pub runs : (c : IpcClient F) (on : Bool) → holds c → holds (record c { running = on })
    pub reads : (c : IpcClient F) (on : Bool) → holds c → holds (record c { read_pending = on })
    pub queues : (c : IpcClient F) (rs : List (Request F)) → holds c → holds (queue_all c rs)
    pub pushes : (c : IpcClient F) (rs : List (Request F)) → holds c → holds (push_all c rs)
    pub beats :
        (c : IpcClient F) (qpc : ℕ) → holds c → holds (send_message write c (keep_alive qpc)).0
    pub flushes : (c : IpcClient F) → holds c → holds (flush_outgoing write c).0

module _ {F P : Type 0} (layout : Layout F P) (answers : Callback F → List (Request F))
    (write : ℕ → Bool) (holds : IpcClient F → Type 0) (stable : IsStable answers write holds) where
  abbrev Holds : Session F × Bool → Type 0
  Holds p = holds p.0.client

  tell_stable :
      (s : Session F) (fits : Bool) (e : Callback F)
      → holds s.client
      → Holds (tell answers s fits e)
  unfolding tell
  tell_stable s fits e h =
      either Holds fits (record s { client = fire answers s.client e }, true) (s, false)
        (stable.fires s.client e h) h

  configured_stable :
      (s : Session F) (fits : Bool) (e : Callback F)
      → holds s.client
      → Holds (tell_configured answers s fits e)
  unfolding tell_configured
  configured_stable s fits e h =
      either Holds (not s.got_config) (s, true) (tell answers s fits e) h (tell_stable s fits e h)

  dispatch_stable :
      (s : Session F) (kind : MessageType) (size : ℕ) (p : P)
      → holds s.client
      → Holds (dispatch layout answers s kind size p)
  unfolding dispatch
  dispatch_stable s helper_hello size p h =
      let hello = layout.hello p in
      either Holds (size == 8 && hello.magic == helper_magic && hello.version == protocol_version)
        (record s { got_helper_hello = true }, true) (s, false) h h
  dispatch_stable s hmd_config size p h =
      let s1 : Session F = record s { got_config = true } in
      let e = on_config (layout.hmd_config p) in
      either Holds (not s.got_helper_hello || not (size == 104)) (s, false) (tell answers s1 true e)
        h (tell_stable s1 true e h)
  dispatch_stable s pose_update size p h =
      configured_stable s (size == 120) (on_pose (layout.pose_update p)) h
  dispatch_stable s device_add size p h =
      configured_stable s (size == 4) (on_device_add (layout.device_add p)) h
  dispatch_stable s device_remove size p h =
      configured_stable s (size == 4) (on_device_remove (layout.device_remove p)) h
  dispatch_stable s input_update size p h =
      configured_stable s (size == 36) (on_input (layout.input_update p)) h
  dispatch_stable s frame_done size p h =
      configured_stable s (size == 16) (on_frame_done (layout.frame_done p)) h
  dispatch_stable s unknown size p h = h

  ready_stable : (s : Session F) → holds s.client → holds (get_ready answers s).client
  unfolding get_ready
  ready_stable s h =
      let c : IpcClient F = record (s.client) { connected = true } in
      either (λ x. holds x.client) (s.got_config && not s.client.connected)
        (record s { client = fire answers c on_session_ready }) s
        (stable.fires c on_session_ready (stable.connects s.client h)) h

  hear_stable : (s : Session F) (m : Message P) → holds s.client → Holds (hear layout answers s m)
  unfolding hear handle_message
  hear_stable s m h =
      let (s1, ok) = handle_message layout answers s m in
      let h1 =
        either Holds (ltb m.size 4) (s, false)
          (dispatch layout answers s (message_type m.raw_type) (m.size - 4) m.payload) h
          (dispatch_stable s (message_type m.raw_type) (m.size - 4) m.payload h) in
      either (λ x. holds x.client) ok (get_ready answers s1) s1 (ready_stable s1 h1) h1

  listen_stable :
      (began : ℕ) (s : Session F) (r : ReadResult P) (later : ℕ)
      → holds s.client
      → Holds (listen layout answers began s r later)
  unfolding listen
  listen_stable began s (message m) later h = hear_stable s m h
  listen_stable began s timeout later h = h
  listen_stable began s stopped later h = h
  listen_stable began s error later h = h
  listen_stable began s interrupted later h = h

  wait_stable : (c : IpcClient F) (x : Waited P) → holds c → holds (wait_read c x).0
  unfolding wait_read
  wait_stable c for_stop h = h
  wait_stable c for_timeout h = h
  wait_stable c for_outgoing h = h
  wait_stable c for_nothing h = h
  wait_stable c (for_read none) h = stable.reads c false h
  wait_stable c (for_read (some m)) h = stable.reads c false h

  pump_stable :
      (c : IpcClient F) (r : Started P) (x : Waited P) → holds c → holds (pump_read c r x).0
  unfolding pump_read
  pump_stable c (completed m) x h =
      either (λ p. holds p.0) c.read_pending (wait_read c x) (c, message m) (wait_stable c x h) h
  pump_stable c failed x h =
      either (λ p. holds p.0) c.read_pending (wait_read c x) (c, error) (wait_stable c x h) h
  pump_stable c in_flight x h =
      wait_stable (record c { read_pending = true }) x (stable.reads c true h)

  beat_stable :
      (s : Session F) (now qpc : ℕ) → holds s.client → Holds (send_keep_alive write s now qpc)
  unfolding send_keep_alive
  beat_stable s now qpc h =
      let (c, ok) = send_message write s.client (keep_alive qpc) in
      let h1 = stable.beats s.client qpc h in
      let sent : Session F = record s { client = c; next_keep_alive = now + keep_alive_interval } in
      let failed : Session F = record s { client = c } in
      either Holds (s.got_helper_hello && leb s.next_keep_alive now)
        (if ok then (sent, true) else (failed, false)) (s, true)
        (either Holds ok (sent, true) (failed, false) h1 h1) h

  turn_stable :
      (began : ℕ) (s : Session F) (t : Turn F P)
      → holds s.client
      → Holds (turn layout answers write began s t)
  unfolding turn
  turn_stable began s t h =
      let queued = queue_all s.client t.requests in
      let asked = push_all queued t.pushes in
      let c0 : IpcClient F = record asked { running = asked.running && not t.stops } in
      let s0 : Session F = record s { client = c0 } in
      let (s1, alive) = send_keep_alive write s0 t.now t.qpc in
      let (c2, flushed) = flush_outgoing write s1.client in
      let (c3, result) = pump_read c2 t.read t.wait in
      let s3 : Session F = record s1 { client = c3 } in
      let h0 =
        stable.runs asked (asked.running && not t.stops)
          (stable.pushes queued t.pushes (stable.queues s.client t.requests h)) in
      let h1 = beat_stable s0 t.now t.qpc h0 in
      let h2 = stable.flushes s1.client h1 in
      let h3 = pump_stable c2 t.read t.wait h2 in
      let heard = listen layout answers began s3 result t.later in
      let s2 : Session F = record s1 { client = c2 } in
      either Holds (not c0.running) (s0, false)
        (if not alive then (s1, false) else if not flushed then (s2, false) else heard) h0
        (either Holds (not alive) (s1, false) (if not flushed then (s2, false) else heard) h1
          (either Holds (not flushed) (s2, false) heard h2
            (listen_stable began s3 result t.later h3)))

  -- A session keeps what its steps keep.
  pub converse_stable :
      (began : ℕ) (s : Session F) (ts : List (Turn F P))
      → holds s.client
      → holds (converse layout answers write began s ts).client
  unfolding converse
  converse_stable began s [] h = h
  converse_stable began s (t ∷ ts) h =
      let (s1, on) = turn layout answers write began s t in
      let h1 = turn_stable began s t h in
      either (λ x. holds x.client) on (converse layout answers write began s1 ts) s1
        (converse_stable began s1 ts h1) h1
