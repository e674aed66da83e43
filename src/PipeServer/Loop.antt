-- ===== src/PipeServer/Loop.antt =====
-- The operations of pipe_server.cpp on a connection.
use wivrn_nx_windows.Base.{
  ℕ, zero, suc, ◌+◌, ◌-◌, Bool, true, false, not, ◌&&◌, ltb, ◌==◌, if◌then◌else◌, none, some, List,
  [], ◌∷◌, ◌++◌, length,
}
use wivrn_nx_windows.Bridge.{Outgoing, pose_update, input_update, fresh, collect, push_haptic}
use wivrn_nx_windows.Intake.{
  set_vrserver_pid, on_staging_config, on_frame_ready, on_shim_gone, pop_done,
}
use wivrn_nx_windows.PipeServer.{
  Layout, Message, PipeServer, Round, Sent, Served, Wait, WaitResult, greets, helper_magic,
  max_message_size, message_type, payload_size, protocol_version, wait_for_message, shim_hello,
  keep_alive, haptic, staging_config, frame_ready, other, message, timeout, shutdown, error,
  helper_hello, bridged, frame_done, client_gone, helper_stops, goes_on,
}

module _ {F E : Type 0} where
  unfoldable pub counted : PipeServer F E → Outgoing F → PipeServer F E
  counted s (pose_update p) = record s { poses_sent = s.poses_sent + 1 }
  counted s (input_update i) = record s { inputs_sent = s.inputs_sent + 1 }
  counted s m = s

  unfoldable pub connected : PipeServer F E → PipeServer F E
  connected s = record s {
    cursor = fresh;
    sent = [];
    writes = 0;
    poses_sent = 0;
    inputs_sent = 0;
    frames_ready_seen = 0;
    frames_done_sent = 0;
    keepalives_seen = 0;
    haptics_seen = 0;
    unknown_seen = 0;
    staging_configs_seen = 0;
  }

module _ {F E : Type 0} (write : ℕ → Bool) where
  unfoldable pub send_message : PipeServer F E → Sent F → PipeServer F E × Bool
  unfolding payload_size
  send_message s m =
      let tried = record s { writes = s.writes + 1 } in
      if ltb max_message_size (4 + payload_size m)
      then (s, false)
      else if write s.writes
      then (record tried { sent = s.sent ++ (m ∷ []) }, true)
      else (tried, false)

  unfoldable pub send_all : PipeServer F E → List (Outgoing F) → PipeServer F E × Bool
  unfolding send_message counted
  send_all s [] = (s, true)
  send_all s (m ∷ ms) =
      let (s1, ok) = send_message s (bridged m) in
      let rest = send_all (counted s1 m) ms in if ok then rest else (s1, false)

  unfoldable pub flush_bridge : PipeServer F E → PipeServer F E × Bool
  unfolding send_all
  flush_bridge s =
      let (cursor, pending) = collect s.bridge s.cursor [] in
      send_all (record s { cursor = cursor }) pending

  -- The loop, a pass for each answer in the queue and one more.
  unfoldable pub drain : ℕ → PipeServer F E → PipeServer F E × Bool
  unfolding send_message
  drain zero s = (s, true)
  drain (suc fuel) s =
      let (intake, done) = pop_done s.intake in
      elim done [
        | none ↦ (record s { intake = intake }, true)
        | some d ↦
            (let (s1, ok) = send_message (record s { intake = intake }) (frame_done d) in
              let rest = drain fuel (record s1 { frames_done_sent = s1.frames_done_sent + 1 }) in
              if ok then rest else (s1, false))
      ]

  unfoldable pub flush_frame_done : PipeServer F E → PipeServer F E × Bool
  unfolding drain
  flush_frame_done s = drain (suc (length s.intake.done)) s

module _ {F E P : Type 0} (layout : Layout F P) where
  unfoldable pub handle_message : PipeServer F E → Message P → PipeServer F E × Bool
  handle_message s m =
      let size = m.size - 4 in
      elim (message_type m.raw_type) [
        | keep_alive ↦
            if size == 8
            then (record s { keepalives_seen = s.keepalives_seen + 1 }, true)
            else (s, false)
        | haptic ↦
            if size == 20
            then (
              record s {
                bridge = push_haptic s.bridge (layout.haptic m.payload);
                haptics_seen = s.haptics_seen + 1;
              },
              true,
            )
            else (s, false)
        | staging_config ↦
            if size == 48
            then (
              record s {
                intake = on_staging_config s.intake (layout.staging_config m.payload);
                staging_configs_seen = s.staging_configs_seen + 1;
              },
              true,
            )
            else (s, false)
        | frame_ready ↦
            if size == 56
            then (
              record s {
                intake = on_frame_ready s.intake s.video (layout.frame_ready m.payload);
                frames_ready_seen = s.frames_ready_seen + 1;
              },
              true,
            )
            else (s, false)
        | shim_hello ↦ (s, false)
        | other ↦ (record s { unknown_seen = s.unknown_seen + 1 }, true)
      ]

  unfoldable pub heard : PipeServer F E → WaitResult P → PipeServer F E × Served
  unfolding handle_message
  heard s (message m) =
      let (s1, ok) = handle_message s m in (s1, if ok then goes_on else client_gone)
  heard s timeout = (s, goes_on)
  heard s shutdown = (s, helper_stops)
  heard s error = (s, client_gone)

module _ {F E P : Type 0} (layout : Layout F P) (write : ℕ → Bool) where
  unfoldable pub welcome : PipeServer F E → Message P → PipeServer F E × Bool
  unfolding send_message flush_bridge
  welcome s m =
      let pid = (layout.hello m.payload).vrserver_pid in
      let (s1, ok) =
        send_message write (record s { intake = set_vrserver_pid s.intake pid })
          (helper_hello helper_magic protocol_version) in
      let flushed = flush_bridge write s1 in if ok then flushed else (s1, false)

  unfoldable pub handshake : PipeServer F E → Wait P → PipeServer F E × Bool
  unfolding wait_for_message greets welcome
  handshake s w = elim (wait_for_message w) [
    | message m ↦ if greets layout m then welcome s m else (s, false)
    | timeout ↦ (s, false)
    | shutdown ↦ (s, false)
    | error ↦ (s, false)
  ]

  -- A pass of the loop.
  unfoldable pub pass : PipeServer F E → Round F E P → PipeServer F E × Served
  unfolding flush_bridge flush_frame_done wait_for_message heard
  pass s r =
      let (s1, sent) = flush_bridge write (record s {
        bridge = r.bridge s.bridge;
        intake = r.intake s.intake;
        video = r.video s.video;
      }) in
      let (s2, returned) = flush_frame_done write s1 in
      if not sent
      then (s1, client_gone)
      else if not returned
      then (s2, client_gone)
      else heard layout s2 (wait_for_message r.wait)

  unfoldable pub serve : PipeServer F E → List (Round F E P) → PipeServer F E × Served
  unfolding pass
  serve s [] = (s, goes_on)
  serve s (r ∷ rs) =
      let (s1, how) = pass s r in
      let rest = serve s1 rs in
      elim how [
        | goes_on ↦ rest
        | client_gone ↦ (s1, client_gone)
        | helper_stops ↦ (s1, helper_stops)
      ]

  -- A client from its connection up to where it is gone; `run_client` adds what follows. What the
  -- other threads do before the first flush is in the bridge and the intake that it begins with,
  -- which no step before the greeting's answer reads.
  unfoldable pub session : PipeServer F E → Wait P → List (Round F E P) → PipeServer F E × Served
  unfolding connected handshake serve
  session s w rs =
      let (s1, ok) = handshake (connected s) w in
      let served = serve s1 rs in if ok then served else (s1, client_gone)

  -- A client, and that it is gone. The answer is whether the next one is waited for, which the
  -- shutdown event, seen after it, may forbid too. The end of the rounds is taken for its end.
  unfoldable pub run_client :
      PipeServer F E → Wait P → List (Round F E P) → Bool → PipeServer F E × Bool
  unfolding session
  run_client s w rs is_shutdown =
      let (s1, how) = session s w rs in
      let keep = elim how as (λ x. Bool) [
        | client_gone ↦ true
        | helper_stops ↦ false
        | goes_on ↦ true
      ] in
      (record s1 { intake = on_shim_gone s1.intake }, keep && not is_shutdown)
