-- ===== src/IpcClient/Talk.antt =====
-- What the client of ipc_client.cpp makes of the messages of pipe_server.cpp.
use wivrn_nx_windows.Base.{
  ℕ, ◌≡◌, ◌≢◌, ◌∙◌, refl, sym, ap, Bool, true, false, List, [], ◌∷◌, ◌++◌, if◌then◌else◌,
  append_assoc, append-nil, map, All,
}
use wivrn_nx_windows.Bridge.{
  HmdConfig, hmd_config, device_add, device_remove, pose_update, input_update,
}
use wivrn_nx_windows.PipeServer
use wivrn_nx_windows.PipeServer.{
  PipeServer, Message, Sent, helper_hello, bridged, frame_done, helper_magic, protocol_version,
  Round, Wait,
}
use wivrn_nx_windows.PipeServer.Opening.{IsPlain, Opened, Opening}
use wivrn_nx_windows.PipeServer.Loop.{session}
use wivrn_nx_windows.PipeServer.Session.{session-Opening}
use wivrn_nx_windows.IpcClient.{
  Callback, on_config, on_pose, on_device_add, on_device_remove, on_input, on_frame_done,
  on_session_ready, Layout, IpcClient, Session, Request,
}
use wivrn_nx_windows.IpcClient.Loop.{fire, tell, tell_configured, dispatch, handle_message, hear}
use wivrn_nx_windows.IpcClient.Phases.{Quiet}
use wivrn_nx_windows.IpcClient.Sessions.{fire-Quiet, ready_already, ready_now}
use wivrn_nx_windows.IpcClient.Wire.{
  Copies, told, told_all, reports, TookAll, running, begun, greeted, wired, raw_type, hear_all,
}

module _ {F P : Type 0} (layout : Layout F P) (answers : Callback F → List (Request F)) where
  hear_all_nil : (s : Session F) → hear_all layout answers s [] ≡ (s, true)
  unfolding hear_all
  hear_all_nil s = refl

  hear_all_cons :
      (s s1 : Session F) (m : Message P) (ms : List (Message P))
      → hear layout answers s m ≡ (s1, true)
      → hear_all layout answers s (m ∷ ms) ≡ hear_all layout answers s1 ms
  unfolding hear_all
  hear_all_cons s s1 m ms h =
      ap (λ p. if p.1 then hear_all layout answers p.0 ms else (p.0, false)) h

  -- One callback fired.
  abbrev Told : IpcClient F → ℕ → List (Callback F) → Session F × Bool → Type 0
  Told c wait es p =
      (d : IpcClient F) × (p ≡ (running d wait, true))
      × (d.connected ≡ true)
      × (d.heard ≡ c.heard ++ es)

  fire-Told :
      (c : IpcClient F) (wait : ℕ) (m : Message P) (e : Callback F)
      → c.connected ≡ true
      → handle_message layout answers (running c wait) m ≡ (running (fire answers c e) wait, true)
      → Told c wait (e ∷ []) (hear layout answers (running c wait) m)
  unfolding hear Quiet
  fire-Told c wait m e on handled =
      let d = fire answers c e in
      let kept = fire-Quiet answers c e in
      (
        d,
        rw handled (ap (λ s. (s, true)) (ready_already answers (running d wait) (kept.0 ∙ on))),
        kept.0 ∙ on,
        kept.1,
      )

module _ {F P : Type 0} (layout : Layout F P) (answers : Callback F → List (Request F))
    (bytes : Sent F → P) (copies : Copies layout bytes) where
  plain-Told :
      (c : IpcClient F) (wait : ℕ) (m : Sent F)
      → c.connected ≡ true
      → IsPlain m
      → Told layout answers c wait (told m) (hear layout answers (running c wait) (wired bytes m))
  unfolding told wired IsPlain handle_message dispatch tell tell_configured PipeServer.payload_size
      raw_type
  plain-Told c wait (helper_hello magic version) on plain = elim plain [ ]
  plain-Told c wait (bridged (hmd_config x)) on plain =
      let m = wired bytes (bridged (hmd_config x)) in
      fire-Told layout answers c wait m (on_config x) on (rw (copies.hmd_config x) refl)
  plain-Told c wait (bridged (device_add n)) on plain =
      let m = wired bytes (bridged (device_add n)) in
      fire-Told layout answers c wait m (on_device_add n) on (rw (copies.device_add n) refl)
  plain-Told c wait (bridged (device_remove n)) on plain =
      let m = wired bytes (bridged (device_remove n)) in
      fire-Told layout answers c wait m (on_device_remove n) on (rw (copies.device_remove n) refl)
  plain-Told c wait (bridged (pose_update x)) on plain =
      let m = wired bytes (bridged (pose_update x)) in
      fire-Told layout answers c wait m (on_pose x) on (rw (copies.pose_update x) refl)
  plain-Told c wait (bridged (input_update x)) on plain =
      let m = wired bytes (bridged (input_update x)) in
      fire-Told layout answers c wait m (on_input x) on (rw (copies.input_update x) refl)
  plain-Told c wait (frame_done d) on plain =
      let m = wired bytes (frame_done d) in
      fire-Told layout answers c wait m (on_frame_done d) on (rw (copies.frame_done d) refl)

  told_all-TookAll :
      (c : IpcClient F) (wait : ℕ) (ms : List (Sent F))
      → c.connected ≡ true
      → All IsPlain ms
      → TookAll c (told_all ms) (hear_all layout answers (running c wait) (map (wired bytes) ms))
  unfolding told_all
  told_all-TookAll c wait [] on plain =
      rw (hear_all_nil layout answers (running c wait)) (refl, sym (append-nil c.heard))
  told_all-TookAll c wait (m ∷ ms) on (one, plain) =
      let (d, same, still, heard) = plain-Told c wait m on one in
      let (good, all) = told_all-TookAll d wait ms still plain in
      rw
        (hear_all_cons layout answers (running c wait) (running d wait) (wired bytes m)
          (map (wired bytes) ms) same)
        (
          good,
          all ∙ ap (λ xs. xs ++ told_all ms) heard ∙ append_assoc c.heard (told m) (told_all ms),
        )

  hello_lem :
      (c : IpcClient F) (wait : ℕ)
      → c.connected ≡ false
      → hear layout answers
          (begun c wait)
          (wired bytes (helper_hello helper_magic protocol_version))
        ≡ (greeted c wait, true)
  unfolding hear handle_message dispatch wired PipeServer.payload_size raw_type
  hello_lem c wait off =
      rw (copies.hello helper_magic protocol_version)
        (ap (λ s. (s, true)) (ready_already answers (greeted c wait) off))

  hear_all_hello :
      (c : IpcClient F) (wait : ℕ) (ms : List (Message P))
      → c.connected ≡ false
      → hear_all layout answers
          (begun c wait)
          (wired bytes (helper_hello helper_magic protocol_version) ∷ ms)
        ≡ hear_all layout answers (greeted c wait) ms
  hear_all_hello c wait ms off =
      hear_all_cons layout answers (begun c wait) (greeted c wait)
        (wired bytes (helper_hello helper_magic protocol_version)) ms (hello_lem c wait off)

  config_lem :
      (c : IpcClient F) (wait : ℕ) (config : HmdConfig F)
      → c.connected ≡ false
      → Told layout answers c wait
          (on_config config ∷ on_session_ready ∷ [])
          (hear layout answers (greeted c wait) (wired bytes (bridged (hmd_config config))))
  unfolding hear handle_message dispatch tell wired PipeServer.payload_size raw_type Quiet
  config_lem c wait config off =
      let d = fire answers c (on_config config) in
      let first = fire-Quiet answers c (on_config config) in
      let d1 : IpcClient F = record d { connected = true } in
      let second = fire-Quiet answers d1 on_session_ready in
      rw (copies.hmd_config config) (
        fire answers d1 on_session_ready,
        ap (λ s. (s, true)) (ready_now answers (running d wait) refl (first.0 ∙ off)),
        second.0,
        second.1
            ∙ ap (λ xs. xs ++ (on_session_ready ∷ [])) first.1
            ∙ append_assoc c.heard (on_config config ∷ []) (on_session_ready ∷ []),
      )

  opened-TookAll :
      (c : IpcClient F) (wait : ℕ) (config : HmdConfig F) (ms : List (Sent F))
      → c.connected ≡ false
      → Opening config ms
      → TookAll c (reports ms) (hear_all layout answers (begun c wait) (map (wired bytes) ms))
  unfolding Opening Opened reports told
  opened-TookAll c wait config [] off h =
      rw (hear_all_nil layout answers (begun c wait)) (refl, sym (append-nil c.heard))
  opened-TookAll c wait config (x ∷ []) off h =
      rw (h, hear_all_hello c wait [] off)
        (rw (hear_all_nil layout answers (greeted c wait)) (refl, sym (append-nil c.heard)))
  opened-TookAll c wait config (x ∷ y ∷ ys) off (first, second, plain) =
      let (d, same, on, heard) = config_lem c wait config off in
      let (good, all) = told_all-TookAll d wait ys on plain in
      let rest = map (wired bytes) ys in
      let m = wired bytes (bridged (hmd_config config)) in
      rw (first, second, hear_all_hello c wait (m ∷ rest) off)
        (rw (hear_all_cons layout answers (greeted c wait) (running d wait) m rest same) (
          good,
          all
              ∙ ap (λ xs. xs ++ told_all ys) heard
              ∙ append_assoc c.heard (on_config config ∷ on_session_ready ∷ []) (told_all ys),
        ))

  -- Whatever a session of the helper sends, the shim never drops it: it fires the callback of each
  -- message in order, and that the session is ready behind the first configuration. The bridge has
  -- had a configuration, and what is copied into a message is what is copied out of it.
  pub session-TookAll :
      {E S : Type 0} (server_layout : PipeServer.Layout F S) (write : ℕ → Bool) (s : PipeServer F E)
      (w : Wait S) (rs : List (Round F E S)) (c : IpcClient F) (wait : ℕ)
      → s.bridge.config_gen ≢ 0
      → c.connected ≡ false
      → let out = (session server_layout write s w rs).0.sent in
        TookAll c (reports out) (hear_all layout answers (begun c wait) (map (wired bytes) out))
  session-TookAll server_layout write s w rs c wait given off =
      opened-TookAll c wait s.bridge.config (session server_layout write s w rs).0.sent off
        (session-Opening server_layout write s w rs given)
