-- ===== src/IpcClient/Sessions.antt =====
-- The sessions of ipc_client.cpp: where they begin, what they keep and how they end.
use wivrn_nx_windows.Base.{
  ℕ, ◌-◌, ◌≡◌, ◌∙◌, refl, sym, ◌⊎◌, inl, inr, Bool, true, false, not, ◌&&◌, ◌||◌, ltb, ◌==◌, some,
  List, [], ◌∷◌, ◌++◌, arith, if◌then◌else◌, either,
}
use wivrn_nx_windows.Bridge.{HmdConfig}
use wivrn_nx_windows.PipeServer.{helper_magic, Message, protocol_version}
use wivrn_nx_windows.IpcClient.{
  Callback, on_config, on_pose, on_device_add, on_device_remove, on_input, on_frame_done,
  on_session_ready, MessageType, message_type, helper_hello, hmd_config, pose_update, device_add,
  device_remove, input_update, frame_done, unknown, Layout, ReadResult, message, timeout, stopped,
  error, interrupted, IpcClient, Session, Request,
}
use wivrn_nx_windows.IpcClient.Loop.{
  fire, tell, tell_configured, dispatch, handle_message, get_ready, hear, listen,
}
use wivrn_nx_windows.IpcClient.Phases.{
  Phase, offline, configured, ready, step, after_append, IsIn, Quiet, queue_all-Quiet,
}

module _ {F : Type 0} where
  -- Between two passes the session is connected and the driver ready if it has a configuration, and
  -- neither if not.
  unfoldable pub IsSettled : Session F → Type 0
  IsSettled s =
      ((s.got_config ≡ true) × (s.client.connected ≡ true) × IsIn ready s.client)
      ⊎ ((s.got_config ≡ false) × (s.client.connected ≡ false) × IsIn offline s.client)

  -- It is, or it just had its configuration.
  unfoldable pub IsHandled : Session F → Type 0
  unfolding IsSettled
  IsHandled s =
      IsSettled s
      ⊎ ((s.got_config ≡ true) × (s.client.connected ≡ false) × IsIn configured s.client)

  IsIn-Quiet : (p : Phase) (c d : IpcClient F) → Quiet c d → IsIn p c → IsIn p d
  unfolding IsIn Quiet
  IsIn-Quiet p c d (h, k) i = rw k i

  pub IsSettled-Quiet :
      (s : Session F) (d : IpcClient F) (wait : ℕ)
      → Quiet s.client d
      → IsSettled s
      → IsSettled (record s { client = d; next_keep_alive = wait })
  unfolding IsSettled Quiet
  IsSettled-Quiet s d wait q (inl (given, on, i)) =
      inl (given, q.0 ∙ on, IsIn-Quiet ready s.client d q i)
  IsSettled-Quiet s d wait q (inr (given, on, i)) =
      inr (given, q.0 ∙ on, IsIn-Quiet offline s.client d q i)

module _ {F : Type 0} (answers : Callback F → List (Request F)) where
  pub fire-Quiet :
      (c : IpcClient F) (e : Callback F)
      → Quiet (record c { heard = c.heard ++ (e ∷ []) }) (fire answers c e)
  unfolding fire
  fire-Quiet c e = queue_all-Quiet (record c { heard = c.heard ++ (e ∷ []) }) (answers e)

  pub fire-IsIn :
      (p q : Phase) (c : IpcClient F) (e : Callback F)
      → step p e ≡ some q
      → IsIn p c
      → IsIn q (fire answers c e)
  unfolding IsIn
  fire-IsIn p q c e h i =
      IsIn-Quiet q (record c { heard = c.heard ++ (e ∷ []) }) (fire answers c e) (fire-Quiet c e)
        (after_append (some offline) c.heard e p i ∙ h)

  pub fire-connected :
      (c : IpcClient F) (e : Callback F) → (fire answers c e).connected ≡ c.connected
  unfolding Quiet
  fire-connected c e = (fire-Quiet c e).0

  -- The client is as it was, or has heard a callback that any session may.
  unfoldable pub Hears : Session F → Session F × Bool → Type 0
  unfolding IsHandled
  Hears s p = (p.0 ≡ s) ⊎ ((p.1 ≡ true) × IsHandled p.0)

  tell_early :
      (s : Session F) (fits : Bool) (e : Callback F)
      → s.got_config ≡ false
      → tell_configured answers s fits e ≡ (s, true)
  unfolding tell_configured
  tell_early s fits e h = ground arith

  tell_later :
      (s : Session F) (fits : Bool) (e : Callback F)
      → s.got_config ≡ true
      → tell_configured answers s fits e ≡ tell answers s fits e
  unfolding tell_configured
  tell_later s fits e h = ground arith

  tell-Hears :
      (s : Session F) (fits : Bool) (e : Callback F)
      → step ready e ≡ some ready
      → s.got_config ≡ true
      → s.client.connected ≡ true
      → IsIn ready s.client
      → Hears s (tell answers s fits e)
  unfolding tell Hears IsHandled IsSettled
  tell-Hears s false e h given on i = inl refl
  tell-Hears s true e h given on i = inr (
    refl,
    inl (inl (given, fire-connected s.client e ∙ on, fire-IsIn ready ready s.client e h i)),
  )

  same-Hears : (s : Session F) (ok : Bool) → Hears s (s, ok)
  unfolding Hears
  same-Hears s ok = inl refl

  tell_configured-Hears :
      (s : Session F) (fits : Bool) (e : Callback F)
      → step ready e ≡ some ready
      → IsSettled s
      → Hears s (tell_configured answers s fits e)
  unfolding IsSettled
  tell_configured-Hears s fits e h (inl (given, on, i)) =
      rw (tell_later s fits e given) (tell-Hears s fits e h given on i)
  tell_configured-Hears s fits e h (inr (given, on, i)) =
      rw (tell_early s fits e given) (same-Hears s true)

  -- A configuration, the first or a later one.
  config-Hears :
      (s : Session F) (c : HmdConfig F)
      → IsSettled s
      → Hears s (tell answers (record s { got_config = true }) true (on_config c))
  unfolding tell Hears IsHandled IsSettled step
  config-Hears s c (inl (given, on, i)) =
      let e = on_config c in
      inr (
        refl,
        inl (inl (refl, fire-connected s.client e ∙ on, fire-IsIn ready ready s.client e refl i)),
      )
  config-Hears s c (inr (given, on, i)) =
      let e = on_config c in
      inr (
        refl,
        inr (refl, fire-connected s.client e ∙ on, fire-IsIn offline configured s.client e refl i),
      )

  -- The greeting.
  greeted-Hears :
      (s : Session F) → IsSettled s → Hears s (record s { got_helper_hello = true }, true)
  unfolding Hears IsHandled IsSettled
  greeted-Hears s (inl (given, on, i)) = inr (refl, inl (inl (given, on, i)))
  greeted-Hears s (inr (given, on, i)) = inr (refl, inl (inr (given, on, i)))

  pub ready_already : (s : Session F) → s.client.connected ≡ s.got_config → get_ready answers s ≡ s
  unfolding get_ready
  ready_already s h = ground arith

  pub ready_now :
      (s : Session F)
      → s.got_config ≡ true
      → s.client.connected ≡ false
      → get_ready answers s ≡ record s {
        client = fire answers (record (s.client) { connected = true }) on_session_ready;
      }
  unfolding get_ready
  ready_now s h k = ground arith

  get_ready-IsSettled : (s : Session F) → IsHandled s → IsSettled (get_ready answers s)
  unfolding IsHandled IsSettled step IsIn
  get_ready-IsSettled s (inl (inl (given, on, i))) =
      rw (ready_already s (on ∙ sym given)) (inl (given, on, i))
  get_ready-IsSettled s (inl (inr (given, on, i))) =
      rw (ready_already s (on ∙ sym given)) (inr (given, on, i))
  get_ready-IsSettled s (inr (given, off, i)) =
      let c : IpcClient F = record (s.client) { connected = true } in
      rw (ready_now s given off) (
        inl (
          given,
          fire-connected c on_session_ready,
          fire-IsIn configured ready c on_session_ready refl i,
        ))

module _ {F P : Type 0} (layout : Layout F P) (answers : Callback F → List (Request F)) where
  dispatch-Hears :
      (s : Session F) (k : MessageType) (size : ℕ) (p : P)
      → IsSettled s
      → Hears answers s (dispatch layout answers s k size p)
  unfolding dispatch step
  dispatch-Hears s helper_hello size p h =
      let hello = layout.hello p in
      either (Hears answers s)
        (size == 8 && hello.magic == helper_magic && hello.version == protocol_version)
        (record s { got_helper_hello = true }, true) (s, false) (greeted-Hears answers s h)
        (same-Hears answers s false)
  dispatch-Hears s hmd_config size p h =
      let c = layout.hmd_config p in
      either (Hears answers s) (not s.got_helper_hello || not (size == 104)) (s, false)
        (tell answers (record s { got_config = true }) true (on_config c))
        (same-Hears answers s false) (config-Hears answers s c h)
  dispatch-Hears s pose_update size p h =
      tell_configured-Hears answers s (size == 120) (on_pose (layout.pose_update p)) refl h
  dispatch-Hears s device_add size p h =
      tell_configured-Hears answers s (size == 4) (on_device_add (layout.device_add p)) refl h
  dispatch-Hears s device_remove size p h =
      tell_configured-Hears answers s (size == 4) (on_device_remove (layout.device_remove p)) refl h
  dispatch-Hears s input_update size p h =
      tell_configured-Hears answers s (size == 36) (on_input (layout.input_update p)) refl h
  dispatch-Hears s frame_done size p h =
      tell_configured-Hears answers s (size == 16) (on_frame_done (layout.frame_done p)) refl h
  dispatch-Hears s unknown size p h = same-Hears answers s true

  handle_message-Hears :
      (s : Session F) (m : Message P)
      → IsSettled s
      → Hears answers s (handle_message layout answers s m)
  unfolding handle_message
  handle_message-Hears s m h =
      let size = m.size - 4 in
      let kind = message_type m.raw_type in
      either (Hears answers s) (ltb m.size 4) (s, false)
        (dispatch layout answers s kind size m.payload) (same-Hears answers s false)
        (dispatch-Hears s kind size m.payload h)

  ready-IsSettled :
      (s : Session F) (p : Session F × Bool)
      → IsSettled s
      → Hears answers s p
      → IsSettled (if p.1 then get_ready answers p.0 else p.0)
  unfolding Hears IsHandled
  ready-IsSettled s (t, ok) h (inl same) =
      either IsSettled ok (get_ready answers t) t (get_ready-IsSettled answers t (inl (rw same h)))
        (rw same h)
  ready-IsSettled s (t, ok) h (inr (good, k)) = rw good (get_ready-IsSettled answers t k)

  pub hear-IsSettled :
      (s : Session F) (m : Message P) → IsSettled s → IsSettled (hear layout answers s m).0
  unfolding hear
  hear-IsSettled s m h =
      ready-IsSettled s (handle_message layout answers s m) h (handle_message-Hears s m h)

  pub listen-IsSettled :
      (began : ℕ) (s : Session F) (r : ReadResult P) (later : ℕ)
      → IsSettled s
      → IsSettled (listen layout answers began s r later).0
  unfolding listen
  listen-IsSettled began s (message m) later h = hear-IsSettled s m h
  listen-IsSettled began s timeout later h = h
  listen-IsSettled began s stopped later h = h
  listen-IsSettled began s error later h = h
  listen-IsSettled began s interrupted later h = h
