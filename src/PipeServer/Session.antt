-- ===== src/PipeServer/Session.antt =====
-- The handshake of pipe_server.cpp and the connection that follows it.
use wivrn_nx_windows.Base.{
  ℕ, ◌+◌, ◌≡◌, ◌≢◌, ◌⊎◌, refl, inl, inr, Bool, true, false, not, ◌&&◌, ltb, if◌then◌else◌, List, [],
  ◌∷◌, ◌++◌, arith, Bool-cases, either,
}
use wivrn_nx_windows.Bridge.{HmdConfig, Outgoing, hmd_config, fresh, collect}
use wivrn_nx_windows.Bridge.First.{Starts-cons, collect-Starts}
use wivrn_nx_windows.Intake.{set_vrserver_pid, on_shim_gone}
use wivrn_nx_windows.PipeServer.{
  PipeServer, helper_hello, bridged, Layout, Message, Wait, arrived, elapsed, stopped, broken,
  Round, Served, client_gone, payload_size, helper_magic, protocol_version, wait_for_message,
  greets,
}
use wivrn_nx_windows.PipeServer.Loop.{
  send_message, send_all, counted, flush_bridge, welcome, handshake, serve, connected, session,
  run_client,
}
use wivrn_nx_windows.PipeServer.Opening.{
  Opened, Opening, Opened-Opening, send_all-Opened, serve-Opened,
}

module _ {F E : Type 0} (write : ℕ → Bool) where
  -- What was sent is a beginning, and all of one if the client is still there.
  abbrev Begins : HmdConfig F → PipeServer F E × Bool → Type 0
  Begins c p = Opening c p.0.sent × (p.1 ≡ true → Opened c p.0.sent)

  first-Begins :
      (s : PipeServer F E) (ms : List (Outgoing F)) (c : HmdConfig F)
      → s.sent ≡ helper_hello helper_magic protocol_version ∷ []
      → Begins c (send_all write s (hmd_config c ∷ ms))
  unfolding send_all send_message payload_size counted Opening Opened
  first-Begins s ms c h =
      let s1 : PipeServer F E = record s {
        writes = s.writes + 1;
        sent = s.sent ++ (bridged (hmd_config c) ∷ []);
      } in
      let opened : Opened c s1.sent = rw h (refl, refl, tt) in
      let later = send_all-Opened write c s1 ms opened in
      elim (Bool-cases (write s.writes)) [
        | inl through ↦
            rw through (Opened-Opening c (send_all write s1 ms).0.sent later, λ ok. later)
        | inr fails ↦ rw fails (rw h (refl, λ ok. ground arith))
      ]

  flush_bridge-Begins :
      (s : PipeServer F E)
      → s.cursor ≡ fresh
      → s.bridge.config_gen ≢ 0
      → s.sent ≡ helper_hello helper_magic protocol_version ∷ []
      → Begins s.bridge.config (flush_bridge write s)
  unfolding flush_bridge
  flush_bridge-Begins s new given h =
      let (ys, e) =
        Starts-cons (hmd_config s.bridge.config) (collect s.bridge fresh []).1
          (collect-Starts s.bridge given) in
      rw new (
        rw e
          (first-Begins (record s { cursor = (collect s.bridge fresh []).0 }) ys s.bridge.config h))

-- The wait ended in the greeting of a shim of this version.
unfoldable pub greeted : {F P : Type 0} → Layout F P → Wait P → Bool
unfolding greets
greeted layout (arrived m) = not (ltb m.size 4) && greets layout m
greeted layout elapsed = false
greeted layout stopped = false
greeted layout broken = false

-- The wait brings no greeting of a shim of version 3: no message at all, or one of another type,
-- size, magic number or version.
abbrev pub IsStranger : {F P : Type 0} → Layout F P → Wait P → Type 0
IsStranger layout (arrived m) =
    (m.raw_type ≢ 1)
    ⊎ (m.size ≢ 16)
    ⊎ ((layout.hello m.payload).magic ≢ 1_398_296_151)
    ⊎ ((layout.hello m.payload).version ≢ 3)
IsStranger layout elapsed = Unit {0}
IsStranger layout stopped = Unit {0}
IsStranger layout broken = Unit {0}

greeted-IsStranger :
    {F P : Type 0} (layout : Layout F P) (w : Wait P)
    → IsStranger layout w
    → greeted layout w ≡ false
unfolding greeted greets
greeted-IsStranger layout (arrived m) h = ground arith
greeted-IsStranger layout elapsed h = refl
greeted-IsStranger layout stopped h = refl
greeted-IsStranger layout broken h = refl

module _ {F E P : Type 0} (layout : Layout F P) (write : ℕ → Bool) where
  welcome-Begins :
      (s : PipeServer F E) (m : Message P)
      → s.cursor ≡ fresh
      → s.bridge.config_gen ≢ 0
      → s.sent ≡ []
      → Begins write s.bridge.config (welcome layout write s m)
  unfolding welcome send_message payload_size Opening Opened
  welcome-Begins s m new given h =
      let s1 : PipeServer F E = record s {
        intake = set_vrserver_pid s.intake (layout.hello m.payload).vrserver_pid;
        writes = s.writes + 1;
        sent = s.sent ++ (helper_hello helper_magic protocol_version ∷ []);
      } in
      let greeted : s1.sent ≡ helper_hello helper_magic protocol_version ∷ [] = rw h refl in
      elim (Bool-cases (write s.writes)) [
        | inl through ↦ rw through (flush_bridge-Begins write s1 new given greeted)
        | inr fails ↦ rw fails (rw h (tt, λ ok. ground arith))
      ]

  dropped-Begins : (c : HmdConfig F) (s : PipeServer F E) → s.sent ≡ [] → Begins write c (s, false)
  unfolding Opening
  dropped-Begins c s h = (rw h tt, λ ok. ground arith)

  handshake_long :
      (s : PipeServer F E) (m : Message P)
      → ltb m.size 4 ≡ false
      → handshake layout write s (arrived m)
        ≡ (if greets layout m then welcome layout write s m else (s, false))
  unfolding handshake wait_for_message
  handshake_long s m long = rw (long, handshake, wait_for_message) refl

  handshake-Begins :
      (s : PipeServer F E) (w : Wait P)
      → s.cursor ≡ fresh
      → s.bridge.config_gen ≢ 0
      → s.sent ≡ []
      → Begins write s.bridge.config (handshake layout write s w)
  unfolding handshake wait_for_message Opening
  handshake-Begins s (arrived m) new given h =
      let c = s.bridge.config in
      let holds : PipeServer F E × Bool → Type 0 = Begins write c in
      let nothing = dropped-Begins c s h in
      elim (Bool-cases (ltb m.size 4)) [
        | inl short ↦ rw (short, handshake, wait_for_message) nothing
        | inr long ↦ rw (handshake_long s m long) (
            either holds (greets layout m) (welcome layout write s m) (s, false)
              (welcome-Begins s m new given h) nothing)
      ]
  handshake-Begins s elapsed new given h = dropped-Begins s.bridge.config s h
  handshake-Begins s stopped new given h = dropped-Begins s.bridge.config s h
  handshake-Begins s broken new given h = dropped-Begins s.bridge.config s h

  -- A client that passed the handshake is served, and another is not.
  served-Opening :
      (c : HmdConfig F) (ok : Bool) (x y : PipeServer F E × Served)
      → (ok ≡ true → Opening c x.0.sent)
      → Opening c y.0.sent
      → Opening c (if ok then x else y).0.sent
  served-Opening c true x y h k = h refl
  served-Opening c false x y h k = k

  -- Whatever the client and Win32 do, what the client is sent is a beginning of the greeting of
  -- this version, the configuration that the bridge has when the client connects, and the rest, with no other greeting.
  -- The bridge has had a configuration.
  pub session-Opening :
      (s : PipeServer F E) (w : Wait P) (rs : List (Round F E P))
      → s.bridge.config_gen ≢ 0
      → Opening s.bridge.config (session layout write s w rs).0.sent
  unfolding session connected
  session-Opening s w rs given =
      let (s1, ok) = handshake layout write (connected s) w in
      let (begun, opened) = handshake-Begins (connected s) w refl given refl in
      served-Opening s.bridge.config ok (serve layout write s1 rs) (s1, client_gone)
        (λ passed.
          Opened-Opening s.bridge.config (serve layout write s1 rs).0.sent
            (serve-Opened layout write s.bridge.config s1 rs (opened passed)))
        begun

  refused-handshake :
      (s : PipeServer F E) (w : Wait P)
      → greeted layout w ≡ false
      → handshake layout write s w ≡ (s, false)
  unfolding handshake wait_for_message greeted
  refused-handshake s (arrived m) h = elim (Bool-cases (ltb m.size 4)) [
    | inl short ↦ rw (short, handshake, wait_for_message) refl
    | inr long ↦
        let unknown : greets layout m ≡ false = ground arith in
        rw (handshake_long s m long) (rw unknown refl)
  ]
  refused-handshake s elapsed h = refl
  refused-handshake s stopped h = refl
  refused-handshake s broken h = refl

  refused-session :
      (s : PipeServer F E) (w : Wait P) (rs : List (Round F E P))
      → greeted layout w ≡ false
      → session layout write s w rs ≡ (connected s, client_gone)
  unfolding session
  refused-session s w rs h = rw (refused-handshake (connected s) w h) refl

  -- A client whose first message is not the greeting of a shim of this version is sent nothing and
  -- dropped, whatever it would send next. Bridge and video are as before, and the intake is told
  -- that the shim is gone. The next client is waited for unless the shutdown event is seen after it.
  pub run_client_refused :
      (s : PipeServer F E) (w : Wait P) (rs : List (Round F E P)) (is_shutdown : Bool)
      → IsStranger layout w
      → let (s', keep) = run_client layout write s w rs is_shutdown in
        (s'.sent ≡ [])
        × (s'.bridge ≡ s.bridge)
        × (s'.video ≡ s.video)
        × (s'.intake ≡ on_shim_gone s.intake)
        × (keep ≡ not is_shutdown)
  unfolding run_client connected
  run_client_refused s w rs is_shutdown h =
      rw (refused-session s w rs (greeted-IsStranger layout w h), run_client)
        (refl, refl, refl, refl, refl)
