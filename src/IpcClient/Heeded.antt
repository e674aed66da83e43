-- ===== src/IpcClient/Heeded.antt =====
-- A session of ipc_client.cpp as pipe_server.cpp hears it.
use wivrn_nx_windows.Base.{
  ℕ, ◌+◌, ◌≡◌, ◌∙◌, refl, ap, ◌⊎◌, inl, inr, Bool, true, false, List, [], ◌∷◌, arith, map, All,
  if◌then◌else◌,
}
use wivrn_nx_windows.Staging.{StagingConfig}
use wivrn_nx_windows.Bridge.{Haptic, push_haptic}
use wivrn_nx_windows.Intake.{FrameReady, on_staging_config, on_frame_ready}
use wivrn_nx_windows.PipeServer
use wivrn_nx_windows.PipeServer.{
  PipeServer, Message, ShimHello, arrived, shim_magic, protocol_version, greets,
}
use wivrn_nx_windows.PipeServer.Loop
use wivrn_nx_windows.PipeServer.Session.{greeted}
use wivrn_nx_windows.IpcClient.{
  ToHelper, shim_hello, keep_alive, haptic, staging_config, frame_ready, Callback, Layout,
  IpcClient, Session, Request, Turn, payload_size, keep_alive_interval,
}
use wivrn_nx_windows.IpcClient.Loop.{send_message, converse, run_session}
use wivrn_nx_windows.IpcClient.Stable.{converse_stable}
use wivrn_nx_windows.IpcClient.Spoken.{IsPlain, Spoken, Speaks, Speaks-IsStable}

-- The type of a message, as its number.
unfoldable pub request_type : {F : Type 0} → ToHelper F → ℕ
request_type (shim_hello magic version process) = 1
request_type (keep_alive time) = 2
request_type (haptic h) = 3
request_type (staging_config s) = 200
request_type (frame_ready f) = 201

-- The message as it arrives at the other end of the pipe.
unfoldable pub wired : {F S : Type 0} → (ToHelper F → S) → ToHelper F → Message S
unfolding request_type payload_size
wired bytes m = record { size = 4 + payload_size m; raw_type = request_type m; payload = bytes m }

-- A payload that is copied into the bytes of a message is what is copied out of them.
pub record Copies {F S : Type 0} (layout : PipeServer.Layout F S) (bytes : ToHelper F → S)
    : Type 0 where
  pub hello :
      (magic version process : ℕ)
      → layout.hello (bytes (shim_hello magic version process))
        ≡ record { magic = magic; version = version; vrserver_pid = process }
  pub haptic : (h : Haptic F) → layout.haptic (bytes (haptic h)) ≡ h
  pub staging_config : (s : StagingConfig) → layout.staging_config (bytes (staging_config s)) ≡ s
  pub frame_ready : (f : FrameReady F) → layout.frame_ready (bytes (frame_ready f)) ≡ f

module _ {F E : Type 0} where
  -- What a message of a session does to the server.
  unfoldable pub heeded : PipeServer F E → ToHelper F → PipeServer F E
  heeded s (shim_hello magic version process) = s
  heeded s (keep_alive time) = record s { keepalives_seen = s.keepalives_seen + 1 }
  heeded s (haptic h) = record s {
    bridge = push_haptic s.bridge h;
    haptics_seen = s.haptics_seen + 1;
  }
  heeded s (staging_config c) = record s {
    intake = on_staging_config s.intake c;
    staging_configs_seen = s.staging_configs_seen + 1;
  }
  heeded s (frame_ready f) = record s {
    intake = on_frame_ready s.intake s.video f;
    frames_ready_seen = s.frames_ready_seen + 1;
  }

  unfoldable pub heeded_all : PipeServer F E → List (ToHelper F) → PipeServer F E
  unfolding heeded
  heeded_all s [] = s
  heeded_all s (m ∷ ms) = heeded_all (heeded s m) ms

module _ {F E S : Type 0} (layout : PipeServer.Layout F S) where
  -- The server reads the messages, one after the other, until it drops the client.
  unfoldable pub hear_all : PipeServer F E → List (Message S) → PipeServer F E × Bool
  hear_all s [] = (s, true)
  hear_all s (m ∷ ms) =
      let (s1, ok) = Loop.handle_message layout s m in
      let rest = hear_all s1 ms in if ok then rest else (s1, false)

  hear_nil : (s : PipeServer F E) → hear_all s [] ≡ (s, true)
  unfolding hear_all
  hear_nil s = refl

  hear_all_cons :
      (s s1 : PipeServer F E) (m : Message S) (ms : List (Message S))
      → Loop.handle_message layout s m ≡ (s1, true)
      → hear_all s (m ∷ ms) ≡ hear_all s1 ms
  unfolding hear_all
  hear_all_cons s s1 m ms h = ap (λ p. if p.1 then hear_all p.0 ms else (p.0, false)) h

module _ {F E S : Type 0} (layout : PipeServer.Layout F S) (bytes : ToHelper F → S)
    (copies : Copies layout bytes) where
  handle_message-heeded :
      (s : PipeServer F E) (m : ToHelper F)
      → IsPlain m
      → Loop.handle_message layout s (wired bytes m) ≡ (heeded s m, true)
  unfolding Loop.handle_message wired heeded IsPlain payload_size request_type
  handle_message-heeded s (shim_hello magic version process) plain = elim plain [ ]
  handle_message-heeded s (keep_alive time) plain = refl
  handle_message-heeded s (haptic h) plain = rw (copies.haptic h) refl
  handle_message-heeded s (staging_config c) plain = rw (copies.staging_config c) refl
  handle_message-heeded s (frame_ready f) plain = rw (copies.frame_ready f) refl

  hear_all-heeded_all :
      (s : PipeServer F E) (ms : List (ToHelper F))
      → All IsPlain ms
      → hear_all layout s (map (wired bytes) ms) ≡ (heeded_all s ms, true)
  unfolding heeded_all
  hear_all-heeded_all s [] plain = hear_nil layout s
  hear_all-heeded_all s (m ∷ ms) (one, plain) =
      hear_all_cons layout s (heeded s m) (wired bytes m) (map (wired bytes) ms)
        (handle_message-heeded s m one)
      ∙ hear_all-heeded_all (heeded s m) ms plain

module _ {F S : Type 0} (layout : PipeServer.Layout F S) (bytes : ToHelper F → S)
    (copies : Copies layout bytes) where
  greeted_hello :
      (process : ℕ)
      → greeted layout (arrived (wired bytes (shim_hello shim_magic protocol_version process)))
        ≡ true
  unfolding greeted greets wired payload_size request_type
  greeted_hello process = rw (copies.hello shim_magic protocol_version process) refl

module _ {F P : Type 0} (layout : Layout F P) (answers : Callback F → List (Request F))
    (write : ℕ → Bool) where
  hello-cases :
      (c : IpcClient F) (m : ToHelper F)
      → c.sent ≡ []
      → let p = send_message write c m in
        ((p.1 ≡ true) × (p.0.sent ≡ m ∷ []) × (p.0.pending ≡ c.pending))
        ⊎ ((p.1 ≡ false) × (p.0.sent ≡ []))
  unfolding send_message
  hello-cases c m h = ground arith

  -- A session says nothing, or the greeting first and nothing else that is one.
  run_session-Spoken :
      (c : IpcClient F) (process began : ℕ) (ts : List (Turn F P))
      → c.sent ≡ []
      → c.pending ≡ []
      → let out = run_session layout answers write c process began ts in
        (out.sent ≡ []) ⊎ Spoken process out.sent
  unfolding run_session Speaks Spoken
  run_session-Spoken c process began ts new nothing =
      let hello = shim_hello shim_magic protocol_version process in
      let (c1, ok) = send_message write c hello in
      let s : Session F = record {
        client = c1;
        got_helper_hello = false;
        got_config = false;
        next_keep_alive = began + keep_alive_interval;
      } in
      let talked = converse layout answers write began s ts in
      elim (hello-cases c hello new) [
        | inl (through, sent, same) ↦
            let speaks : Speaks process c1 = rw (sent, same, nothing) ((refl, tt), tt) in
            let h =
              converse_stable layout answers write (Speaks process)
                (Speaks-IsStable write process answers) began s ts speaks in
            rw through (inr h.0)
        | inr (fails, none_sent) ↦ rw fails (inl none_sent)
      ]

  heard_out :
      {E S : Type 0} (server : PipeServer.Layout F S) (bytes : ToHelper F → S)
      → Copies server bytes
      → (s : PipeServer F E) (process : ℕ) (out : List (ToHelper F)) → Spoken process out
      → let hello = shim_hello shim_magic protocol_version process in
        (rest : List (ToHelper F)) × (out ≡ hello ∷ rest)
        × (greeted server (arrived (wired bytes hello)) ≡ true)
        × (hear_all server s (map (wired bytes) rest) ≡ (heeded_all s rest, true))
  unfolding Spoken
  heard_out server bytes copies s process [] h = elim h [ ]
  heard_out server bytes copies s process (x ∷ xs) (hello, plain) = (
    xs,
    ap (λ y. y ∷ xs) hello,
    greeted_hello server bytes copies process,
    hear_all-heeded_all server bytes copies s xs plain,
  )

  -- Whatever a session of the shim's client sends, if it sends anything: the helper's pipe server
  -- takes the first message for the greeting of its version, and never drops the client over one of
  -- the others, each of which does its work on bridge and intake. The session begins with an empty
  -- queue, and what is copied into a message is what is copied out of it.
  pub run_session-heeded :
      {E S : Type 0} (server : PipeServer.Layout F S) (bytes : ToHelper F → S)
      (copies : Copies server bytes) (s : PipeServer F E) (c : IpcClient F) (process began : ℕ)
      (ts : List (Turn F P))
      → c.sent ≡ []
      → c.pending ≡ []
      → let out = (run_session layout answers write c process began ts).sent in
        let hello = shim_hello shim_magic protocol_version process in
        (out ≡ [])
        ⊎ ((rest : List (ToHelper F)) × (out ≡ hello ∷ rest)
            × (greeted server (arrived (wired bytes hello)) ≡ true)
            × (hear_all server s (map (wired bytes) rest) ≡ (heeded_all s rest, true)))
  run_session-heeded server bytes copies s c process began ts new nothing =
      let out = (run_session layout answers write c process began ts).sent in
      elim (run_session-Spoken c process began ts new nothing) [
        | inl silent ↦ inl silent
        | inr spoken ↦ inr (heard_out server bytes copies s process out spoken)
      ]
