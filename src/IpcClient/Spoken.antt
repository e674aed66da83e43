-- ===== src/IpcClient/Spoken.antt =====
-- What a session of ipc_client.cpp sends, and what pipe_server.cpp makes of it.
use wivrn_nx_windows.Base.{
  ℕ, ◌≡◌, ◌⊎◌, inl, inr, Bool, false, ltb, List, [], ◌∷◌, ◌++◌, arith, All, All-append, drop,
  length, if◌then◌else◌, either, leb, true,
}
use wivrn_nx_windows.PipeServer.{shim_magic, protocol_version}
use wivrn_nx_windows.IpcClient.{
  ToHelper, shim_hello, keep_alive, haptic, staging_config, frame_ready, Callback, IpcClient,
  Request, a_haptic, a_staging_config, a_frame_ready, max_pending_messages,
}
use wivrn_nx_windows.IpcClient.Loop.{
  enqueue, queue, queue_all, push, push_all, send_message, send_pending, flush_outgoing, fire,
}
use wivrn_nx_windows.IpcClient.Queue.{asks, Takes, Queued, queue_lem}
use wivrn_nx_windows.IpcClient.Stable.{IsStable}

module _ {F : Type 0} where
  -- The message is no greeting.
  unfoldable pub IsPlain : ToHelper F → Type 0
  IsPlain (shim_hello magic version process) = ⊥
  IsPlain (keep_alive time) = Unit
  IsPlain (haptic h) = Unit
  IsPlain (staging_config s) = Unit
  IsPlain (frame_ready f) = Unit

  -- The greeting of this process, then no other greeting.
  unfoldable pub Spoken : ℕ → List (ToHelper F) → Type 0
  Spoken process [] = ⊥
  Spoken process (x ∷ xs) = (x ≡ shim_hello shim_magic protocol_version process) × All IsPlain xs

  -- What was sent begins with the greeting, and what waits is none.
  unfoldable pub Speaks : ℕ → IpcClient F → Type 0
  unfolding Spoken
  Speaks process c = Spoken process c.sent × All IsPlain c.pending

  Spoken-append :
      (process : ℕ) (xs ys : List (ToHelper F))
      → Spoken process xs
      → All IsPlain ys
      → Spoken process (xs ++ ys)
  unfolding Spoken
  Spoken-append process [] ys h k = elim h [ ]
  Spoken-append process (x ∷ xs) ys (hello, h) k = (hello, All-append IsPlain xs ys h k)

  asks-IsPlain : (r : Request F) → IsPlain (asks r)
  unfolding asks IsPlain
  asks-IsPlain (a_haptic h) = tt
  asks-IsPlain (a_staging_config s) = tt
  asks-IsPlain (a_frame_ready f) = tt

  drop-IsPlain : (ms : List (ToHelper F)) → All IsPlain ms → All IsPlain (drop 1 ms)
  drop-IsPlain [] h = h
  drop-IsPlain (m ∷ ms) h = h.1

  queue-Speaks :
      (process : ℕ) (c : IpcClient F) (r : Request F)
      → Speaks process c
      → Speaks process (queue c r).0
  unfolding Speaks Takes Queued
  queue-Speaks process c r (spoken, plain) = elim (queue_lem c r) [
    | inl (taken, on, e) ↦ rw e (
      spoken,
      All-append IsPlain
          (if ltb (length c.pending) max_pending_messages then c.pending else drop 1 c.pending)
          (asks r ∷ [])
          (either (All IsPlain) (ltb (length c.pending) max_pending_messages) c.pending
            (drop 1 c.pending) plain (drop-IsPlain c.pending plain))
          (asks-IsPlain r, tt),
    )
    | inr (refused, e, why) ↦ rw e (spoken, plain)
  ]

  -- A message without a greeting, in the place of the oldest if there is no room.
  enqueue-Speaks :
      (process : ℕ) (c : IpcClient F) (m : ToHelper F) (evictable : Bool)
      → IsPlain m
      → Speaks process c
      → Speaks process (enqueue c m evictable).0
  unfolding enqueue Speaks
  enqueue-Speaks process c m evictable one (spoken, plain) =
      let over : IpcClient F = record c { pending = drop 1 c.pending ++ (m ∷ []) } in
      let behind : IpcClient F = record c { pending = c.pending ++ (m ∷ []) } in
      let holds : IpcClient F × Bool → Type 0 = λ p. Speaks process p.0 in
      either holds (leb max_pending_messages (length c.pending))
        (if evictable then (c, false) else (over, true)) (behind, true)
        (either holds evictable (c, false) (over, true) (spoken, plain)
          (
            spoken,
            All-append IsPlain (drop 1 c.pending) (m ∷ []) (drop-IsPlain c.pending plain) (one, tt),
          ))
        (spoken, All-append IsPlain c.pending (m ∷ []) plain (one, tt))

  push-Speaks :
      (process : ℕ) (c : IpcClient F) (r : Request F) → Speaks process c → Speaks process (push c r)
  unfolding push IsPlain
  push-Speaks process c (a_haptic x) h = enqueue-Speaks process c (haptic x) true tt h
  push-Speaks process c (a_staging_config x) h =
      enqueue-Speaks process c (staging_config x) false tt h
  push-Speaks process c (a_frame_ready x) h = enqueue-Speaks process c (frame_ready x) true tt h

  push_all-Speaks :
      (process : ℕ) (c : IpcClient F) (rs : List (Request F))
      → Speaks process c
      → Speaks process (push_all c rs)
  unfolding push_all
  push_all-Speaks process c [] h = h
  push_all-Speaks process c (r ∷ rs) h =
      push_all-Speaks process (push c r) rs (push-Speaks process c r h)

  queue_all-Speaks :
      (process : ℕ) (c : IpcClient F) (rs : List (Request F))
      → Speaks process c
      → Speaks process (queue_all c rs)
  unfolding queue_all
  queue_all-Speaks process c [] h = h
  queue_all-Speaks process c (r ∷ rs) h =
      queue_all-Speaks process (queue c r).0 rs (queue-Speaks process c r h)

module _ {F : Type 0} (write : ℕ → Bool) (process : ℕ) where
  send_message-cases :
      (c : IpcClient F) (m : ToHelper F)
      → let d = (send_message write c m).0 in
        ((d.sent ≡ c.sent ++ (m ∷ [])) ⊎ (d.sent ≡ c.sent)) × (d.pending ≡ c.pending)
  unfolding send_message
  send_message-cases c m = ground arith

  send_message-Speaks :
      (c : IpcClient F) (m : ToHelper F)
      → IsPlain m
      → Speaks process c
      → Speaks process (send_message write c m).0
  unfolding Speaks
  send_message-Speaks c m plain (spoken, waiting) =
      let (how, same) = send_message-cases c m in
      elim how [
        | inl out ↦
            rw (out, same) (Spoken-append process c.sent (m ∷ []) spoken (plain, tt), waiting)
        | inr out ↦ rw (out, same) (spoken, waiting)
      ]

  send_pending-Speaks :
      (c : IpcClient F) (ms : List (ToHelper F))
      → All IsPlain ms
      → Speaks process c
      → Speaks process (send_pending write c ms).0
  unfolding send_pending Speaks
  send_pending-Speaks c [] plain h = h
  send_pending-Speaks c (m ∷ ms) (one, plain) (spoken, waiting) =
      let c0 : IpcClient F = record c { pending = ms } in
      let (c1, ok) = send_message write c0 m in
      let h1 = send_message-Speaks c0 m one (spoken, plain) in
      either (λ p. Speaks process p.0) ok (send_pending write c1 ms) (c1, false)
        (send_pending-Speaks c1 ms plain h1) h1

  pub Speaks-IsStable :
      (answers : Callback F → List (Request F)) → IsStable answers write (Speaks process)
  unfolding fire Speaks flush_outgoing IsPlain
  Speaks-IsStable answers = record {
    fires =
        λ c e h. queue_all-Speaks process (record c { heard = c.heard ++ (e ∷ []) }) (answers e) h;
    connects = λ c h. h;
    runs = λ c on h. h;
    reads = λ c on h. h;
    queues = λ c rs h. queue_all-Speaks process c rs h;
    pushes = λ c rs h. push_all-Speaks process c rs h;
    beats = λ c qpc h. send_message-Speaks c (keep_alive qpc) tt h;
    flushes = λ c h. send_pending-Speaks c c.pending h.1 h;
  }
