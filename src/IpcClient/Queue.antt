-- ===== src/IpcClient/Queue.antt =====
-- The queue of ipc_client.cpp: its bound, what is refused, and the order in which it is sent.
use wivrn_nx_windows.Base.{
  ℕ, ◌≤◌, ◌≡◌, ◌∙◌, refl, sym, ap, append-nil, append_assoc, ◌⊎◌, inl, inr, Bool, true, false, List,
  [], ◌∷◌, ◌++◌, length, drop, ltb, arith, length-append, length-drop, if◌then◌else◌,
}
use wivrn_nx_windows.IpcClient.{
  ToHelper, IpcClient, Request, a_haptic, a_staging_config, a_frame_ready, haptic, staging_config,
  frame_ready, payload_size, max_pending_messages,
}
use wivrn_nx_windows.IpcClient.Loop.{
  admits, enqueue, queue_message, queue, queue_all, send_message, send_pending, flush_outgoing,
}

module _ {F : Type 0} where
  -- The message of a request, and whether it may be refused.
  unfoldable pub asks : Request F → ToHelper F
  asks (a_haptic h) = haptic h
  asks (a_staging_config s) = staging_config s
  asks (a_frame_ready f) = frame_ready f

  unfoldable pub is_evictable : Request F → Bool
  is_evictable (a_haptic h) = true
  is_evictable (a_staging_config s) = false
  is_evictable (a_frame_ready f) = true

  -- The client is the same but for the queue.
  abbrev pub SameBut : IpcClient F → IpcClient F → Type 0
  SameBut c d = d ≡ record c { pending = d.pending }

  -- The message is at the end of the queue, behind all that waited if there was room, and behind
  -- all but the first if not.
  unfoldable pub Queued : IpcClient F → ToHelper F → IpcClient F → Type 0
  Queued c m d = d ≡ record c {
    pending =
        (if ltb (length c.pending) max_pending_messages then c.pending else drop 1 c.pending)
        ++ (m ∷ []);
  }

  -- The answer says whether the message is in the queue. It is refused if there is no session, or if
  -- it may be and the queue is full.
  unfoldable pub Takes : IpcClient F → Request F → IpcClient F × Bool → Type 0
  unfolding asks is_evictable Queued
  Takes c r p =
      ((p.1 ≡ true) × (c.connected ≡ true) × Queued c (asks r) p.0)
      ⊎ ((p.1 ≡ false)
          × (p.0 ≡ c)
          × ((c.connected ≡ false)
              ⊎ ((is_evictable r ≡ true) × (max_pending_messages ≤ length c.pending))))

  -- What is queued is at the end of the queue, and a full queue gives up its oldest message for a
  -- ring of textures, which is never refused in a session; the rest of the client does not change.
  pub queue_lem : (c : IpcClient F) (r : Request F) → Takes c r (queue c r)
  unfolding queue queue_message admits enqueue payload_size Takes asks is_evictable Queued
  queue_lem c (a_haptic h) = ground arith
  queue_lem c (a_staging_config s) = ground arith
  queue_lem c (a_frame_ready f) = ground arith

  queue_bounded :
      (c : IpcClient F) (r : Request F)
      → length c.pending ≤ max_pending_messages
      → length (queue c r).0.pending ≤ max_pending_messages
  unfolding Takes Queued
  queue_bounded c r h =
      let room = length-append c.pending (asks r ∷ []) in
      let full = length-append (drop 1 c.pending) (asks r ∷ []) in
      let dropped = length-drop 1 c.pending in let lem = queue_lem c r in ground arith

  pub queue_all_bounded :
      (c : IpcClient F) (rs : List (Request F))
      → length c.pending ≤ max_pending_messages
      → length (queue_all c rs).pending ≤ max_pending_messages
  unfolding queue_all
  queue_all_bounded c [] h = h
  queue_all_bounded c (r ∷ rs) h = queue_all_bounded (queue c r).0 rs (queue_bounded c r h)

  refused : (c : IpcClient F) (r : Request F) → c.connected ≡ false → queue c r ≡ (c, false)
  unfolding queue queue_message admits
  refused c (a_haptic x) h = ground arith
  refused c (a_staging_config x) h = ground arith
  refused c (a_frame_ready x) h = ground arith

  -- Without a session nothing is queued.
  pub queue_all_refused :
      (c : IpcClient F) (rs : List (Request F)) → c.connected ≡ false → queue_all c rs ≡ c
  unfolding queue_all
  queue_all_refused c [] h = refl
  queue_all_refused c (r ∷ rs) h =
      rw (ap (λ p. queue_all p.0 rs) (refused c r h)) (queue_all_refused c rs h)

module _ {F : Type 0} (write : ℕ → Bool) where
  -- All that waited went out in order, or a write failed: what was before it went out, it is lost,
  -- and what was behind it waits.
  unfoldable pub Flushes : IpcClient F → IpcClient F × Bool → Type 0
  Flushes c p =
      ((p.1 ≡ true) × (p.0.sent ≡ c.sent ++ c.pending) × (p.0.pending ≡ []))
      ⊎ ((p.1 ≡ false)
          × (gone : List (ToHelper F)) × (lost : ToHelper F) × (left : List (ToHelper F))
          × (c.pending ≡ gone ++ (lost ∷ left))
          × (p.0.sent ≡ c.sent ++ gone)
          × (p.0.pending ≡ left))

  send_message-cases :
      (c : IpcClient F) (m : ToHelper F)
      → let p = send_message write c m in
        ((p.1 ≡ true) × (p.0.sent ≡ c.sent ++ (m ∷ [])) × (p.0.pending ≡ c.pending))
        ⊎ ((p.1 ≡ false) × (p.0.sent ≡ c.sent) × (p.0.pending ≡ c.pending))
  unfolding send_message
  send_message-cases c m = ground arith

  Flushes-one :
      (c c1 : IpcClient F) (m : ToHelper F) (p : IpcClient F × Bool)
      → c.pending ≡ m ∷ c1.pending
      → c1.sent ≡ c.sent ++ (m ∷ [])
      → Flushes c1 p
      → Flushes c p
  unfolding Flushes
  Flushes-one c c1 m p e sent (inl (ok, out, left)) = inl (
    ok,
    out
        ∙ ap (λ xs. xs ++ c1.pending) sent
        ∙ append_assoc c.sent (m ∷ []) c1.pending
        ∙ ap (λ xs. c.sent ++ xs) (sym e),
    left,
  )
  Flushes-one c c1 m p e sent (inr (failed, gone, lost, left, split, out, rest)) = inr (
    failed,
    m ∷ gone,
    lost,
    left,
    e ∙ ap (λ xs. m ∷ xs) split,
    out ∙ ap (λ xs. xs ++ gone) sent ∙ append_assoc c.sent (m ∷ []) gone,
    rest,
  )

  send_pending-Flushes :
      (c : IpcClient F) (ms : List (ToHelper F))
      → c.pending ≡ ms
      → Flushes c (send_pending write c ms)
  unfolding send_pending Flushes
  send_pending-Flushes c [] e = inl (refl, rw e (sym (append-nil c.sent)), e)
  send_pending-Flushes c (m ∷ ms) e =
      let c0 : IpcClient F = record c { pending = ms } in
      let (c1, ok) = send_message write c0 m in
      elim (send_message-cases c0 m) [
        | inl (through, out, left) ↦
            let whole = send_pending-Flushes c1 ms left in
            rw through (
              Flushes-one c c1 m (send_pending write c1 ms) (e ∙ ap (λ xs. m ∷ xs) (sym left)) out
                whole)
        | inr (fails, out, left) ↦
            rw fails (inr (refl, [], m, ms, e, out ∙ sym (append-nil c.sent), left))
      ]

  -- Flushing sends all of the queue, in its order, and empties it, or the write of one failed: those
  -- before it were sent, it is lost, and those behind it are left.
  pub flush_outgoing-Flushes : (c : IpcClient F) → Flushes c (flush_outgoing write c)
  unfolding flush_outgoing
  flush_outgoing-Flushes c = send_pending-Flushes c c.pending refl
