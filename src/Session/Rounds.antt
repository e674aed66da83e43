-- ===== src/Session/Rounds.antt =====
-- A round of pump_video of session.cpp: that it takes a frame off the queue or ends the loop.
use wivrn_nx_windows.Base.{
  ℕ, ◌+◌, ◌<◌, ◌≡◌, ◌∙◌, refl, ap, sym, subst, ◌⊎◌, inl, inr, Bool, true, false, Option, none, some,
  List, [], ◌∷◌, ◌++◌, length, drop, ltb, ◌==◌, arith, List-cases, Option-cases, if◌then◌else◌,
}
use wivrn_nx_windows.Base.Int.{pos}
use wivrn_nx_windows.VideoBridge.{EncodedFrame}
use wivrn_nx_windows.Pacer.{WindowFloat, make}
use wivrn_nx_windows.Sender.{Wire, Message, PacedSender, begin, pump, abort}
use wivrn_nx_windows.Sender.Stream.{IsMid}
use wivrn_nx_windows.Sender.Pump.{pump_lem}
use wivrn_nx_windows.Sender.Due.{IsLater, pump-IsLater}
use wivrn_nx_windows.Bitrate.{Doubles}
use wivrn_nx_windows.Session.{Link, Fate, Video, nothing, skipped, frame}
use wivrn_nx_windows.Session.Send.{
  frame_of, budget, begin_video_frame, from_queue, start_next, finish_video_frame, send_some,
}
use wivrn_nx_windows.Session.Trim.{IsSuffix}

module _ {F : Type 0} {w : Wire} where
  -- The sender is in the middle of the frame.
  abbrev pub Sends : EncodedFrame F → PacedSender w → Type 0
  Sends f s =
      (s.bytes ≡ f.bytes)
      × (s.frame.frame_index ≡ f.frame_id)
      × (s.frame.stream_index ≡ f.stream_index)
      × (s.frame.idr ≡ f.idr)
      × IsMid s

module _ {F D : Type 0} {w : Wire} where
  -- The sender is idle, or in the middle of the first frame of the queue.
  unfoldable pub IsWell : Video F D w → Type 0
  IsWell v =
      (v.sender.active ≡ false)
      ⊎ ((v.sender.active ≡ true)
          × (f : EncodedFrame F) × (fs : List (EncodedFrame F)) × (v.queue ≡ f ∷ fs)
          × Sends f v.sender)

  -- All is sent, or what is next has to wait for a time that is named.
  unfoldable pub Rests : ℕ → Video F D w → Type 0
  Rests now v =
      ((v.sender.active ≡ false) × (v.queue ≡ []) × (v.next_video_due ≡ 0))
      ⊎ ((v.sender.active ≡ true) × (now < v.next_video_due))

  -- What a round comes to.
  unfoldable pub Rounded : ℕ → Video F D w → Option (Video F D w × Bool) → Type 0
  Rounded now v r =
      (out : Video F D w × Bool) × (r ≡ some out)
      × IsWell out.0
      × IsSuffix v.queue out.0.queue
      × (((out.1 ≡ true) × (length out.0.queue < length v.queue) × (out.0.next_video_due ≡ 0))
          ⊎ ((out.1 ≡ false) × Rests now out.0))

first : {A : Type 0} (a : Bool) (x y : A) → a ≡ true → (if a then x else y) ≡ x
first a x y h = rw h refl

pub second : {A : Type 0} (a : Bool) (x y : A) → a ≡ false → (if a then x else y) ≡ y
second a x y h = rw h refl

third :
    {A : Type 0} (a b : Bool) (x y z : A)
    → a ≡ false
    → b ≡ false
    → (if a then x else if b then y else z) ≡ z
third a b x y z h k = rw (h, k) refl

module _ {F D : Type 0} {w : Wire} (d : Doubles D) (link : Link F w) (fate : Fate w) where
  finish_queue : (v : Video F D w) → (finish_video_frame d link fate v).queue ≡ drop 1 v.queue
  unfolding finish_video_frame
  finish_queue v = elim (List-cases v.queue) [ inl e ↦ rw e refl | inr (f, fs, e) ↦ rw e refl ]

  finish_rest :
      (v : Video F D w)
      → ((finish_video_frame d link fate v).sender ≡ v.sender)
        × ((finish_video_frame d link fate v).next_video_due ≡ v.next_video_due)
  unfolding finish_video_frame
  finish_rest v = elim (List-cases v.queue) [
    | inl e ↦ rw e (refl, refl)
    | inr (f, fs, e) ↦ rw e (refl, refl)
  ]

  send_broken :
      (v : Video F D w) (now : ℕ) (leaves : PacedSender w → PacedSender w)
      → fate.broken v.pumps ≡ some leaves
      → send_some d link fate v now
        ≡ some (
          record v {
            sender = abort (leaves v.sender);
            send_errors = v.send_errors + 1;
            queue = drop 1 v.queue;
            pumps = v.pumps + 1;
          },
          true,
        )
  unfolding send_some
  send_broken v now leaves h = rw (h, send_some) refl

  send_pumped :
      (v : Video F D w) (now : ℕ) (out : PacedSender w × List (Message w) × ℕ)
      → fate.broken v.pumps ≡ none
      → pump v.sender now link.sinks ≡ some out
      → let v1 = record v { sender = out.0; messages = v.messages ++ out.1; pumps = v.pumps + 1 } in
        send_some d link fate v now
        ≡ some (
            if ltb now out.2
            then (record v1 { next_video_due = out.2 }, false)
            else if out.0.active
            then (v1, true)
            else (finish_video_frame d link fate v1, true))
  unfolding send_some
  send_pumped v now out h k = rw (h, k, send_some) refl

  -- The frame before is off the queue.
  shorter :
      (v : Video F D w) (f : EncodedFrame F) (fs : List (EncodedFrame F))
      → v.queue ≡ f ∷ fs
      → (length (drop 1 v.queue) < length v.queue) × IsSuffix v.queue (drop 1 v.queue)
  shorter v f fs e = rw e (omega arith, (f ∷ [], refl))

  finished-Rounded :
      (v v1 : Video F D w) (f : EncodedFrame F) (fs : List (EncodedFrame F)) (now : ℕ)
      → v.queue ≡ f ∷ fs
      → v1.queue ≡ v.queue
      → v1.sender.active ≡ false
      → v1.next_video_due ≡ 0
      → Rounded now v (some (finish_video_frame d link fate v1, true))
  unfolding Rounded IsWell
  finished-Rounded v v1 f fs now e same off due =
      let out = finish_video_frame d link fate v1 in
      let (sender, when) = finish_rest v1 in
      let left : out.queue ≡ drop 1 v.queue = finish_queue v1 ∙ ap (drop 1) same in
      let (less, behind) = shorter v f fs e in
      (
        (out, true),
        refl,
        inl (ap (λ s. s.active) sender ∙ off),
        rw left behind,
        inl (refl, rw left less, when ∙ due),
      )

  broken-Rounded :
      (v : Video F D w) (f : EncodedFrame F) (fs : List (EncodedFrame F)) (now : ℕ)
      (leaves : PacedSender w → PacedSender w)
      → v.queue ≡ f ∷ fs
      → v.next_video_due ≡ 0
      → fate.broken v.pumps ≡ some leaves
      → Rounded now v (send_some d link fate v now)
  unfolding Rounded IsWell abort
  broken-Rounded v f fs now leaves e due h =
      let out : Video F D w = record v {
        sender = abort (leaves v.sender);
        send_errors = v.send_errors + 1;
        queue = drop 1 v.queue;
        pumps = v.pumps + 1;
      } in
      let (less, behind) = shorter v f fs e in
      ((out, true), send_broken v now leaves h, inl refl, behind, inl (refl, less, due))

  -- The sender goes on with its frame at a later time.
  waiting-Rounded :
      (v v1 : Video F D w) (f : EncodedFrame F) (fs : List (EncodedFrame F)) (now due : ℕ)
      → v.queue ≡ f ∷ fs
      → v1.queue ≡ v.queue
      → v1.sender.active ≡ true
      → Sends f v1.sender
      → now < due
      → Rounded now v (some (record v1 { next_video_due = due }, false))
  unfolding Rounded IsWell Rests
  waiting-Rounded v v1 f fs now due e same on sends later = (
    (record v1 { next_video_due = due }, false),
    refl,
    inr (on, f, fs, same ∙ e, sends),
    ([], sym same),
    inr (refl, inr (on, later)),
  )

  pumped-Rounded :
      (v : Video F D w) (f : EncodedFrame F) (fs : List (EncodedFrame F)) (now : ℕ)
      → v.queue ≡ f ∷ fs
      → v.next_video_due ≡ 0
      → fate.broken v.pumps ≡ none
      → v.sender.active ≡ true
      → Sends f v.sender
      → Rounded now v (send_some d link fate v now)
  unfolding IsLater
  pumped-Rounded v f fs now e due h on (bytes, index, stream, idr, mid) =
      let (out, k, mid', same, same_bytes, follows, stop) =
        pump_lem v.sender now link.sinks mid on in
      let v1 : Video F D w = record v {
        sender = out.0;
        messages = v.messages ++ out.1;
        pumps = v.pumps + 1;
      } in
      let later = subst (IsLater now) k (pump-IsLater v.sender now link.sinks) in
      let sends : Sends f out.0 = (
        same_bytes ∙ bytes,
        ap (λ x. x.frame_index) same ∙ index,
        ap (λ x. x.stream_index) same ∙ stream,
        ap (λ x. x.idr) same ∙ idr,
        mid',
      ) in
      rw (send_pumped v now out h k) (elim stop [
        | inl (off, at_end, no_due) ↦
            let now_due : ltb now out.2 ≡ false = ground arith in
            subst (λ p. Rounded now v (some p))
              (sym (third (ltb now out.2) out.0.active _ _ _ now_due off))
              (finished-Rounded v v1 f fs now e refl off due)
        | inr (more, within, moved, when) ↦
            let now_due : ltb now out.2 ≡ true = ground arith in
            subst (λ p. Rounded now v (some p)) (sym (first (ltb now out.2) _ _ now_due))
              (waiting-Rounded v v1 f fs now out.2 e refl more sends (ground arith))
      ])

  -- With a frame that the sender is at work on.
  pub busy-Rounded :
      (v : Video F D w) (f : EncodedFrame F) (fs : List (EncodedFrame F)) (now : ℕ)
      → v.queue ≡ f ∷ fs
      → v.next_video_due ≡ 0
      → v.sender.active ≡ true
      → Sends f v.sender
      → Rounded now v (send_some d link fate v now)
  busy-Rounded v f fs now e due on sends = elim (Option-cases (fate.broken v.pumps)) [
    | inl h ↦ pumped-Rounded v f fs now e due h on sends
    | inr (leaves, h) ↦ broken-Rounded v f fs now leaves e due h
  ]

module _ {F D : Type 0} {w : Wire} (float : WindowFloat F) (link : Link F w) where
  pub start_busy :
      (v : Video F D w) (now : ℕ)
      → v.sender.active ≡ true
      → start_next float link v now ≡ (v, frame)
  unfolding start_next
  start_busy v now h = first v.sender.active _ _ h

  pub start_empty :
      (v : Video F D w) (now : ℕ)
      → v.sender.active ≡ false
      → v.queue ≡ []
      → start_next float link v now ≡ (v, nothing)
  unfolding start_next from_queue
  start_empty v now h k = second v.sender.active _ _ h ∙ ap (λ q. from_queue float link v q now) k

  pub start_skip :
      (v : Video F D w) (f : EncodedFrame F) (fs : List (EncodedFrame F)) (now : ℕ)
      → v.sender.active ≡ false
      → v.queue ≡ f ∷ fs
      → length f.bytes ≡ 0
      → start_next float link v now ≡ (record v { queue = fs }, skipped)
  unfolding start_next from_queue begin_video_frame
  start_skip v f fs now h k e =
      let none_there : (length f.bytes == 0) ≡ true = ground arith in
      second v.sender.active _ _ h
      ∙ ap (λ q. from_queue float link v q now) k
      ∙ rw (none_there, from_queue, begin_video_frame) refl

  -- The video as the frame begins.
  abbrev pub begun : Video F D w → EncodedFrame F → List (EncodedFrame F) → ℕ → Video F D w
  begun v f fs now =
      let (slot, share) = budget float link v.slot f now (length fs) in
      record v {
        slot = slot;
        sender =
            begin v.sender (frame_of link f now) f.bytes (make now (pos share) (length f.bytes));
      }

  pub start_begin :
      (v : Video F D w) (f : EncodedFrame F) (fs : List (EncodedFrame F)) (now : ℕ)
      → v.sender.active ≡ false
      → v.queue ≡ f ∷ fs
      → 0 < length f.bytes
      → start_next float link v now ≡ (begun v f fs now, frame)
  unfolding start_next from_queue begin_video_frame
  start_begin v f fs now h k e =
      let some_there : (length f.bytes == 0) ≡ false = ground arith in
      second v.sender.active _ _ h
      ∙ ap (λ q. from_queue float link v q now) k
      ∙ rw (some_there, from_queue, begin_video_frame) refl
