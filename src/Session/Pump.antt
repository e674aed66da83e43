-- ===== src/Session/Pump.antt =====
-- A call of pump_video of session.cpp: that it ends, and where it leaves the queue and the sender.
use wivrn_nx_windows.Base.{
  ℕ, zero, suc, ◌≤◌, ◌<◌, ◌≡◌, refl, ap, ◌⊎◌, inl, inr, Bool, true, false, Option, some, List, [],
  ◌∷◌, length, ◌==◌, arith, Bool-cases, List-cases, if◌then◌else◌,
}
use wivrn_nx_windows.Base.Int.{pos}
use wivrn_nx_windows.VideoBridge.{EncodedFrame}
use wivrn_nx_windows.Pacer.{WindowFloat, make}
use wivrn_nx_windows.Sender.{Wire, begin}
use wivrn_nx_windows.Sender.Pump.{begin-IsMid, begin-active}
use wivrn_nx_windows.Bitrate.{Doubles}
use wivrn_nx_windows.Session.{Link, Fate, Video, Next, nothing, skipped, frame, max_video_queued}
use wivrn_nx_windows.Session.Send.{
  take_in, frame_of, budget, start_next, go_on, round, loop, pump_video,
}
use wivrn_nx_windows.Session.Trim.{IsSuffix, IsSuffix-IsSuffix, IsSuffix-length}
use wivrn_nx_windows.Session.TakeIn.{take_in_bounded, take_in-IsWell}
use wivrn_nx_windows.Session.Rounds.{
  Sends, IsWell, Rests, Rounded, start_busy, start_empty, start_skip, start_begin, begun,
  busy-Rounded,
}

module _ {F D : Type 0} {w : Wire} (d : Doubles D) (float : WindowFloat F) (link : Link F w)
    (fate : Fate w) where
  begun-Sends :
      (v : Video F D w) (f : EncodedFrame F) (fs : List (EncodedFrame F)) (now : ℕ)
      → 0 < length f.bytes
      → ((begun float link v f fs now).sender.active ≡ true)
        × Sends f (begun float link v f fs now).sender
  unfolding begin frame_of
  begun-Sends v f fs now h =
      let (slot, share) = budget float link v.slot f now (length fs) in
      let pacer = make now (pos share) (length f.bytes) in
      let out = frame_of link f now in
      (
        begin-active v.sender out f.bytes pacer h,
        (refl, refl, refl, refl, begin-IsMid v.sender out f.bytes pacer),
      )

  -- A round from `v1`, which `v` starts with.
  round_of :
      (v : Video F D w) (now : ℕ) (p : Video F D w × Next)
      → start_next float link v now ≡ p
      → round d float link fate v now ≡ go_on d link fate p now
  unfolding round
  round_of v now p h = ap (λ q. go_on d link fate q now) h

  idle-Rounded :
      (v : Video F D w) (now : ℕ)
      → v.sender.active ≡ false
      → v.next_video_due ≡ 0
      → (v.queue ≡ []) ⊎ ((f : EncodedFrame F) × (fs : List (EncodedFrame F)) × (v.queue ≡ f ∷ fs))
      → Rounded now v (round d float link fate v now)
  unfolding go_on Rounded IsWell Rests
  idle-Rounded v now off due (inl e) =
      rw (round_of v now (v, nothing) (start_empty float link v now off e))
        ((v, false), refl, inl off, ([], refl), inr (refl, inl (off, e, due)))
  idle-Rounded v now off due (inr (f, fs, e)) = elim (Bool-cases (length f.bytes == 0)) [
    | inl empty ↦
        let v1 : Video F D w = record v { queue = fs } in
        rw (round_of v now (v1, skipped) (start_skip float link v f fs now off e (ground arith)))
          ((v1, true), refl, inl off, (f ∷ [], e), inl (refl, rw e (omega arith), due))
    | inr full ↦
        let v1 = begun float link v f fs now in
        let some_there : 0 < length f.bytes = ground arith in
        let (on, sends) = begun-Sends v f fs now some_there in
        rw (round_of v now (v1, frame) (start_begin float link v f fs now off e some_there))
          (busy-Rounded d link fate v1 f fs now e due on sends)
  ]

  round-Rounded :
      (v : Video F D w) (now : ℕ)
      → IsWell v
      → v.next_video_due ≡ 0
      → Rounded now v (round d float link fate v now)
  unfolding go_on IsWell
  round-Rounded v now (inl off) due = idle-Rounded v now off due (List-cases v.queue)
  round-Rounded v now (inr (on, f, fs, e, sends)) due =
      rw (round_of v now (v, frame) (start_busy float link v now on))
        (busy-Rounded d link fate v f fs now e due on sends)

  -- The loop ends with the sender at rest, having worked on the queue from its front.
  abbrev Settles : ℕ → Video F D w → Option (Video F D w) → Type 0
  Settles now v r =
      (out : Video F D w) × (r ≡ some out) × IsWell out × Rests now out × IsSuffix v.queue out.queue

  loop_more :
      (fuel : ℕ) (v v1 : Video F D w) (now : ℕ) (on : Bool)
      → round d float link fate v now ≡ some (v1, on)
      → loop d float link fate (suc fuel) v now
        ≡ (if on then loop d float link fate fuel v1 now else some v1)
  unfolding loop
  loop_more fuel v v1 now on h = rw (h, loop) refl

  loop-Settles :
      (fuel : ℕ) (v : Video F D w) (now : ℕ)
      → IsWell v
      → v.next_video_due ≡ 0
      → length v.queue < fuel
      → Settles now v (loop d float link fate fuel v now)
  unfolding Rounded
  loop-Settles zero v now h due room = absurd (omega arith)
  loop-Settles (suc fuel) v now h due room =
      let ((v1, on), same, well, behind, how) = round-Rounded v now h due in
      rw (loop_more fuel v v1 now on same) (elim how [
        | inl (goes, less, due') ↦
            let (out, e, well', rest, tail) = loop-Settles fuel v1 now well due' (omega arith) in
            rw goes (out, e, well', rest, IsSuffix-IsSuffix v.queue v1.queue out.queue behind tail)
        | inr (stops, rest) ↦ rw stops (v1, refl, well, rest, behind)
      ])

  -- A call of pump_video ends, whatever the sockets do: it works on the queue from its front and
  -- leaves it empty, or the sender in the middle of its first frame with a time to come back at that
  -- is still ahead. At most six frames are queued, and the bound never takes the one in progress.
  pub pump_video_lem :
      (v : Video F D w) (now : ℕ)
      → IsWell v
      → length v.queue ≤ max_video_queued
      → (out : Video F D w) × (pump_video d float link fate v now ≡ some out)
        × IsWell out
        × Rests now out
        × IsSuffix (take_in v).queue out.queue
        × (length out.queue ≤ max_video_queued)
  unfolding pump_video IsWell
  pump_video_lem v now h room =
      let v1 : Video F D w = record (take_in v) { next_video_due = 0 } in
      let (out, e, well, rest, behind) =
        loop-Settles (suc (length v1.queue)) v1 now (take_in-IsWell v h) refl (omega arith) in
      (
        out,
        e,
        well,
        rest,
        behind,
        IsSuffix-length v1.queue out.queue max_video_queued behind (take_in_bounded v room),
      )
