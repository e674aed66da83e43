-- ===== src/Sender/Pump.antt =====
-- Total correctness of the pump of video_out.cpp, for one call and for a whole frame.
use wivrn_nx_windows.Base.{
  ℕ, zero, suc, ◌+◌, ◌≤◌, ◌<◌, ◌≡◌, refl, ap, sym, ◌∙◌, ◌⊎◌, inl, inr, true, false, Option, none,
  some, List, [], ◌∷◌, ◌++◌, arith, length, Bool-cases, Option-cases, drop-length, ltb,
}
use wivrn_nx_windows.Pacer.{ShardPacer, wait_until}
use wivrn_nx_windows.Pacer.Pauses.{wait_until-ne-zero}
use wivrn_nx_windows.Sender.{
  Wire, Shard, Frame, Message, Sinks, PacedSender, send_shard, finish, begin, after, pump_loop,
  pump,
}
use wivrn_nx_windows.Sender.Stream.{
  data_shards, joined, Follows, Follows-append, data_shards-append, IsMid, remaining,
  shard_size_bounds,
}
use wivrn_nx_windows.Sender.Frames.{
  Pumped, send_shard-Round, loop_done, loop_last, loop_wait, loop_more, round-IsMid, finish-Pumped,
  wait-Pumped, more-Pumped,
}

module _ {w : Wire} where
  open w use {View, Timing}

  abbrev pub Pumps : PacedSender w → Option (PacedSender w × List (Message w) × ℕ) → Type 0
  Pumps s r = (out : PacedSender w × List (Message w) × ℕ) × (r ≡ some out) × Pumped s out

  loop-Pumped :
      (fuel : ℕ) (s : PacedSender w) (now : ℕ) (sinks : Sinks w)
      → IsMid s
      → length s.bytes < s.offset + fuel
      → Pumps s (pump_loop fuel s now sinks)
  loop-Pumped zero s now sinks v f = absurd (omega (arith, v.within))
  loop-Pumped (suc fuel) s now sinks v f = elim (Bool-cases (ltb s.offset (length s.bytes))) [
    | inr e ↦ (
      ((finish s sinks).0, (finish s sinks).1, 0),
      loop_done fuel s now sinks e,
      finish-Pumped s sinks v (ground arith),
    )
    | inl e ↦
        round (ground arith) e (Bool-cases (ltb s1.offset (length s1.bytes)))
          (Option-cases (wait_until s1.pacer s1.offset now).1)
          (λ p lt.
            loop-Pumped fuel (record s1 { pacer = p }) now sinks (round-IsMid s sinks p v lt)
              (ground (arith, send_shard-Round s sinks, shard_size_bounds s lt)))
  ]
    where
      s1 : PacedSender w
      s1 = (send_shard s sinks).0

      round :
          s.offset < length s.bytes
          → ltb s.offset (length s.bytes) ≡ true
          → (ltb s1.offset (length s1.bytes) ≡ true) ⊎ (ltb s1.offset (length s1.bytes) ≡ false)
          → ((wait_until s1.pacer s1.offset now).1 ≡ none)
            ⊎ ((at : ℕ) × ((wait_until s1.pacer s1.offset now).1 ≡ some at))
          → ((p : ShardPacer)
              → s.offset < length s.bytes
              → Pumps
                  (record s1 { pacer = p })
                  (pump_loop fuel (record s1 { pacer = p }) now sinks))
          → Pumps s (pump_loop (suc fuel) s now sinks)
      round lt e (inr e') c rec =
          let (out, eq, q) = rec s1.pacer lt in
          (
            (out.0, (send_shard s sinks).1 ++ out.1, out.2),
            loop_last fuel s now sinks e e' ∙ ap (after (send_shard s sinks).1) eq,
            more-Pumped s sinks s1.pacer out v lt q,
          )
      round lt e (inl e') (inr (at, e'')) rec = (
        (record s1 { pacer = (wait_until s1.pacer s1.offset now).0 }, (send_shard s sinks).1, at),
        loop_wait fuel s now at sinks e e' e'',
        wait-Pumped s sinks _ at v lt (ground arith)
            (wait_until-ne-zero s1.pacer s1.offset now at e''),
      )
      round lt e (inl e') (inl e'') rec =
          let p = (wait_until s1.pacer s1.offset now).0 in
          let (out, eq, q) = rec p lt in
          (
            (out.0, (send_shard s sinks).1 ++ out.1, out.2),
            loop_more fuel s now sinks e e' e'' ∙ ap (after (send_shard s sinks).1) eq,
            more-Pumped s sinks p out v lt q,
          )

  pub pump_active :
      (s : PacedSender w) (now : ℕ) (sinks : Sinks w)
      → s.active ≡ true
      → pump s now sinks ≡ pump_loop (suc (length s.bytes)) s now sinks
  unfolding pump
  pump_active s now sinks on = simp on

  pub pump_idle :
      (s : PacedSender w) (now : ℕ) (sinks : Sinks w)
      → s.active ≡ false
      → pump s now sinks ≡ some (s, [], 0)
  unfolding pump
  pump_idle s now sinks off = simp off

  pub pump-Pumped :
      (s : PacedSender w) (now : ℕ) (sinks : Sinks w)
      → IsMid s
      → s.active ≡ true
      → Pumps s (pump s now sinks)
  pump-Pumped s now sinks v on =
      rw (pump_active s now sinks on)
        (loop-Pumped (suc (length s.bytes)) s now sinks v (omega arith))

  -- A call of `pump` on a frame in progress returns, having sent a run of the frame's shards from
  -- where it stood, each the next one in the sense of `IsNext`. Either the frame is then finished
  -- and the answer is 0, or the sender moved on by a shard at least, has bytes left, and names a
  -- time other than 0 to come back at. The frame and its bytes stay the same.
  pub pump_lem :
      (s : PacedSender w) (now : ℕ) (sinks : Sinks w)
      → IsMid s
      → s.active ≡ true
      → (out : PacedSender w × List (Message w) × ℕ) × (pump s now sinks ≡ some out)
        × IsMid out.0
        × (out.0.frame ≡ s.frame)
        × (out.0.bytes ≡ s.bytes)
        × Follows s.frame s.shard.shard_idx
            (remaining s)
            (data_shards out.1)
            out.0.shard.shard_idx
            (remaining out.0)
        × (((out.0.active ≡ false) × (out.0.offset ≡ length s.bytes) × (out.2 ≡ 0))
            ⊎ ((out.0.active ≡ true)
                × (out.0.offset < length s.bytes)
                × (s.offset < out.0.offset)
                × (0 < out.2)))
  pump_lem s now sinks v on =
      let (out, e, q) = pump-Pumped s now sinks v on in
      (out, e, q.mid, q.frame, q.bytes, q.stream, ground (arith, q.stop))

  pub begin-IsMid :
      (s : PacedSender w) (f : Frame w) (bytes : List ℕ) (pacer : ShardPacer)
      → IsMid (begin s f bytes pacer)
  unfolding begin
  begin-IsMid s f bytes pacer = record {
    stream_index = refl;
    frame_index = refl;
    view = refl;
    within = omega arith;
    timing = inr refl;
    counted = refl;
  }

  pub begin-active :
      (s : PacedSender w) (f : Frame w) (bytes : List ℕ) (pacer : ShardPacer)
      → 0 < length bytes
      → (begin s f bytes pacer).active ≡ true
  unfolding begin
  begin-active s f bytes pacer h = ground arith

  -- The session's calls on one frame, at the times `nows`.
  unfoldable pub pump_all :
      PacedSender w → List ℕ → Sinks w → Option (PacedSender w × List (Message w))
  pump_all s [] sinks = some (s, [])
  pump_all s (now ∷ nows) sinks = elim (pump s now sinks) [
    | none ↦ none
    | some (s', ms, at) ↦ elim (pump_all s' nows sinks) [
      | none ↦ none
      | some (s'', ms') ↦ some (s'', ms ++ ms')
    ]
  ]

  pub pump_all-cons :
      (s : PacedSender w) (now : ℕ) (nows : List ℕ) (sinks : Sinks w)
      (out : PacedSender w × List (Message w) × ℕ) (end : PacedSender w × List (Message w))
      → pump s now sinks ≡ some out
      → pump_all out.0 nows sinks ≡ some end
      → pump_all s (now ∷ nows) sinks ≡ some (end.0, out.1 ++ end.1)
  unfolding pump_all
  pump_all-cons s now nows sinks out end e e' = ground arith

  pump_all-idle :
      (s : PacedSender w) (nows : List ℕ) (sinks : Sinks w)
      → s.active ≡ false
      → pump_all s nows sinks ≡ some (s, [])
  unfolding pump_all
  pump_all-idle s [] sinks off = refl
  pump_all-idle s (now ∷ nows) sinks off =
      pump_all-cons s now nows sinks (s, [], 0) (s, []) (pump_idle s now sinks off)
        (pump_all-idle s nows sinks off)

  -- The calls that follow the first, from the state it leaves.
  abbrev Delivers : PacedSender w → Option (PacedSender w × List (Message w)) → Type 0
  Delivers s r =
      (out : PacedSender w × List (Message w)) × (r ≡ some out)
      × (out.0.active ≡ false)
      × Follows s.frame s.shard.shard_idx (remaining s) (data_shards out.1) out.0.shard.shard_idx []

  idle-Delivers :
      (s : PacedSender w) (nows : List ℕ) (sinks : Sinks w)
      → s.active ≡ false
      → length s.bytes ≤ s.offset
      → Delivers s (pump_all s nows sinks)
  unfolding data_shards
  idle-Delivers s nows sinks off done =
      ((s, []), pump_all-idle s nows sinks off, off, (refl, drop-length s.offset s.bytes done))

  pump_all-Delivers :
      (s : PacedSender w) (nows : List ℕ) (sinks : Sinks w)
      → IsMid s
      → s.active ≡ true
      → length s.bytes ≤ s.offset + length nows
      → s.offset < length s.bytes
      → Delivers s (pump_all s nows sinks)
  unfolding pump_all
  pump_all-Delivers s [] sinks v on n lt = absurd (omega arith)
  pump_all-Delivers s (now ∷ nows) sinks v on n lt =
      let (out, e, q) = pump-Pumped s now sinks v on in
      let (end, e', off, stream) =
        go out q q.stop
          (λ a b. pump_all-Delivers out.0 nows sinks q.mid a (ground (arith, q.bytes)) b) in
      (
        (end.0, out.1 ++ end.1),
        pump_all-cons s now nows sinks out end e e',
        off,
        rw (data_shards-append out.1 end.1) (
            Follows-append s.frame s.shard.shard_idx (remaining s) (data_shards out.1)
              out.0.shard.shard_idx (remaining out.0) (data_shards end.1) end.0.shard.shard_idx []
              q.stream (rw q.frame at stream)),
      )
    where
      go :
          (out : PacedSender w × List (Message w) × ℕ)
          → Pumped s out
          → ((out.0.active ≡ false) × (out.0.offset ≡ length s.bytes) × (out.2 ≡ 0))
            ⊎ ((out.0.active ≡ s.active)
                × (out.0.offset < length s.bytes)
                × (s.offset < out.0.offset)
                × (0 < out.2))
          → (out.0.active ≡ true
              → out.0.offset < length out.0.bytes
              → Delivers out.0 (pump_all out.0 nows sinks))
          → Delivers out.0 (pump_all out.0 nows sinks)
      go out q (inl (off, end, _)) rec =
          idle-Delivers out.0 nows sinks off (ground (arith, q.bytes))
      go out q (inr (same, more, _, _)) rec = rec (same ∙ on) (ground (arith, q.bytes))

  pub joined-Follows :
      (f : Frame w) (i : ℕ) (bs : List ℕ) (ds : List (Shard View Timing)) (j : ℕ)
      → Follows f i bs ds j []
      → joined ds ≡ bs
  unfolding joined
  joined-Follows f i bs [] j (_, e) = sym e
  joined-Follows f i bs (d ∷ ds) j (rest, n, r) =
      ap (◌++◌ d.payload) (joined-Follows f (suc i) rest ds j r) ∙ sym n.split

  -- A frame that is not empty, begun and pumped at least as often as it has bytes, whatever the
  -- times of the calls and its schedule, is delivered whole: the calls return, the sender is idle,
  -- and the data shards sent are numbered from 0, carry the frame's numbers, its view information
  -- in the first and its timing in the last alone, and split the frame's bytes without a gap, so
  -- that their payloads in order are the frame.
  pub pump_all-begin :
      (s : PacedSender w) (f : Frame w) (bytes : List ℕ) (pacer : ShardPacer) (nows : List ℕ)
      (sinks : Sinks w)
      → 0 < length bytes
      → length bytes ≤ length nows
      → (out : PacedSender w × List (Message w)) × (pump_all (begin s f bytes pacer) nows sinks
          ≡ some out)
        × (out.0.active ≡ false)
        × Follows f 0 bytes (data_shards out.1) out.0.shard.shard_idx []
        × (joined (data_shards out.1) ≡ bytes)
  unfolding begin
  pump_all-begin s f bytes pacer nows sinks pos n =
      let (out, e, off, stream) =
        pump_all-Delivers (begin s f bytes pacer) nows sinks (begin-IsMid s f bytes pacer)
          (ground arith) (omega arith) pos in
      (out, e, off, stream, joined-Follows f 0 bytes _ out.0.shard.shard_idx stream)
