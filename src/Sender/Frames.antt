-- ===== src/Sender/Frames.antt =====
-- The pump of video_out.cpp sends a frame's bytes once, in order, and comes to an end.
use wivrn_nx_windows.Base.{
  ℕ, suc, ◌+◌, ◌≤◌, ◌<◌, ◌≡◌, refl, ◌∙◌, ◌⊎◌, inl, inr, true, false, none, some, List, [], ◌∷◌,
  ◌++◌, arith, length, ltb,
}
use wivrn_nx_windows.Pacer.{ShardPacer, wait_until}
use wivrn_nx_windows.Sender.{
  Wire, Message, Sinks, PacedSender, send_parity, shard_size, next_shard, sent_shard, send_shard,
  finish, after, pump_loop,
}
use wivrn_nx_windows.Sender.Stream.{
  data_shards, Follows, Follows-append, data_shards-append, IsMid, remaining, rest_of,
  shard_size_bounds, next_shard-IsNext, sent_shard-IsMid,
}

module _ {w : Wire} where
  open w use {View, Timing}

  -- Closing a group leaves the frame's own progress alone, and sends no data shard.
  record Same (s : PacedSender w) (out : PacedSender w × List (Message w)) : Type 0 where
    frame : out.0.frame ≡ s.frame
    bytes : out.0.bytes ≡ s.bytes
    offset : out.0.offset ≡ s.offset
    shard : out.0.shard ≡ s.shard
    active : out.0.active ≡ s.active
    shards : out.0.shards ≡ s.shards
    pacer : out.0.pacer ≡ s.pacer
    silent : data_shards out.1 ≡ []

  send_parity-Same : (s : PacedSender w) (sinks : Sinks w) → Same s (send_parity s sinks)
  unfolding send_parity data_shards
  send_parity-Same s sinks = ground arith

  -- One round of the loop: the next shard is out, and maybe the parity of its group.
  pub record Round (s : PacedSender w) (sinks : Sinks w) (out : PacedSender w × List (Message w))
      : Type 0 where
    pub frame : out.0.frame ≡ s.frame
    pub bytes : out.0.bytes ≡ s.bytes
    pub offset : out.0.offset ≡ s.offset + shard_size s
    pub shard : out.0.shard ≡ (sent_shard s sinks).shard
    pub active : out.0.active ≡ s.active
    pub shards : out.0.shards ≡ (sent_shard s sinks).shards
    pub pacer : out.0.pacer ≡ s.pacer
    pub one : data_shards out.1 ≡ next_shard s sinks ∷ []

  pub send_shard-Round : (s : PacedSender w) (sinks : Sinks w) → Round s sinks (send_shard s sinks)
  unfolding send_shard sent_shard data_shards
  send_shard-Round s sinks = ground (arith, send_parity-Same (sent_shard s sinks) sinks)

  -- The four ways in which a round of the loop goes on.
  pub loop_done :
      (fuel : ℕ) (s : PacedSender w) (now : ℕ) (sinks : Sinks w)
      → ltb s.offset (length s.bytes) ≡ false
      → pump_loop (suc fuel) s now sinks ≡ some ((finish s sinks).0, (finish s sinks).1, 0)
  unfolding pump_loop
  loop_done fuel s now sinks e = rw e

  pub loop_last :
      (fuel : ℕ) (s : PacedSender w) (now : ℕ) (sinks : Sinks w)
      → let (s1, ms) = send_shard s sinks in
        ltb s.offset (length s.bytes) ≡ true
        → ltb s1.offset (length s1.bytes) ≡ false
        → pump_loop (suc fuel) s now sinks ≡ after ms (pump_loop fuel s1 now sinks)
  unfolding pump_loop
  loop_last fuel s now sinks e e' = rw (e, e')

  pub loop_wait :
      (fuel : ℕ) (s : PacedSender w) (now at : ℕ) (sinks : Sinks w)
      → let (s1, ms) = send_shard s sinks in
        let (pacer, next) = wait_until s1.pacer s1.offset now in
        ltb s.offset (length s.bytes) ≡ true
        → ltb s1.offset (length s1.bytes) ≡ true
        → next ≡ some at
        → pump_loop (suc fuel) s now sinks ≡ some (record s1 { pacer = pacer }, ms, at)
  unfolding pump_loop
  loop_wait fuel s now at sinks e e' e'' = rw (e, e', e'')

  pub loop_more :
      (fuel : ℕ) (s : PacedSender w) (now : ℕ) (sinks : Sinks w)
      → let (s1, ms) = send_shard s sinks in
        let (pacer, next) = wait_until s1.pacer s1.offset now in
        ltb s.offset (length s.bytes) ≡ true
        → ltb s1.offset (length s1.bytes) ≡ true
        → next ≡ none
        → pump_loop (suc fuel) s now sinks
          ≡ after ms (pump_loop fuel (record s1 { pacer = pacer }) now sinks)
  unfolding pump_loop
  loop_more fuel s now sinks e e' e'' = rw (e, e', e'')

  -- What a call of `pump` on a frame in progress does.
  pub record Pumped (s : PacedSender w) (out : PacedSender w × List (Message w) × ℕ) : Type 0 where
    pub frame : out.0.frame ≡ s.frame
    pub bytes : out.0.bytes ≡ s.bytes
    pub mid : IsMid out.0
    pub stream :
        Follows s.frame s.shard.shard_idx
          (remaining s)
          (data_shards out.1)
          out.0.shard.shard_idx
          (remaining out.0)
    pub stop :
        ((out.0.active ≡ false) × (out.0.offset ≡ length s.bytes) × (out.2 ≡ 0))
        ⊎ ((out.0.active ≡ s.active)
            × (out.0.offset < length s.bytes)
            × (s.offset < out.0.offset)
            × (0 < out.2))

  pub round-IsMid :
      (s : PacedSender w) (sinks : Sinks w) (p : ShardPacer)
      → IsMid s
      → s.offset < length s.bytes
      → IsMid (record ((send_shard s sinks).0) { pacer = p })
  unfolding sent_shard
  round-IsMid s sinks p v h = ground (arith, send_shard-Round s sinks, sent_shard-IsMid s sinks v h)

  round_stream :
      (s : PacedSender w) (sinks : Sinks w)
      → IsMid s
      → s.offset < length s.bytes
      → let (s1, ms) = send_shard s sinks in
        Follows s.frame s.shard.shard_idx
          (remaining s)
          (data_shards ms)
          s1.shard.shard_idx
          (remaining s1)
  unfolding sent_shard next_shard
  round_stream s sinks v h =
      let r = send_shard-Round s sinks in
      let e : suc s.shard.shard_idx ≡ s.shard.shard_idx + 1 = omega arith in
      rw (r.one, r.shard, r.bytes, r.offset) (rest_of s, next_shard-IsNext s sinks v h, (e, refl))

  finish-Same :
      (s : PacedSender w) (sinks : Sinks w)
      → ((finish s sinks).0.frame ≡ s.frame)
        × ((finish s sinks).0.bytes ≡ s.bytes)
        × ((finish s sinks).0.offset ≡ s.offset)
        × ((finish s sinks).0.shard ≡ s.shard)
        × ((finish s sinks).0.active ≡ false)
        × ((finish s sinks).0.shards ≡ s.shards)
        × (data_shards (finish s sinks).1 ≡ [])
  unfolding finish data_shards
  finish-Same s sinks = ground (arith, send_parity-Same s sinks)

  pub finish-Pumped :
      (s : PacedSender w) (sinks : Sinks w)
      → IsMid s
      → length s.bytes ≤ s.offset
      → Pumped s ((finish s sinks).0, (finish s sinks).1, 0)
  finish-Pumped s sinks v h =
      let (frame, bytes, offset, shard, active, shards, silent) = finish-Same s sinks in
      record {
        frame = frame;
        bytes = bytes;
        mid = ground arith;
        stream = rw (silent, shard, bytes, offset) (refl, refl);
        stop = inl (active, ground (arith, v.within), refl);
      }

  pub wait-Pumped :
      (s : PacedSender w) (sinks : Sinks w) (p : ShardPacer) (at : ℕ)
      → IsMid s
      → s.offset < length s.bytes
      → (send_shard s sinks).0.offset < length (send_shard s sinks).0.bytes
      → 0 < at
      → Pumped s (record ((send_shard s sinks).0) { pacer = p }, (send_shard s sinks).1, at)
  wait-Pumped s sinks p at v h h' pos =
      let r = send_shard-Round s sinks in
      record {
        frame = r.frame;
        bytes = r.bytes;
        mid = round-IsMid s sinks p v h;
        stream = round_stream s sinks v h;
        stop = inr (ground (arith, r, shard_size_bounds s h));
      }

  pub more-Pumped :
      (s : PacedSender w) (sinks : Sinks w) (p : ShardPacer)
      (out : PacedSender w × List (Message w) × ℕ)
      → IsMid s
      → s.offset < length s.bytes
      → Pumped (record ((send_shard s sinks).0) { pacer = p }) out
      → Pumped s (out.0, (send_shard s sinks).1 ++ out.1, out.2)
  more-Pumped s sinks p out v h q =
      let r = send_shard-Round s sinks in
      let ms = (send_shard s sinks).1 in
      record {
        frame = q.frame ∙ r.frame;
        bytes = q.bytes ∙ r.bytes;
        mid = q.mid;
        stream = rw (data_shards-append ms out.1) (
            Follows-append s.frame s.shard.shard_idx (remaining s) (data_shards ms) _ _
              (data_shards out.1) out.0.shard.shard_idx (remaining out.0) (round_stream s sinks v h)
              (rw r.frame at q.stream));
        stop = ground (arith, q.stop, r, shard_size_bounds s h);
      }
