-- ===== src/Sender/Unpaced.antt =====
-- `VideoPacketizer::send` of video_out.cpp: a whole frame in one call.
use wivrn_nx_windows.Base.{
  ℕ, zero, suc, ◌+◌, ◌%◌, ◌^◌, ◌≤◌, ◌≡◌, refl, ap, sym, ◌∙◌, inl, inr, true, false, none, some,
  List, [], ◌∷◌, arith, length, drop-length, Bool-cases, Option-cases, ltb,
}
use wivrn_nx_windows.Pacer.{inactive, active as pacing}
use wivrn_nx_windows.Pacer.Pauses.{wait_until-inactive}
use wivrn_nx_windows.Sender.{
  Wire, Shard, Frame, Message, Sinks, PacedSender, send_shard, begin, after, pump_loop, pump, send,
}
use wivrn_nx_windows.Sender.Stream.{data_shards, joined, Follows}
use wivrn_nx_windows.Sender.Frames.{send_shard-Round, loop_done, loop_last, loop_more}
use wivrn_nx_windows.Sender.Pump.{
  pump_active, pump_idle, pump-Pumped, begin-IsMid, begin-active, joined-Follows,
}

module _ {w : Wire} where
  open w use {View, Timing}

  loop_round :
      (fuel : ℕ) (s : PacedSender w) (now : ℕ) (sinks : Sinks w)
      → pacing s.pacer ≡ false
      → ltb s.offset (length s.bytes) ≡ true
      → pump_loop (suc fuel) s now sinks
        ≡ after (send_shard s sinks).1 (pump_loop fuel (send_shard s sinks).0 now sinks)
  loop_round fuel s now sinks off e =
      let s1 = (send_shard s sinks).0 in
      let idle =
        wait_until-inactive s1.pacer s1.offset now
          (ap pacing (send_shard-Round s sinks).pacer ∙ off) in
      elim (Bool-cases (ltb s1.offset (length s1.bytes))) [
        | inr e' ↦ loop_last fuel s now sinks e e'
        | inl e' ↦
            loop_more fuel s now sinks e e' (ap (λ r. r.1) idle)
            ∙ ap
                (λ p.
                  after (send_shard s sinks).1
                    (pump_loop fuel (record ((send_shard s sinks).0) { pacer = p }) now sinks))
                (ap (λ r. r.0) idle)
      ]

  loop_unpaced :
      (fuel : ℕ) (s : PacedSender w) (now : ℕ) (sinks : Sinks w)
      (out : PacedSender w × List (Message w) × ℕ)
      → pacing s.pacer ≡ false
      → pump_loop fuel s now sinks ≡ some out
      → out.2 ≡ 0
  loop_unpaced zero s now sinks out off e = unfold pump_loop in cc
  loop_unpaced (suc fuel) s now sinks out off e =
      let s1 = (send_shard s sinks).0 in
      elim (Bool-cases (ltb s.offset (length s.bytes))) [
        | inr done ↦ ground (arith, loop_done fuel s now sinks done)
        | inl more ↦ elim (Option-cases (pump_loop fuel s1 now sinks)) [
          | inl e' ↦ ground (arith, loop_round fuel s now sinks off more)
          | inr (o, e') ↦ ground (
            arith,
            loop_round fuel s now sinks off more,
            loop_unpaced fuel s1 now sinks o (ap pacing (send_shard-Round s sinks).pacer ∙ off) e',
          )
        ]
      ]

  Follows-length :
      (f : Frame w) (i : ℕ) (bs : List ℕ) (ds : List (Shard View Timing)) (j : ℕ) (cs : List ℕ)
      → Follows f i bs ds j cs
      → j ≡ i + length ds
  Follows-length f i bs [] j cs (e, _) = omega arith
  Follows-length f i bs (d ∷ ds) j cs (rest, _, r) =
      omega (arith, Follows-length f (suc i) rest ds j cs r)

  abbrev plain : Sinks w
  plain = record { parity = false; stamp = none }

  -- The call of `pump` inside `send` finishes the frame.
  send_pump :
      (s : PacedSender w) (f : Frame w) (bytes : List ℕ)
      → (out : PacedSender w × List (Message w) × ℕ) × (pump (begin s f bytes inactive) 0 plain
          ≡ some out)
        × (out.0.shards ≡ out.0.shard.shard_idx % 2 ^ 16)
        × Follows f 0 bytes (data_shards out.1) out.0.shard.shard_idx []
  unfolding begin data_shards pacing
  send_pump s f [] = (
    (begin s f [] inactive, [], 0),
    pump_idle (begin s f [] inactive) 0 plain refl,
    refl,
    (refl, refl),
  )
  send_pump s f (x ∷ xs) =
      let b = begin s f (x ∷ xs) inactive in
      let on : b.active ≡ true = begin-active s f (x ∷ xs) inactive (omega arith) in
      let (out, e, q) = pump-Pumped b 0 plain (begin-IsMid s f (x ∷ xs) inactive) on in
      let zero_at =
        loop_unpaced (suc (length b.bytes)) b 0 plain out refl
          (sym (pump_active b 0 plain on) ∙ e) in
      let whole : length out.0.bytes ≤ out.0.offset = ground (arith, q.stop, q.bytes) in
      (out, e, q.mid.counted, rw (drop-length out.0.offset out.0.bytes whole) at q.stream)

  -- A whole frame sent at once: the call returns the number of its data shards modulo 2 ^ 16, and
  -- those shards deliver the frame, as `IsNext` says of each, their payloads in order being its
  -- bytes. An empty frame sends none.
  pub send_lem :
      (s : PacedSender w) (f : Frame w) (bytes : List ℕ)
      → (ms : List (Message w)) × (send s f bytes ≡ some (ms, length (data_shards ms) % 2 ^ 16))
        × Follows f 0 bytes (data_shards ms) (length (data_shards ms)) []
        × (joined (data_shards ms) ≡ bytes)
  unfolding send
  send_lem s f bytes =
      let (out, e, n, stream) = send_pump s f bytes in
      let count : out.0.shard.shard_idx ≡ length (data_shards out.1) =
        Follows-length f 0 bytes (data_shards out.1) out.0.shard.shard_idx [] stream
        ∙ omega arith in
      (
        out.1,
        rw (e, send) (ap (λ (k : ℕ). some (out.1, k)) (n ∙ ap (λ k. k % 2 ^ 16) count)),
        rw count at stream,
        joined-Follows f 0 bytes _ out.0.shard.shard_idx stream,
      )
