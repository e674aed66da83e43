-- ===== src/Sender/Due.antt =====
-- When the pump of video_out.cpp asks to be called again.
use wivrn_nx_windows.Base.{
  ℕ, zero, suc, ◌<◌, ◌≡◌, refl, ◌⊎◌, inl, inr, Option, none, some, List, arith, length, Bool-cases,
  Option-cases, ltb,
}
use wivrn_nx_windows.Pacer.{ShardPacer, wait_until}
use wivrn_nx_windows.Sender.{Wire, Message, Sinks, PacedSender, send_shard, after, pump_loop, pump}
use wivrn_nx_windows.Sender.Pump.{pump_active, pump_idle}
use wivrn_nx_windows.Sender.Frames.{loop_done, loop_last, loop_wait, loop_more}

wait_until_later :
    (p : ShardPacer) (sent now at : ℕ) → (wait_until p sent now).1 ≡ some at → now < at
unfolding wait_until
wait_until_later p sent now at e = ground arith

module _ {w : Wire} where
  -- The time that is named is 0, for a frame that is finished, or has not come yet.
  unfoldable pub IsLater : ℕ → Option (PacedSender w × List (Message w) × ℕ) → Type 0
  IsLater now none = Unit
  IsLater now (some (s, ms, due)) = (due ≡ 0) ⊎ (now < due)

  after-IsLater :
      (now : ℕ) (ms : List (Message w)) (r : Option (PacedSender w × List (Message w) × ℕ))
      → IsLater now r
      → IsLater now (after ms r)
  unfolding IsLater
  after-IsLater now ms none h = h
  after-IsLater now ms (some (s, ms', due)) h = h

  loop_zero-IsLater :
      (s : PacedSender w) (now : ℕ) (sinks : Sinks w) → IsLater now (pump_loop zero s now sinks)
  unfolding pump_loop IsLater
  loop_zero-IsLater s now sinks = tt

  loop-IsLater :
      (fuel : ℕ) (s : PacedSender w) (now : ℕ) (sinks : Sinks w)
      → IsLater now (pump_loop fuel s now sinks)
  unfolding IsLater
  loop-IsLater zero s now sinks = loop_zero-IsLater s now sinks
  loop-IsLater (suc fuel) s now sinks =
      let (s1, ms) = send_shard s sinks in
      let (p, next) = wait_until s1.pacer s1.offset now in
      let s2 : PacedSender w = record s1 { pacer = p } in
      elim (Bool-cases (ltb s.offset (length s.bytes))) [
        | inr e ↦ rw (loop_done fuel s now sinks e) (inl refl)
        | inl e ↦ elim (Bool-cases (ltb s1.offset (length s1.bytes))) [
          | inr e' ↦
              rw (loop_last fuel s now sinks e e') (
                after-IsLater now ms (pump_loop fuel s1 now sinks) (loop-IsLater fuel s1 now sinks))
          | inl e' ↦ elim (Option-cases next) [
            | inl e'' ↦ rw (loop_more fuel s now sinks e e' e'') (
                after-IsLater now ms (pump_loop fuel s2 now sinks) (loop-IsLater fuel s2 now sinks))
            | inr (at, e'') ↦
                rw (loop_wait fuel s now at sinks e e' e'')
                  (inr (wait_until_later s1.pacer s1.offset now at e''))
          ]
        ]
      ]

  pub pump-IsLater :
      (s : PacedSender w) (now : ℕ) (sinks : Sinks w) → IsLater now (pump s now sinks)
  unfolding IsLater
  pump-IsLater s now sinks = elim (Bool-cases s.active) [
    | inl on ↦ rw (pump_active s now sinks on) (loop-IsLater (suc (length s.bytes)) s now sinks)
    | inr off ↦ rw (pump_idle s now sinks off) (inl refl)
  ]
