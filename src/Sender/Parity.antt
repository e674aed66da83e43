-- ===== src/Sender/Parity.antt =====
-- Which shards of a frame of video_out.cpp may be lost: parity, the reliable socket, the budget.
use wivrn_nx_windows.Base.{
  ℕ, zero, suc, ◌≡◌, refl, sym, subst, ◌∙◌, ◌⊎◌, inl, inr, Bool, true, false, Option, none, some,
  List, [], ◌∷◌, arith, length, All, All-append, Bool-cases, Option-cases, ltb,
}
use wivrn_nx_windows.Pacer.{ShardPacer, wait_until}
use wivrn_nx_windows.Sender.{
  Wire, Frame, Message, data_shard, parity_shard, Sinks, PacedSender, sent_shard, send_shard,
  finish, begin, after, pump_loop, pump, fec_active,
}
use wivrn_nx_windows.Sender.Frames.{loop_done, loop_last, loop_wait, loop_more}
use mathlib.Core.Option.{some-injective}
use wivrn_nx_windows.Sender.Pump.{pump_all, pump_all-cons, pump_active, pump_idle}

module _ {w : Wire} where
  -- A message of a frame whose shards all go to one kind of socket, with no parity among them.
  abbrev pub OnlyData : Bool → Message w → Type 0
  OnlyData control (data_shard d c) = c ≡ control
  OnlyData control (parity_shard p) = ⊥

  -- The sender of a frame without parity.
  abbrev IsPlain : Frame w → PacedSender w → Type 0
  IsPlain f s = (s.frame ≡ f) × (s.fec_active ≡ false)

  send_shard-IsPlain :
      (f : Frame w) (s : PacedSender w) (sinks : Sinks w)
      → IsPlain f s
      → IsPlain f (send_shard s sinks).0 × All (OnlyData f.idr) (send_shard s sinks).1
  unfolding send_shard sent_shard
  send_shard-IsPlain f s sinks v = simp (v.0, v.1) ((refl, refl), (refl, tt))

  finish-IsPlain :
      (f : Frame w) (s : PacedSender w) (sinks : Sinks w)
      → IsPlain f s
      → IsPlain f (finish s sinks).0 × All (OnlyData f.idr) (finish s sinks).1
  unfolding finish
  finish-IsPlain f s sinks v = simp (v.0, v.1) ((refl, refl), tt)

  abbrev PlainResult : Frame w → PacedSender w × List (Message w) × ℕ → Type 0
  PlainResult f out = IsPlain f out.0 × All (OnlyData f.idr) out.1

  after_plain :
      (f : Frame w) (ms : List (Message w)) (r : Option (PacedSender w × List (Message w) × ℕ))
      (out : PacedSender w × List (Message w) × ℕ)
      → All (OnlyData f.idr) ms
      → ((o : PacedSender w × List (Message w) × ℕ) → r ≡ some o → PlainResult f o)
      → after ms r ≡ some out
      → PlainResult f out
  after_plain f ms none out h k e = cc
  after_plain f ms (some o) out h k e =
      subst (PlainResult f) (some-injective _ _ e)
        ((k o refl).0, All-append (OnlyData f.idr) ms o.1 h (k o refl).1)

  loop_plain :
      (f : Frame w) (fuel : ℕ) (s : PacedSender w) (now : ℕ) (sinks : Sinks w)
      (out : PacedSender w × List (Message w) × ℕ)
      → IsPlain f s
      → pump_loop fuel s now sinks ≡ some out
      → PlainResult f out
  loop_plain f zero s now sinks out v e = unfold pump_loop in cc
  loop_plain f (suc fuel) s now sinks out v e =
      let s1 = (send_shard s sinks).0 in
      let ms = (send_shard s sinks).1 in
      let paced = wait_until s1.pacer s1.offset now in
      let (v1, h) = send_shard-IsPlain f s sinks v in
      elim (Bool-cases (ltb s.offset (length s.bytes))) [
        | inr done ↦
            subst (PlainResult f) (some-injective _ _ (sym (loop_done fuel s now sinks done) ∙ e))
              (finish-IsPlain f s sinks v)
        | inl more ↦ elim (Bool-cases (ltb s1.offset (length s1.bytes))) [
          | inr last ↦
              after_plain f ms (pump_loop fuel s1 now sinks) out h
                (λ o eq. loop_plain f fuel s1 now sinks o v1 eq)
                (sym (loop_last fuel s now sinks more last) ∙ e)
          | inl on ↦ elim (Option-cases paced.1) [
            | inl go ↦
                after_plain f ms (pump_loop fuel (record s1 { pacer = paced.0 }) now sinks) out h
                  (λ o eq. loop_plain f fuel (record s1 { pacer = paced.0 }) now sinks o v1 eq)
                  (sym (loop_more fuel s now sinks more on go) ∙ e)
            | inr (at, stop) ↦
                subst (PlainResult f)
                  (some-injective _ _ (sym (loop_wait fuel s now at sinks more on stop) ∙ e))
                  (v1, h)
          ]
        ]
      ]

  pump_plain :
      (f : Frame w) (s : PacedSender w) (now : ℕ) (sinks : Sinks w)
      (out : PacedSender w × List (Message w) × ℕ)
      → IsPlain f s
      → pump s now sinks ≡ some out
      → PlainResult f out
  pump_plain f s now sinks out v e = elim (Bool-cases s.active) [
    | inl on ↦
        loop_plain f (suc (length s.bytes)) s now sinks out v (sym (pump_active s now sinks on) ∙ e)
    | inr off ↦
        subst (PlainResult f) (some-injective _ _ (sym (pump_idle s now sinks off) ∙ e)) (v, tt)
  ]

  pump_all_plain :
      (f : Frame w) (s : PacedSender w) (nows : List ℕ) (sinks : Sinks w)
      (out : PacedSender w × List (Message w))
      → IsPlain f s
      → pump_all s nows sinks ≡ some out
      → All (OnlyData f.idr) out.1
  unfolding pump_all
  pump_all_plain f s [] sinks out v e =
      subst (λ (o : PacedSender w × List (Message w)). All (OnlyData f.idr) o.1)
        (some-injective _ _ e) tt
  pump_all_plain f s (now ∷ nows) sinks out v e = elim (Option-cases (pump s now sinks)) [
    | inl stuck ↦ absurd (ground arith)
    | inr (o, one) ↦ elim (Option-cases (pump_all o.0 nows sinks)) [
      | inl stuck ↦ absurd (ground arith)
      | inr (r, rest) ↦
          subst (λ (o' : PacedSender w × List (Message w)). All (OnlyData f.idr) o'.1)
            (some-injective _ _ (sym (pump_all-cons s now nows sinks o r one rest) ∙ e))
            (All-append (OnlyData f.idr) o.1 r.1 (pump_plain f s now sinks o v one).1
              (pump_all_plain f o.0 nows sinks r (pump_plain f s now sinks o v one).0 rest))
    ]
  ]

  -- A key frame, a frame without a stream socket and a frame that asks for no parity get none, on
  -- whatever schedule they are pumped: all that goes out is data shards, which prefer the control
  -- socket exactly if the frame is a key frame.
  pub pump_all-fec :
      (s : PacedSender w) (f : Frame w) (bytes : List ℕ) (pacer : ShardPacer) (nows : List ℕ)
      (sinks : Sinks w) (out : PacedSender w × List (Message w))
      → (f.idr ≡ true) ⊎ (f.has_stream_socket ≡ false) ⊎ (f.fec ≡ false)
      → pump_all (begin s f bytes pacer) nows sinks ≡ some out
      → All (OnlyData f.idr) out.1
  unfolding begin fec_active
  pump_all-fec s f bytes pacer nows sinks out why e =
      pump_all_plain f (begin s f bytes pacer) nows sinks out (refl, ground arith) e
