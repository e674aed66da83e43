-- ===== src/PipeServer/Answered.antt =====
-- What pipe_server.cpp gives back of the answers of the intake, and its counters.
use wivrn_nx_windows.Base.{
  ℕ, zero, suc, ◌+◌, ◌<◌, ◌≡◌, ◌∙◌, refl, sym, ap, append-nil, append_assoc, ◌⊎◌, inl, inr, Bool,
  true, false, List, [], ◌∷◌, ◌++◌, length, map, arith, Bool-cases,
}
use wivrn_nx_windows.Intake.{FrameDone, pop_done}
use wivrn_nx_windows.PipeServer.{PipeServer, frame_done, payload_size}
use wivrn_nx_windows.PipeServer.Loop.{send_message, drain, flush_frame_done}

-- One more write that succeeds, before those of a list.
through_one :
    (write : ℕ → Bool) (n : ℕ) (d : FrameDone) (ds : List FrameDone)
    → write n ≡ true
    → ((i : ℕ) → i < length ds → write (n + 1 + i) ≡ true)
    → (i : ℕ) → i < length (d ∷ ds)
    → write (n + i) ≡ true
through_one write n d ds first rest zero h = let e : n + 0 ≡ n = omega arith in rw e first
through_one write n d ds first rest (suc i) h =
    let e : n + suc i ≡ n + 1 + i = omega arith in rw e (rest i (omega arith))

module _ {F E : Type 0} (write : ℕ → Bool) where
  -- The answers `given` went out in order, each by a write that succeeded, and those of `left` are
  -- still in the queue.
  abbrev Gave : PipeServer F E → PipeServer F E → List FrameDone → List FrameDone → Type 0
  Gave s s' given left =
      (s'.sent ≡ s.sent ++ map frame_done given)
      × (s'.intake.done ≡ left)
      × (s'.frames_done_sent ≡ s.frames_done_sent + length given)
      × ((i : ℕ) → i < length given → write (s.writes + i) ≡ true)

  -- All of them were given back, or the write of one failed, which is neither sent nor in the queue.
  unfoldable pub GivesBack : PipeServer F E → PipeServer F E × Bool → Type 0
  GivesBack s p =
      ((p.1 ≡ true) × (p.0.writes ≡ s.writes + length s.intake.done) × Gave s p.0 s.intake.done [])
      ⊎ ((p.1 ≡ false)
          × (given : List FrameDone) × (lost : FrameDone) × (left : List FrameDone) × (s.intake.done
              ≡ given ++ (lost ∷ left))
          × (write (s.writes + length given) ≡ false)
          × (p.0.writes ≡ s.writes + length given + 1)
          × Gave s p.0 given left)

  drain_empty :
      (fuel : ℕ) (s : PipeServer F E) → s.intake.done ≡ [] → GivesBack s (drain write (suc fuel) s)
  unfolding drain pop_done GivesBack
  drain_empty fuel s e =
      rw e
        (inl (refl, omega arith, (sym (append-nil s.sent), refl, omega arith, λ i h. ground arith)))

  -- One answer: it is sent, or the write fails.
  drain_step :
      (fuel : ℕ) (s : PipeServer F E) (d : FrameDone) (ds : List FrameDone)
      → s.intake.done ≡ d ∷ ds
      → let p = drain write (suc fuel) s in
        ((s1 : PipeServer F E) × (p ≡ drain write fuel s1)
          × (s1.sent ≡ s.sent ++ (frame_done d ∷ []))
          × (s1.intake.done ≡ ds)
          × (s1.frames_done_sent ≡ s.frames_done_sent + 1)
          × (s1.writes ≡ s.writes + 1)
          × (write s.writes ≡ true))
        ⊎ ((p.1 ≡ false)
            × (p.0.sent ≡ s.sent)
            × (p.0.intake.done ≡ ds)
            × (p.0.frames_done_sent ≡ s.frames_done_sent)
            × (p.0.writes ≡ s.writes + 1)
            × (write s.writes ≡ false))
  unfolding drain pop_done send_message payload_size
  drain_step fuel s d ds e = rw e (elim (Bool-cases (write s.writes)) [
    | inl through ↦ inl (
      record s {
        intake = record (s.intake) { done = ds };
        writes = s.writes + 1;
        sent = s.sent ++ (frame_done d ∷ []);
        frames_done_sent = s.frames_done_sent + 1;
      },
      rw through refl,
      refl,
      refl,
      refl,
      refl,
      through,
    )
    | inr fails ↦ inr (rw fails (refl, refl, refl, refl, refl, refl))
  ])

  -- One more answer before those of `s1`.
  GivesBack-one :
      (s s1 : PipeServer F E) (d : FrameDone) (p : PipeServer F E × Bool)
      → s.intake.done ≡ d ∷ s1.intake.done
      → s1.sent ≡ s.sent ++ (frame_done d ∷ [])
      → s1.frames_done_sent ≡ s.frames_done_sent + 1
      → s1.writes ≡ s.writes + 1
      → write s.writes ≡ true
      → GivesBack s1 p
      → GivesBack s p
  unfolding GivesBack
  GivesBack-one s s1 d p e sent count next first (inl (ok, used, (out, left, total, all))) = rw e (
      inl (
        ok,
        omega arith,
        (
          out
              ∙ ap (λ xs. xs ++ map frame_done s1.intake.done) sent
              ∙ append_assoc s.sent (frame_done d ∷ []) (map frame_done s1.intake.done),
          left,
          omega arith,
          through_one write s.writes d s1.intake.done first (rw (← next) all),
        ),
      ))
  GivesBack-one s s1 d p e sent count next first
        (inr (failed, given, lost, rest, split, fails, used, (out, left, total, all))) =
      inr (
        failed,
        d ∷ given,
        lost,
        rest,
        e ∙ ap (λ xs. d ∷ xs) split,
        ap write (omega arith) ∙ fails,
        omega arith,
        (
          out
              ∙ ap (λ xs. xs ++ map frame_done given) sent
              ∙ append_assoc s.sent (frame_done d ∷ []) (map frame_done given),
          left,
          omega arith,
          through_one write s.writes d given first (rw (← next) all),
        ),
      )

  -- The write of the first answer failed.
  GivesBack-none :
      (s : PipeServer F E) (d : FrameDone) (ds : List FrameDone) (p : PipeServer F E × Bool)
      → s.intake.done ≡ d ∷ ds
      → p.1 ≡ false
      → p.0.sent ≡ s.sent
      → p.0.intake.done ≡ ds
      → p.0.frames_done_sent ≡ s.frames_done_sent
      → p.0.writes ≡ s.writes + 1
      → write s.writes ≡ false
      → GivesBack s p
  unfolding GivesBack
  GivesBack-none s d ds p e failed sent done count next fails = inr (
    failed,
    [],
    d,
    ds,
    e,
    ap write (omega arith) ∙ fails,
    omega arith,
    (sent ∙ sym (append-nil s.sent), done, omega arith, λ i h. ground arith),
  )

  drain-GivesBack :
      (ds : List FrameDone) (fuel : ℕ) (s : PipeServer F E)
      → s.intake.done ≡ ds
      → length ds < fuel
      → GivesBack s (drain write fuel s)
  drain-GivesBack ds zero s e h = ground arith
  drain-GivesBack [] (suc fuel) s e h = drain_empty fuel s e
  drain-GivesBack (d ∷ ds) (suc fuel) s e h = elim (drain_step fuel s d ds e) [
    | inl (s1, same, sent, done, count, next, first) ↦ rw same (
        GivesBack-one s s1 d (drain write fuel s1) (e ∙ ap (λ xs. d ∷ xs) (sym done)) sent count
          next first (drain-GivesBack ds fuel s1 done (omega arith)))
    | inr (failed, sent, done, count, next, fails) ↦
        GivesBack-none s d ds (drain write (suc fuel) s) e failed sent done count next fails
  ]

  -- Giving the answers back to the shim writes all of the queue, in its order, and empties it, each
  -- write succeeding, or the write of one failed: those before it were sent by writes that
  -- succeeded, it is lost, and those behind it are left, with no other write tried.
  pub flush_frame_done-GivesBack : (s : PipeServer F E) → GivesBack s (flush_frame_done write s)
  unfolding flush_frame_done
  flush_frame_done-GivesBack s =
      drain-GivesBack s.intake.done (suc (length s.intake.done)) s refl (omega arith)
