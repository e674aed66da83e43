-- ===== src/VideoBridge/Queue.antt =====
-- The bounded queue of video_bridge.cpp drops whole frames from its front.
use mathlib.Core.List.{append-nil, append_assoc}
use wivrn_nx_windows.Base.{
  ℕ, zero, suc, ◌+◌, ◌≤◌, ◌<◌, ◌≡◌, refl, ap, sym, subst, ◌∙◌, ◌⊎◌, inl, inr, ◌≢◌, true, ltb, ◌==◌,
  List, [], ◌∷◌, ◌++◌, arith, All, length, length-append, Bool-cases,
}
use wivrn_nx_windows.VideoBridge.{
  EncodedFrame, VideoBridge, max_queued, drop_victim, trim_loop, trim, push_frames,
}

module _ {F : Type 0} where
  -- The lists meet between two frames: the last of the one is not of the first of the other.
  abbrev pub MeetsWhole : List (EncodedFrame F) → List (EncodedFrame F) → Type 0
  MeetsWhole [] ks = Unit {0}
  MeetsWhole (d ∷ []) [] = Unit {0}
  MeetsWhole (d ∷ []) (k ∷ ks) = d.frame_id ≢ k.frame_id
  MeetsWhole (d ∷ e ∷ ds) ks = MeetsWhole (e ∷ ds) ks

  -- `ks` is what a cut from the front of `fs` leaves, made between two frames.
  abbrev pub IsTail : List (EncodedFrame F) → List (EncodedFrame F) → Type 0
  IsTail fs ks = (ds : List (EncodedFrame F)) × (fs ≡ ds ++ ks) × MeetsWhole ds ks

  -- The list begins with no frame of this number.
  abbrev StartsNot : ℕ → List (EncodedFrame F) → Type 0
  StartsNot v [] = Unit {0}
  StartsNot v (k ∷ ks) = v ≢ k.frame_id

  abbrev Of : ℕ → EncodedFrame F → Type 0
  Of v f = f.frame_id ≡ v

  meets-All :
      (v : ℕ) (ds ks : List (EncodedFrame F)) → All (Of v) ds → StartsNot v ks → MeetsWhole ds ks
  meets-All v [] ks h n = tt
  meets-All v (d ∷ []) [] h n = tt
  meets-All v (d ∷ []) (k ∷ ks) h n = λ e. n (sym h.0 ∙ e)
  meets-All v (d ∷ e ∷ ds) ks h n = meets-All v (e ∷ ds) ks h.1 n

  meets_append :
      (ds : List (EncodedFrame F)) (e : EncodedFrame F) (es ks : List (EncodedFrame F))
      → MeetsWhole (e ∷ es) ks
      → MeetsWhole (ds ++ (e ∷ es)) ks
  meets_append [] e es ks h = h
  meets_append (d ∷ []) e es ks h = h
  meets_append (d ∷ d' ∷ ds) e es ks h = meets_append (d' ∷ ds) e es ks h

  meets_both :
      (v : ℕ) (ds es ks : List (EncodedFrame F))
      → All (Of v) ds
      → StartsNot v (es ++ ks)
      → MeetsWhole es ks
      → MeetsWhole (ds ++ es) ks
  meets_both v ds [] ks h n m = rw append-nil (meets-All v ds ks h n)
  meets_both v ds (e ∷ es) ks h n m = meets_append ds e es ks m

  pub drop_victim_lem :
      (v : ℕ) (fs : List (EncodedFrame F))
      → (ds : List (EncodedFrame F)) × (fs ≡ ds ++ drop_victim v fs)
        × All (Of v) ds
        × StartsNot v (drop_victim v fs)
  unfolding drop_victim
  drop_victim_lem v [] = ([], refl, tt, tt)
  drop_victim_lem v (f ∷ fs) = elim (Bool-cases (f.frame_id == v)) [
    | inl same ↦
        let (ds, e, all, n) = drop_victim_lem v fs in
        (f ∷ ds, rw same (ap (◌∷◌ f) e), (ground arith, all), rw same n)
    | inr other ↦ ([], rw other refl, tt, rw other (ground arith))
  ]

  pub length-drop_victim :
      (v : ℕ) (fs : List (EncodedFrame F)) → length (drop_victim v fs) ≤ length fs
  unfolding drop_victim
  length-drop_victim v [] = omega arith
  length-drop_victim v (f ∷ fs) = ground (arith, length-drop_victim v fs)

  -- The first frame goes in any case.
  pub length-drop_first :
      (f : EncodedFrame F) (fs : List (EncodedFrame F))
      → length (drop_victim f.frame_id (f ∷ fs)) ≤ length fs
  unfolding drop_victim
  length-drop_first f fs = ground (arith, length-drop_victim f.frame_id fs)

  trim_loop-IsTail : (fuel : ℕ) (fs : List (EncodedFrame F)) → IsTail fs (trim_loop fuel fs)
  unfolding trim_loop
  trim_loop-IsTail zero fs = ([], refl, tt)
  trim_loop-IsTail (suc fuel) [] = ([], refl, tt)
  trim_loop-IsTail (suc fuel) (f ∷ fs) = elim (Bool-cases (ltb max_queued (length (f ∷ fs)))) [
    | inr small ↦ ([], rw small refl, tt)
    | inl big ↦
        let v = f.frame_id in
        let gs = drop_victim v (f ∷ fs) in
        let (ds, e, all, n) = drop_victim_lem v (f ∷ fs) in
        let (es, e', m) = trim_loop-IsTail fuel gs in
        let ks = trim_loop fuel gs in
        rw big (
          ds ++ es,
          e ∙ ap (◌++◌ ds) e' ∙ sym (append_assoc ds es ks),
          meets_both v ds es ks all (subst (StartsNot v) e' n) m,
        )
  ]

  length-trim_loop :
      (fuel : ℕ) (fs : List (EncodedFrame F))
      → length fs ≤ fuel
      → length (trim_loop fuel fs) ≤ max_queued
  unfolding trim_loop
  length-trim_loop zero [] h = omega arith
  length-trim_loop zero (f ∷ fs) h = absurd (omega arith)
  length-trim_loop (suc fuel) [] h = omega arith
  length-trim_loop (suc fuel) (f ∷ fs) h =
      ground
        (arith, length-drop_first f fs, length-trim_loop fuel (drop_victim f.frame_id (f ∷ fs)))

  trim_loop_small :
      (fuel : ℕ) (fs : List (EncodedFrame F)) → (max_queued < length fs) ⊎ (trim_loop fuel fs ≡ fs)
  unfolding trim_loop
  trim_loop_small zero fs = inr refl
  trim_loop_small (suc fuel) [] = inr refl
  trim_loop_small (suc fuel) (f ∷ fs) = ground arith

  -- A push while a client is active leaves at most 4 queue entries, a tail of the old entries and
  -- the new ones that begins between two frames, so no frame is cut in half; where they all fit,
  -- none is dropped. The counters grow by what came in and by what was dropped.
  pub push_frames_lem :
      (b : VideoBridge F) (f : EncodedFrame F) (fs : List (EncodedFrame F))
      → b.wanted.active ≡ true
      → let b' = push_frames b (f ∷ fs) in
        (length b'.frames ≤ max_queued)
        × IsTail (b.frames ++ (f ∷ fs)) b'.frames
        × ((max_queued < length (b.frames ++ (f ∷ fs))) ⊎ (b'.frames ≡ b.frames ++ (f ∷ fs)))
        × (b'.frames_queued ≡ b.frames_queued + length (f ∷ fs))
        × (b'.frames_dropped + length b'.frames ≡ b.frames_dropped + length (b.frames ++ (f ∷ fs)))
  unfolding push_frames trim
  push_frames_lem b f fs on =
      let all = b.frames ++ (f ∷ fs) in
      let (ds, e, m) = trim_loop-IsTail (length all) all in
      simp on (
        length-trim_loop (length all) all (omega arith),
        (ds, e, m),
        trim_loop_small (length all) all,
        refl,
        omega (arith, ap length e, length-append ds (trim_loop (length all) all)),
      )
