-- ===== src/Session/Trim.antt =====
-- The bound on the queue of session.cpp.
use wivrn_nx_windows.Base.{
  ℕ, zero, suc, ◌+◌, ◌≤◌, ◌≡◌, ◌∙◌, refl, ap, sym, inl, inr, Bool, true, false, List, [], ◌∷◌, ◌++◌,
  length, ltb, arith, append_assoc, Bool-cases, length-append,
}
use wivrn_nx_windows.VideoBridge.{EncodedFrame, drop_victim}
use wivrn_nx_windows.VideoBridge.Queue.{length-drop_first, drop_victim_lem}
use wivrn_nx_windows.Session.{max_video_queued}
use wivrn_nx_windows.Session.Send.{trim_loop, trim}

module _ {F : Type 0} where
  -- `ks` is what is left of `fs` once some went from its front.
  abbrev pub IsSuffix : List (EncodedFrame F) → List (EncodedFrame F) → Type 0
  IsSuffix fs ks = (ds : List (EncodedFrame F)) × (fs ≡ ds ++ ks)

  pub IsSuffix-IsSuffix :
      (fs gs hs : List (EncodedFrame F)) → IsSuffix fs gs → IsSuffix gs hs → IsSuffix fs hs
  IsSuffix-IsSuffix fs gs hs (ds, e) (es, e') =
      (ds ++ es, e ∙ ap (λ xs. ds ++ xs) e' ∙ sym (append_assoc ds es hs))

  trim_loop-IsSuffix :
      (fuel first : ℕ) (fs : List (EncodedFrame F)) → IsSuffix fs (trim_loop fuel first fs)
  unfolding trim_loop
  trim_loop-IsSuffix zero first fs = ([], refl)
  trim_loop-IsSuffix (suc fuel) first [] = ([], refl)
  trim_loop-IsSuffix (suc fuel) first (f ∷ fs) =
      elim (Bool-cases (ltb max_video_queued (first + length (f ∷ fs)))) [
        | inr small ↦ ([], rw small refl)
        | inl big ↦
            let gs = drop_victim f.frame_id (f ∷ fs) in
            let (ds, e, all, n) = drop_victim_lem f.frame_id (f ∷ fs) in
            rw big (
              IsSuffix-IsSuffix (f ∷ fs) gs (trim_loop fuel first gs) (ds, e)
                (trim_loop-IsSuffix fuel first gs))
      ]

  length-trim_loop :
      (fuel first : ℕ) (fs : List (EncodedFrame F))
      → length fs ≤ fuel
      → first ≤ max_video_queued
      → first + length (trim_loop fuel first fs) ≤ max_video_queued
  unfolding trim_loop
  length-trim_loop zero first [] h k = omega arith
  length-trim_loop zero first (f ∷ fs) h k = absurd (omega arith)
  length-trim_loop (suc fuel) first [] h k = omega arith
  length-trim_loop (suc fuel) first (f ∷ fs) h k =
      ground (
        arith,
        length-drop_first f fs,
        length-trim_loop fuel first (drop_victim f.frame_id (f ∷ fs)),
      )

  -- At most six frames are kept, the newest ones, and the one that the sender is at work on.
  unfoldable pub IsTrimmed : Bool → List (EncodedFrame F) → List (EncodedFrame F) → Type 0
  IsTrimmed false fs ks = (length ks ≤ max_video_queued) × IsSuffix fs ks
  IsTrimmed true [] ks = ks ≡ []
  IsTrimmed true (f ∷ fs) ks =
      (length ks ≤ max_video_queued)
      × (rest : List (EncodedFrame F)) × (ks ≡ f ∷ rest)
      × IsSuffix fs rest

  pub trim-IsTrimmed :
      (active : Bool) (fs : List (EncodedFrame F)) → IsTrimmed active fs (trim active fs)
  unfolding trim IsTrimmed
  trim-IsTrimmed false fs =
      let h = length-trim_loop (length fs) 0 fs in
      (omega (arith, h), trim_loop-IsSuffix (length fs) 0 fs)
  trim-IsTrimmed true [] = refl
  trim-IsTrimmed true (f ∷ fs) =
      let h = length-trim_loop (length fs) 1 fs in
      (omega (arith, h), trim_loop (length fs) 1 fs, refl, trim_loop-IsSuffix (length fs) 1 fs)

  pub trim_bounded :
      (active : Bool) (fs : List (EncodedFrame F)) → length (trim active fs) ≤ max_video_queued
  unfolding IsTrimmed
  trim_bounded false fs = (trim-IsTrimmed false fs).0
  trim_bounded true [] = rw (trim-IsTrimmed true []) (omega arith)
  trim_bounded true (f ∷ fs) = (trim-IsTrimmed true (f ∷ fs)).0

  pub trim_first :
      (f : EncodedFrame F) (fs : List (EncodedFrame F))
      → (rest : List (EncodedFrame F)) × (trim true (f ∷ fs) ≡ f ∷ rest)
  unfolding trim
  trim_first f fs = (_, refl)

  pub IsSuffix-length :
      (fs ks : List (EncodedFrame F)) (n : ℕ) → IsSuffix fs ks → length fs ≤ n → length ks ≤ n
  IsSuffix-length fs ks n (ds, e) h =
      let both = length-append ds ks in let whole = ap length e in omega arith
