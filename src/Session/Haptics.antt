-- ===== src/Session/Haptics.antt =====
-- The pulses that session.cpp sends to the headset.
use wivrn_nx_windows.Base.{
  ℕ, zero, suc, ◌<◌, ◌≡◌, ◌∙◌, refl, ap, sym, ◌⊎◌, inl, inr, true, false, none, some, List, [], ◌∷◌,
  ◌++◌, length, arith, ◌==◌, Option-cases, append_assoc, append-nil,
}
use wivrn_nx_windows.Bridge.{Bridge, Haptic, pop_haptic}
use wivrn_nx_windows.Session.Serve.{Pulse, PulseFloats, pulse_of, haptics_loop, pump_haptics}

module _ {F : Type 0} (floats : PulseFloats F) where
  -- The pulses that the headset can play, in order.
  unfoldable pub pulses : List (Haptic F) → List (Pulse F)
  unfolding pulse_of
  pulses [] = []
  pulses (h ∷ hs) = elim (pulse_of floats h) [ none ↦ pulses hs | some p ↦ p ∷ pulses hs ]

  pulses_skip :
      (h : Haptic F) (hs : List (Haptic F)) → pulse_of floats h ≡ none → pulses (h ∷ hs) ≡ pulses hs
  unfolding pulses
  pulses_skip h hs k = rw (k, pulses) refl

  pulses_play :
      (h : Haptic F) (hs : List (Haptic F)) (p : Pulse F)
      → pulse_of floats h ≡ some p
      → pulses (h ∷ hs) ≡ p ∷ pulses hs
  unfolding pulses
  pulses_play h hs p k = rw (k, pulses) refl

  loop_end :
      (fuel : ℕ) (b : Bridge F) (sent : List (Pulse F))
      → b.haptics ≡ []
      → haptics_loop floats (suc fuel) b sent ≡ (b, sent)
  unfolding haptics_loop pop_haptic
  loop_end fuel b sent e = ground arith

  loop_skip :
      (fuel : ℕ) (b : Bridge F) (h : Haptic F) (hs : List (Haptic F)) (sent : List (Pulse F))
      → b.haptics ≡ h ∷ hs
      → pulse_of floats h ≡ none
      → haptics_loop floats (suc fuel) b sent
        ≡ haptics_loop floats fuel (record b { haptics = hs }) sent
  unfolding haptics_loop pop_haptic
  loop_skip fuel b h hs sent e k = ground arith

  loop_play :
      (fuel : ℕ) (b : Bridge F) (h : Haptic F) (hs : List (Haptic F)) (sent : List (Pulse F))
      (p : Pulse F)
      → b.haptics ≡ h ∷ hs
      → pulse_of floats h ≡ some p
      → haptics_loop floats (suc fuel) b sent
        ≡ haptics_loop floats fuel (record b { haptics = hs }) (sent ++ (p ∷ []))
  unfolding haptics_loop pop_haptic
  loop_play fuel b h hs sent p e k = ground arith

  -- The queue is empty, and what was in it that can be played went out behind the rest.
  abbrev Played : Bridge F → List (Haptic F) → List (Pulse F) → Bridge F × List (Pulse F) → Type 0
  Played b hs sent r = (r.0 ≡ record b { haptics = [] }) × (r.1 ≡ sent ++ pulses hs)

  loop-Played :
      (fuel : ℕ) (b : Bridge F) (hs : List (Haptic F)) (sent : List (Pulse F))
      → b.haptics ≡ hs
      → length hs < fuel
      → Played b hs sent (haptics_loop floats fuel b sent)
  unfolding pulses
  loop-Played zero b hs sent e room = absurd (omega arith)
  loop-Played (suc fuel) b [] sent e room =
      rw (loop_end fuel b sent e) (ap (λ q. record b { haptics = q }) e, sym (append-nil sent))
  loop-Played (suc fuel) b (h ∷ hs) sent e room =
      let b1 : Bridge F = record b { haptics = hs } in
      elim (Option-cases (pulse_of floats h)) [
        | inl silent ↦
            let (empty, all) = loop-Played fuel b1 hs sent refl (omega arith) in
            rw (loop_skip fuel b h hs sent e silent)
              (empty, all ∙ ap (λ xs. sent ++ xs) (sym (pulses_skip h hs silent)))
        | inr (p, played) ↦
            let (empty, all) = loop-Played fuel b1 hs (sent ++ (p ∷ [])) refl (omega arith) in
            rw (loop_play fuel b h hs sent p e played) (
              empty,
              all
                  ∙ append_assoc sent (p ∷ []) (pulses hs)
                  ∙ ap (λ xs. sent ++ xs) (sym (pulses_play h hs p played)),
            )
      ]

  -- A pulse for a controller, 1 the left and 2 the right one, all of whose values are finite.
  abbrev pub IsPlayable : Haptic F → Type 0
  IsPlayable h =
      ((h.device ≡ 1) ⊎ (h.device ≡ 2))
      × (floats.is_finite h.duration_s ≡ true)
      × (floats.is_finite h.frequency_hz ≡ true)
      × (floats.is_finite h.amplitude ≡ true)

  -- Another one.
  abbrev pub IsSilent : Haptic F → Type 0
  IsSilent h =
      (((h.device == 1) ≡ false) × ((h.device == 2) ≡ false))
      ⊎ (floats.is_finite h.duration_s ≡ false)
      ⊎ (floats.is_finite h.frequency_hz ≡ false)
      ⊎ (floats.is_finite h.amplitude ≡ false)

  -- The pulse as the headset gets it.
  abbrev pub Sounds : Haptic F → Pulse F → Type 0
  Sounds h p =
      (p.is_left ≡ (h.device == 1))
      × (p.duration_ns ≡ floats.duration_ns h.duration_s)
      × (p.frequency ≡ h.frequency_hz)
      × (p.amplitude ≡ floats.amplitude h.amplitude)

  -- The second list is the playable pulses of the first, in order.
  unfoldable pub Plays : List (Haptic F) → List (Pulse F) → Type 0
  Plays [] ps = ps ≡ []
  Plays (h ∷ hs) ps =
      (IsSilent h × Plays hs ps)
      ⊎ (IsPlayable h
          × ((p : Pulse F) × (qs : List (Pulse F)) × (ps ≡ p ∷ qs) × Sounds h p × Plays hs qs))

  pulse_of-IsSilent : (h : Haptic F) → pulse_of floats h ≡ none → IsSilent h
  unfolding pulse_of
  pulse_of-IsSilent h k = ground arith

  pulse_of-IsPlayable :
      (h : Haptic F) (p : Pulse F) → pulse_of floats h ≡ some p → IsPlayable h × Sounds h p
  unfolding pulse_of
  pulse_of-IsPlayable h p k = ground arith

  pulses-Plays : (hs : List (Haptic F)) → Plays hs (pulses hs)
  unfolding Plays pulses
  pulses-Plays [] = refl
  pulses-Plays (h ∷ hs) = elim (Option-cases (pulse_of floats h)) [
    | inl silent ↦ inl (pulse_of-IsSilent h silent, rw (pulses_skip h hs silent) (pulses-Plays hs))
    | inr (p, played) ↦
        let (playable, sounds) = pulse_of-IsPlayable h p played in
        inr (playable, (p, pulses hs, pulses_play h hs p played, sounds, pulses-Plays hs))
  ]

  -- Pumping the pulses empties the queue and sends those for a controller whose values are all
  -- finite, in order and no others.
  pub pump_haptics_lem :
      (b : Bridge F)
      → ((pump_haptics floats b).0 ≡ record b { haptics = [] })
        × Plays b.haptics (pump_haptics floats b).1
  unfolding pump_haptics
  pump_haptics_lem b =
      let (empty, all) = loop-Played (suc (length b.haptics)) b b.haptics [] refl (omega arith) in
      (empty, rw all (pulses-Plays b.haptics))
