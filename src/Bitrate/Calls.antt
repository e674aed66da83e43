-- ===== src/Bitrate/Calls.antt =====
-- Sequences of calls of bitrate_controller.cpp.
use wivrn_nx_windows.Base.{
  ℕ, min, ◌≤◌, ◌≡◌, refl, ◌⊎◌, inl, inr, Bool, true, Option, none, some, arith, List, [], ◌∷◌,
}
use wivrn_nx_windows.Base.Int.{ℤ}
use wivrn_nx_windows.Bitrate.{Doubles, Mode, aimd, bbr, Config, Feedback, Controller, mode, flush}
use wivrn_nx_windows.Bitrate.Control.{
  same_mode, set_radio_aware, configure, reset_locked, set_client_mode, set_pacing_window,
  set_client_enabled, set_ceiling, on_frame_bytes, on_feedback,
}
use wivrn_nx_windows.Bitrate.Wifi.{on_wifi_state}
use wivrn_nx_windows.Bitrate.Range.{InRange, SameRates}
use wivrn_nx_windows.Bitrate.Steps.{
  on_frame_bytes-SameRates, on_feedback-Decides, on_wifi_state-Decides,
}

-- The calls that a configured controller gets.
pub data Call (D : Type 0) : Type 0 where
  ceiling : ℕ → Call D
  client_on : Bool → Call D
  client_mode : Option Mode → Call D
  radio_aware : Bool → Call D
  pacing : D → Call D
  frame_bytes : ℕ → ℕ → ℕ → ℕ → Call D
  feedback : Feedback → ℤ → Bool → ℕ → Call D
  wifi : ℤ → ℤ → ℕ → Call D

module _ {D : Type 0} (d : Doubles D) where
  -- The state after a call, and the bitrate that the encoder is told.
  unfoldable pub step : Controller D → Call D → Controller D × Option ℕ
  step c (Call.ceiling n) = set_ceiling d c n
  step c (Call.client_on on) = set_client_enabled d c on
  step c (Call.client_mode m) = set_client_mode d c m
  step c (Call.radio_aware aware) = (set_radio_aware c aware, none)
  step c (Call.pacing w) = (set_pacing_window d c w, none)
  step c (Call.frame_bytes frame stream bytes now) =
      (on_frame_bytes d c frame stream bytes now, none)
  step c (Call.feedback f period streaming now) = on_feedback d c f period streaming now
  step c (Call.wifi rssi speed now) = on_wifi_state d c rssi speed now

  unfoldable pub run : Controller D → List (Call D) → Controller D
  unfolding step
  run c [] = c
  run c (k ∷ ks) = run (step c k).0 ks

  -- The bitrate of an encoder that is at `rate` before the calls and follows every answer.
  unfoldable pub encoder : ℕ → Controller D → List (Call D) → ℕ
  unfolding step
  encoder rate c [] = rate
  encoder rate c (k ∷ ks) =
      let (c1, told) = step c k in encoder (elim told [ none ↦ rate | some b ↦ b ]) c1 ks

  -- No call gave a ceiling yet, or the bitrate is in its range and the floor is the configured one.
  unfoldable pub IsValid : Controller D → Type 0
  IsValid c = (c.ceiling ≡ 0) ⊎ (InRange c × (c.min_bitrate ≡ min c.conf.min_bitrate_bps c.ceiling))

  -- The encoder of a controller at bitrate `before` is where it should be after `p`.
  abbrev pub Followed : ℕ → Controller D × Option ℕ → Type 0
  Followed before p = ((p.1 ≡ none) × (p.0.bitrate ≡ before)) ⊎ (p.1 ≡ some p.0.bitrate)

  pub configure-IsValid :
      (c : Controller D) (conf : Config) (n : ℕ) (on aware : Bool) (choice : Option Mode)
      → IsValid (configure d c conf n on aware choice)
  unfolding IsValid configure flush
  configure-IsValid c conf n on aware choice = ground arith

  reset_locked-IsValid :
      (c : Controller D)
      → (c.ceiling ≡ 0) ⊎ (c.min_bitrate ≡ min c.conf.min_bitrate_bps c.ceiling)
      → IsValid (reset_locked d c).0 × Followed c.bitrate (reset_locked d c)
  unfolding IsValid reset_locked flush
  reset_locked-IsValid c h = ground arith

  IsValid-same : (c c' : Controller D) → SameRates c c' → IsValid c → IsValid c'
  unfolding IsValid
  IsValid-same c c' same h = ground arith

  set_ceiling-IsValid :
      (c : Controller D) (n : ℕ)
      → IsValid c
      → IsValid (set_ceiling d c n).0 × Followed c.bitrate (set_ceiling d c n)
  unfolding set_ceiling
  set_ceiling-IsValid c n h =
      let lowered : Controller D = record c {
        ceiling = n;
        min_bitrate = min c.conf.min_bitrate_bps n;
      } in
      ground (arith, reset_locked-IsValid lowered)

  set_client_enabled-IsValid :
      (c : Controller D) (on : Bool)
      → IsValid c
      → IsValid (set_client_enabled d c on).0 × Followed c.bitrate (set_client_enabled d c on)
  unfolding set_client_enabled IsValid
  set_client_enabled-IsValid c on h =
      let switched : Controller D = record c { client_enabled = on } in
      ground (arith, reset_locked-IsValid switched)

  same_mode_sound : (m n : Mode) → same_mode m n ≡ true → m ≡ n
  unfolding same_mode
  same_mode_sound aimd aimd h = refl
  same_mode_sound bbr bbr h = refl
  same_mode_sound aimd bbr h = ground arith
  same_mode_sound bbr aimd h = ground arith

  set_client_mode-IsValid :
      (c : Controller D) (m : Option Mode)
      → IsValid c
      → IsValid (set_client_mode d c m).0 × Followed c.bitrate (set_client_mode d c m)
  unfolding set_client_mode IsValid
  set_client_mode-IsValid c m h =
      let chosen : Controller D = record c { client_mode = m } in
      ground (arith, reset_locked-IsValid chosen, same_mode_sound (mode c) (mode chosen))

  pub set_radio_aware-SameRates :
      (c : Controller D) (aware : Bool) → SameRates c (set_radio_aware c aware)
  unfolding set_radio_aware
  set_radio_aware-SameRates c aware = ground arith

  pub on_feedback_off :
      (c : Controller D) (f : Feedback) (period_ns : ℤ) (streaming : Bool) (now : ℕ)
      → c.ceiling ≡ 0
      → on_feedback d c f period_ns streaming now ≡ (c, none)
  unfolding on_feedback
  on_feedback_off c f period_ns streaming now h = ground arith

  pub on_wifi_state_off :
      (c : Controller D) (rssi_dbm link_speed_mbps : ℤ) (now : ℕ)
      → c.ceiling ≡ 0
      → on_wifi_state d c rssi_dbm link_speed_mbps now ≡ (c, none)
  unfolding on_wifi_state
  on_wifi_state_off c rssi_dbm link_speed_mbps now h = ground arith

  on_feedback-IsValid :
      (c : Controller D) (f : Feedback) (period_ns : ℤ) (streaming : Bool) (now : ℕ)
      → IsValid c
      → IsValid (on_feedback d c f period_ns streaming now).0
        × Followed c.bitrate (on_feedback d c f period_ns streaming now)
  unfolding IsValid
  on_feedback-IsValid c f period_ns streaming now (inl none_given) =
      ground (arith, on_feedback_off c f period_ns streaming now none_given)
  on_feedback-IsValid c f period_ns streaming now (inr (h, floor)) =
      ground (arith, on_feedback-Decides d c f period_ns streaming now h)

  on_wifi_state-IsValid :
      (c : Controller D) (rssi_dbm link_speed_mbps : ℤ) (now : ℕ)
      → IsValid c
      → IsValid (on_wifi_state d c rssi_dbm link_speed_mbps now).0
        × Followed c.bitrate (on_wifi_state d c rssi_dbm link_speed_mbps now)
  unfolding IsValid
  on_wifi_state-IsValid c rssi_dbm link_speed_mbps now (inl none_given) =
      ground (arith, on_wifi_state_off c rssi_dbm link_speed_mbps now none_given)
  on_wifi_state-IsValid c rssi_dbm link_speed_mbps now (inr (h, floor)) =
      ground (arith, on_wifi_state-Decides d c rssi_dbm link_speed_mbps now h)

  pub step-IsValid :
      (c : Controller D) (k : Call D)
      → IsValid c
      → IsValid (step c k).0 × Followed c.bitrate (step c k)
  unfolding step set_pacing_window
  step-IsValid c (Call.ceiling n) h = set_ceiling-IsValid c n h
  step-IsValid c (Call.client_on on) h = set_client_enabled-IsValid c on h
  step-IsValid c (Call.client_mode m) h = set_client_mode-IsValid c m h
  step-IsValid c (Call.radio_aware aware) h =
      let same = set_radio_aware-SameRates c aware in
      (IsValid-same c (set_radio_aware c aware) same h, inl (refl, same.5))
  step-IsValid c (Call.pacing w) h = (
    IsValid-same c (set_pacing_window d c w) (refl, refl, refl, refl, refl, refl, refl, refl, refl)
        h,
    inl (refl, refl),
  )
  step-IsValid c (Call.frame_bytes frame stream bytes now) h =
      let same = on_frame_bytes-SameRates d c frame stream bytes now in
      (IsValid-same c (on_frame_bytes d c frame stream bytes now) same h, inl (refl, same.5))
  step-IsValid c (Call.feedback f period streaming now) h =
      on_feedback-IsValid c f period streaming now h
  step-IsValid c (Call.wifi rssi speed now) h = on_wifi_state-IsValid c rssi speed now h

  -- Any calls keep a valid state valid.
  pub run-IsValid : (c : Controller D) (ks : List (Call D)) → IsValid c → IsValid (run c ks)
  unfolding run
  run-IsValid c [] h = h
  run-IsValid c (k ∷ ks) h = run-IsValid (step c k).0 ks (step-IsValid c k h).0

  pub encoder-run :
      (c : Controller D) (ks : List (Call D))
      → IsValid c
      → encoder c.bitrate c ks ≡ (run c ks).bitrate
  unfolding encoder run
  encoder-run c [] h = refl
  encoder-run c (k ∷ ks) h =
      let (valid, followed) = step-IsValid c k h in
      let same : elim (step c k).1 [ none ↦ c.bitrate | some b ↦ b ] ≡ (step c k).0.bitrate =
        ground arith in
      rw same (encoder-run (step c k).0 ks valid)

  -- After `configure` and any calls, under either law, the ceiling is 0, or the bitrate is at
  -- most the ceiling and at least the smaller of the configured minimum and the ceiling.
  pub run-configure_bounded :
      (c : Controller D) (conf : Config) (n : ℕ) (on aware : Bool) (choice : Option Mode)
      (ks : List (Call D))
      → let last = run (configure d c conf n on aware choice) ks in
        (last.ceiling ≡ 0)
        ⊎ ((min last.conf.min_bitrate_bps last.ceiling ≤ last.bitrate)
            × (last.bitrate ≤ last.ceiling))
  unfolding IsValid
  run-configure_bounded c conf n on aware choice ks = ground (
    arith,
    run-IsValid (configure d c conf n on aware choice) ks
        (configure-IsValid c conf n on aware choice),
  )

  -- After `configure` and any calls, an encoder that starts at the configured ceiling and
  -- follows every answer has the bitrate of the controller.
  pub encoder-configure :
      (c : Controller D) (conf : Config) (n : ℕ) (on aware : Bool) (choice : Option Mode)
      (ks : List (Call D))
      → encoder n (configure d c conf n on aware choice) ks
        ≡ (run (configure d c conf n on aware choice) ks).bitrate
  unfolding configure flush
  encoder-configure c conf n on aware choice ks =
      encoder-run (configure d c conf n on aware choice) ks
        (configure-IsValid c conf n on aware choice)
