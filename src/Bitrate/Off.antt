-- ===== src/Bitrate/Off.antt =====
-- Switching the automatic bitrate of bitrate_controller.cpp off.
use wivrn_nx_windows.Base.{ℕ, ◌≡◌, ◌≢◌, refl, true, false, none, some, arith, List, [], ◌∷◌, All}
use wivrn_nx_windows.Bitrate.{Doubles, Controller, flush}
use wivrn_nx_windows.Bitrate.Control.{
  enabled, reset_locked, set_client_enabled, on_frame_bytes, on_feedback,
}
use wivrn_nx_windows.Bitrate.Wifi.{on_wifi_state}
use wivrn_nx_windows.Bitrate.Calls.{Call, step, run, encoder}

module _ {D : Type 0} where
  -- A call that reports on the link, and none that the client decides.
  unfoldable pub Reports : Call D → Type 0
  Reports (Call.frame_bytes frame stream bytes now) = Unit
  Reports (Call.feedback f period streaming now) = Unit
  Reports (Call.wifi rssi speed now) = Unit
  Reports k = ⊥

module _ {D : Type 0} (d : Doubles D) where
  step_disabled :
      (c : Controller D) (k : Call D) → enabled c ≡ false → Reports k → step d c k ≡ (c, none)
  unfolding step Reports on_frame_bytes on_feedback on_wifi_state
  step_disabled c (Call.ceiling n) off r = elim r [ ]
  step_disabled c (Call.client_on on) off r = elim r [ ]
  step_disabled c (Call.client_mode m) off r = elim r [ ]
  step_disabled c (Call.radio_aware aware) off r = elim r [ ]
  step_disabled c (Call.pacing w) off r = elim r [ ]
  step_disabled c (Call.frame_bytes frame stream bytes now) off r = rw off ground arith
  step_disabled c (Call.feedback f period streaming now) off r = rw off refl
  step_disabled c (Call.wifi rssi speed now) off r = rw off refl

  encoder_disabled :
      (c : Controller D) (rate : ℕ) (ks : List (Call D))
      → enabled c ≡ false
      → All Reports ks
      → (run d c ks ≡ c) × (encoder d rate c ks ≡ rate)
  unfolding run encoder
  encoder_disabled c rate [] off r = (refl, refl)
  encoder_disabled c rate (k ∷ ks) off (r, rs) =
      rw (step_disabled c k off r) (encoder_disabled c rate ks off rs)

  switched_off :
      (c : Controller D)
      → c.client_enabled ≡ true
      → c.ceiling ≢ 0
      → let p = step d c (Call.client_on false) in
        (p.1 ≡ some c.ceiling) × (p.0.bitrate ≡ c.ceiling) × (enabled p.0 ≡ false)
  unfolding step set_client_enabled reset_locked flush enabled
  switched_off c on given = ground arith

  -- Where the client's switch is on and the ceiling is not 0, switching off leaves the bitrate,
  -- and that of an encoder that follows the answers, at the ceiling, whatever reports on the
  -- link follow.
  pub set_client_enabled_off :
      (c : Controller D) (rate : ℕ) (ks : List (Call D))
      → c.client_enabled ≡ true
      → c.ceiling ≢ 0
      → All Reports ks
      → let calls = Call.client_on false ∷ ks in
        ((run d c calls).bitrate ≡ c.ceiling) × (encoder d rate c calls ≡ c.ceiling)
  unfolding run encoder
  set_client_enabled_off c rate ks on given r =
      let p = step d c (Call.client_on false) in
      let (told, high, off) = switched_off c on given in
      let (kept, followed) = encoder_disabled p.0 c.ceiling ks off r in
      (rw kept high, rw told followed)
