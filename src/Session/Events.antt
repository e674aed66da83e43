-- ===== src/Session/Events.antt =====
-- What the headset sends to session.cpp, in any order, and the bitrate of the encoder.
use wivrn_nx_windows.Base.{ℕ, ◌≡◌, ◌⊎◌, Bool, true, false, List, [], ◌∷◌, arith}
use wivrn_nx_windows.Base.Int.{ℤ}
use wivrn_nx_windows.VideoBridge.{set_client}
use wivrn_nx_windows.Idr
use wivrn_nx_windows.Idr.{IdrTracker}
use wivrn_nx_windows.Bitrate.{Doubles, Feedback}
use wivrn_nx_windows.Session.Transport.{
  Settings, HeadsetInfo, Rates, Constants, Transport, publish_video_request, refresh_rate_changed,
  on_headset_info, changes_rate, on_settings, on_feedback, on_wifi,
}
use wivrn_nx_windows.Session.Follows.{
  Follows, Kept, on_feedback-Kept, on_wifi-Kept, on_settings-Kept, on_headset_info-Kept,
}

-- What the headset sends about video once its first packet came.
pub data Event (F : Type 0) : Type 0 where
  feedback : Idr.Feedback → Feedback → ℕ → Event F
  wifi : Bool → ℤ → ℤ → ℕ → Event F
  settings : Settings F → Event F
  info : HeadsetInfo F → Event F
  refresh_rate : F → Event F

module _ {F D : Type 0} (d : Doubles D) (rates : Rates F) (k : Constants D) where
  unfoldable pub receive : Transport F D → Event F → Transport F D
  unfolding on_feedback on_wifi on_settings on_headset_info refresh_rate_changed
  receive t (feedback seen f now) = on_feedback d rates k t seen f now
  receive t (wifi valid rssi speed now) = on_wifi d rates k t valid rssi speed now
  receive t (settings s) = on_settings d rates k t s
  receive t (info i) = on_headset_info d rates k t i
  receive t (refresh_rate to) = refresh_rate_changed rates t to

  unfoldable pub receive_all : Transport F D → List (Event F) → Transport F D
  unfolding receive
  receive_all t [] = t
  receive_all t (e ∷ es) = receive_all (receive t e) es

  -- The event brings no other refresh rate, or all of the headset's settings with it.
  unfoldable pub KeepsRate : Transport F D → Event F → Type 0
  KeepsRate t (feedback seen f now) = Unit
  KeepsRate t (wifi valid rssi speed now) = Unit
  KeepsRate t (settings s) = changes_rate d rates k t s ≡ false
  KeepsRate t (info i) = Unit
  KeepsRate t (refresh_rate to) = rates.above_one to ≡ false

  unfoldable pub KeepRate : Transport F D → List (Event F) → Type 0
  unfolding KeepsRate receive
  KeepRate t [] = Unit
  KeepRate t (e ∷ es) = KeepsRate t e × KeepRate (receive t e) es

  receive-Kept :
      (t : Transport F D) (e : Event F)
      → KeepsRate t e
      → Kept d rates k t
      → Kept d rates k (receive t e)
  unfolding receive KeepsRate
  receive-Kept t (feedback seen f now) same h = on_feedback-Kept d rates k t seen f now h
  receive-Kept t (wifi valid rssi speed now) same h =
      on_wifi-Kept d rates k t valid rssi speed now h
  receive-Kept t (settings s) same h = on_settings-Kept d rates k t s same h
  receive-Kept t (info i) same h = on_headset_info-Kept d rates k t i
  receive-Kept t (refresh_rate to) same h = rw (same, refresh_rate_changed) h

  receive_all-Kept :
      (t : Transport F D) (es : List (Event F))
      → KeepRate t es
      → Kept d rates k t
      → Kept d rates k (receive_all t es)
  unfolding receive_all KeepRate
  receive_all-Kept t [] same h = h
  receive_all-Kept t (e ∷ es) (one, same) h =
      receive_all-Kept (receive t e) es same (receive-Kept t e one h)

  -- From the headset's first packet on the encoder is told the bitrate of the controller, less the
  -- share of parity, whatever reports and settings come, as long as none brings another refresh
  -- rate.
  pub on_headset_info-Follows :
      (t : Transport F D) (first : HeadsetInfo F) (es : List (Event F))
      → KeepRate (on_headset_info d rates k t first) es
      → Follows k (receive_all (on_headset_info d rates k t first) es)
  unfolding Kept
  on_headset_info-Follows t first es same =
      (receive_all-Kept (on_headset_info d rates k t first) es same
        (on_headset_info-Kept d rates k t first)).0

module _ {F D : Type 0} (rates : Rates F) where
  -- Another refresh rate puts the encoder back on the ceiling, and the controller knows nothing of
  -- it; a rate of at most one changes nothing.
  pub refresh_rate_changed_lem :
      (t : Transport F D) (to : F)
      → let out = refresh_rate_changed rates t to in
        (out.bitrate ≡ t.bitrate)
        × (((rates.above_one to ≡ true)
              × (out.video.wanted.bitrate_bps ≡ t.video.pref_bitrate_bps)
              × (out.video.wanted.active ≡ true))
            ⊎ ((rates.above_one to ≡ false) × (out ≡ t)))
  unfolding refresh_rate_changed publish_video_request set_client
  refresh_rate_changed_lem t to = ground arith
