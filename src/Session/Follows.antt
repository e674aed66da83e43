-- ===== src/Session/Follows.antt =====
-- The bitrate of the encoder under the transport operations of session.cpp.
use wivrn_nx_windows.Base.{
  ℕ, ◌+◌, ◌≡◌, refl, ◌⊎◌, Bool, true, false, not, ◌&&◌, Option, none, some, arith, xor_bool,
  if◌then◌else◌, either, ◌==◌,
}
use wivrn_nx_windows.Base.Int.{ℤ}
use wivrn_nx_windows.VideoBridge.{prefs, set_bitrate, set_client, request_idr}
use wivrn_nx_windows.Idr
use wivrn_nx_windows.Idr.{IdrTracker}
use wivrn_nx_windows.Pacer
use wivrn_nx_windows.Bitrate.{Doubles, Config, Feedback, Controller}
use wivrn_nx_windows.Bitrate.Calls.{Call, step, IsValid, step-IsValid, configure-IsValid}
use wivrn_nx_windows.Bitrate.Control.{set_pacing_window, configure}
use wivrn_nx_windows.Session.Transport.{
  Settings, HeadsetInfo, Rates, Constants, Transport, apply_bitrate, decided, publish_video_request,
  configure_transport, on_headset_info, changes_rate, set_rate, set_pacing, set_fec, on_settings,
  granted, on_feedback, on_wifi, window_of, refresh_of,
}

module _ {F D : Type 0} (k : Constants D) where
  -- What the encoder should produce: the controller's bitrate, less what parity takes.
  abbrev pub target : Transport F D → ℕ
  target t = if t.fec_enabled then k.data_share t.bitrate.bitrate else t.bitrate.bitrate

  -- The encoder is active and is told to produce that, unless it is nothing.
  unfoldable pub Follows : Transport F D → Type 0
  Follows t =
      (t.video.wanted.active ≡ true)
      × ((t.bitrate.bitrate ≡ 0) ⊎ (target t ≡ 0) ⊎ (t.video.wanted.bitrate_bps ≡ target t))

  apply_bitrate-Follows :
      (t : Transport F D)
      → t.video.wanted.active ≡ true
      → Follows (apply_bitrate k t (some t.bitrate.bitrate))
  unfolding apply_bitrate Follows set_bitrate
  apply_bitrate-Follows t on = ground arith

  decided-Follows :
      (t : Transport F D) (p : Controller D × Option ℕ)
      → ((p.1 ≡ none) × (p.0.bitrate ≡ t.bitrate.bitrate)) ⊎ (p.1 ≡ some p.0.bitrate)
      → Follows t
      → Follows (decided k t p)
  unfolding decided apply_bitrate Follows set_bitrate
  decided-Follows t (c, answer) h (on, same) = ground arith

  decided_bitrate :
      (t : Transport F D) (p : Controller D × Option ℕ) → (decided k t p).bitrate ≡ p.0
  unfolding decided apply_bitrate
  decided_bitrate t (c, none) = refl
  decided_bitrate t (c, some bps) =
      let t1 : Transport F D = record t { bitrate = c } in
      either (λ x. x.bitrate ≡ c) (bps == 0) t1
        (record t1 {
          video = set_bitrate t.video (if t.fec_enabled then k.data_share bps else bps);
        })
        refl refl

module _ {F D : Type 0} (d : Doubles D) (rates : Rates F) (k : Constants D) where
  -- The encoder follows a controller that is in its range.
  unfoldable pub Kept : Transport F D → Type 0
  Kept t = Follows k t × IsValid d t.bitrate

  called-Kept : (t : Transport F D) (c : Call D) → Kept t → Kept (decided k t (step d t.bitrate c))
  unfolding Kept
  called-Kept t c (h, valid) =
      let (valid', followed) = step-IsValid d t.bitrate c valid in
      (
        decided-Follows k t (step d t.bitrate c) followed h,
        rw (decided_bitrate k t (step d t.bitrate c)) valid',
      )

  granted-Kept : (t : Transport F D) (p : IdrTracker × Bool) → Kept t → Kept (granted t p)
  unfolding granted Kept Follows request_idr
  granted-Kept t (idr, true) (h, valid) = (h, valid)
  granted-Kept t (idr, false) (h, valid) = (h, valid)

  -- A report of the headset.
  pub on_feedback-Kept :
      (t : Transport F D) (seen : Idr.Feedback) (f : Feedback) (now : ℕ)
      → Kept t
      → Kept (on_feedback d rates k t seen f now)
  unfolding on_feedback step
  on_feedback-Kept t seen f now h =
      let t1 = granted t (Idr.on_feedback t.idr seen now) in
      called-Kept t1 (Call.feedback f (rates.period_ns t.refresh_hz) true now)
        (granted-Kept t (Idr.on_feedback t.idr seen now) h)

  pub on_wifi-Kept :
      (t : Transport F D) (valid : Bool) (rssi speed : ℤ) (now : ℕ)
      → Kept t
      → Kept (on_wifi d rates k t valid rssi speed now)
  unfolding on_wifi step Kept Follows
  on_wifi-Kept t valid rssi speed now h =
      either Kept (not valid) (record t { discarded_packets = t.discarded_packets + 1 })
        (decided k t (step d t.bitrate (Call.wifi rssi speed now))) h
        (called-Kept t (Call.wifi rssi speed now) h)

  -- A call whose answer is none.
  pacing-Kept : (t : Transport F D) (pacing : Bool) → Kept t → Kept (set_pacing d rates k t pacing)
  unfolding set_pacing Kept Follows set_pacing_window step
  pacing-Kept t pacing (h, valid) =
      let w = window_of d rates k pacing in
      let called = step-IsValid d t.bitrate (Call.pacing w) valid in ground arith

  -- The bitrate of the moment is told.
  applied-Kept :
      (t : Transport F D)
      → t.video.wanted.active ≡ true
      → IsValid d t.bitrate
      → Kept (apply_bitrate k t (some t.bitrate.bitrate))
  unfolding Kept decided
  applied-Kept t on valid = (
    apply_bitrate-Follows k t on,
    rw (decided_bitrate k t (t.bitrate, some t.bitrate.bitrate)) valid,
  )

  fec-Kept : (t : Transport F D) (fec : Bool) → Kept t → Kept (set_fec d rates k t fec)
  unfolding set_fec Kept Follows
  fec-Kept t fec ((on, same), valid) =
      let t1 : Transport F D = record t { fec_enabled = fec } in
      either Kept (xor_bool fec t.fec_enabled) (apply_bitrate k t1 (some t.bitrate.bitrate)) t
        (applied-Kept t1 on valid) ((on, same), valid)

  configure_transport-Kept :
      (t : Transport F D) → t.video.wanted.active ≡ true → Kept (configure_transport d rates k t)
  unfolding configure_transport step
  configure_transport-Kept t on =
      let p = prefs t.video in
      let s = t.info.settings in
      let pacing = p.adaptive && s.smooth_pacing in
      let conf : Config = record (k.conf) { enabled = p.adaptive } in
      let configured =
        configure d t.bitrate conf p.ceiling_bps s.bitrate_auto s.radio_aware s.bitrate_control in
      let w = window_of d rates k pacing in
      let valid =
        configure-IsValid d t.bitrate conf p.ceiling_bps s.bitrate_auto s.radio_aware
          s.bitrate_control in
      let t1 : Transport F D = record t {
        bitrate = set_pacing_window d configured w;
        slot = Pacer.reset t.slot;
        pacing_enabled = pacing;
        fec_enabled = p.adaptive && s.fec && k.has_stream_socket;
      } in
      applied-Kept t1 on (step-IsValid d configured (Call.pacing w) valid).0

  pub on_headset_info-Kept :
      (t : Transport F D) (info : HeadsetInfo F) → Kept (on_headset_info d rates k t info)
  unfolding on_headset_info publish_video_request set_client
  on_headset_info-Kept t info =
      configure_transport-Kept
        (publish_video_request rates (record t {
          info = info;
          refresh_hz = refresh_of rates info;
          standby_freeze = info.settings.standby_freeze;
        }))
        refl

  same_rate :
      (t : Transport F D) (s : Settings F)
      → changes_rate d rates k t s ≡ false
      → set_rate d rates k t s ≡ t
  unfolding set_rate
  same_rate t s h = rw h refl

  pub on_settings-Kept :
      (t : Transport F D) (s : Settings F)
      → changes_rate d rates k t s ≡ false
      → Kept t
      → Kept (on_settings d rates k t s)
  unfolding on_settings Kept Follows step decided apply_bitrate changes_rate
  on_settings-Kept t s same h =
      let t0 : Transport F D = record t { standby_freeze = s.standby_freeze } in
      let t2 : Transport F D = record t0 { info = record (t0.info) { settings = s } } in
      let adaptive = (prefs t2.video).adaptive in
      let aware = Call.radio_aware (adaptive && s.radio_aware) in
      let t3 = decided k t2 (step d t2.bitrate aware) in
      let auto = Call.client_on (adaptive && s.bitrate_auto) in
      let t4 = decided k t3 (step d t3.bitrate auto) in
      let mode = Call.client_mode s.bitrate_control in
      let t5 = decided k t4 (step d t4.bitrate mode) in
      let h3 = called-Kept t2 aware h in
      let h4 = called-Kept t3 auto h3 in
      let h5 = called-Kept t4 mode h4 in
      let t6 = set_pacing d rates k t5 (adaptive && s.smooth_pacing) in
      let h6 = pacing-Kept t5 (adaptive && s.smooth_pacing) h5 in
      rw (same_rate t0 s same) (fec-Kept t6 (adaptive && s.fec && k.has_stream_socket) h6)
