-- ===== src/Session/Transport.antt =====
-- The transport operations of session.cpp: what the headset asks for, what the controller decides and
-- what the encoder is told of it.
--
-- publish_config, which hands the bridge another configuration, and the log are left out; nothing
-- here reads that configuration. What a float answers is a parameter.
use wivrn_nx_windows.Base.{
  ℕ, ◌+◌, Bool, true, false, not, ◌&&◌, ◌||◌, xor_bool, ◌==◌, if◌then◌else◌, Option, none, some,
  List, [], ◌∷◌,
}
use wivrn_nx_windows.Base.Int.{ℤ}
use wivrn_nx_windows.VideoBridge.{VideoBridge, prefs, set_bitrate, set_client, request_idr}
use wivrn_nx_windows.Idr
use wivrn_nx_windows.Idr.{IdrTracker}
use wivrn_nx_windows.Pacer
use wivrn_nx_windows.Pacer.{PacingSlot}
use wivrn_nx_windows.Bitrate.{Doubles, Mode, Config, Feedback, Controller}
use wivrn_nx_windows.Bitrate.Control
use wivrn_nx_windows.Bitrate.Control.{
  configure, set_radio_aware, set_client_enabled, set_client_mode, set_pacing_window,
}
use wivrn_nx_windows.Bitrate.Wifi.{on_wifi_state}

pub data Codec : Type 0 where
  h264 h265 other : Codec

-- `headset_info_packet::settings`.
pub record Settings (F : Type 0) : Type 0 where
  pub preferred_refresh_rate : F
  pub standby_freeze : Bool
  pub bitrate_auto : Bool
  pub radio_aware : Bool
  pub bitrate_control : Option Mode
  pub smooth_pacing : Bool
  pub fec : Bool

pub record HeadsetInfo (F : Type 0) : Type 0 where
  pub settings : Settings F
  pub available_refresh_rates : List F
  pub supported_codecs : List Codec

-- What is asked of a refresh rate: `x > 1`, `!=`, `<`, 90, and the frame period in nanoseconds.
pub record Rates (F : Type 0) : Type 0 where
  pub above_one : F → Bool
  pub ne : F → F → Bool
  pub less : F → F → Bool
  pub ninety : F
  pub period_ns : F → ℤ

-- What does not change: the defaults of the controller, whether there is a stream socket, the pacing
-- window and its largest value, and the share of a bitrate that parity leaves to the data.
pub record Constants (D : Type 0) : Type 0 where
  pub conf : Config
  pub has_stream_socket : Bool
  pub paced_window : D
  pub no_window : D
  pub data_share : ℕ → ℕ

pub record Transport (F D : Type 0) : Type 0 where
  pub video : VideoBridge F
  pub bitrate : Controller D
  pub idr : IdrTracker
  pub slot : PacingSlot
  pub info : HeadsetInfo F
  pub refresh_hz : F
  pub standby_freeze : Bool
  pub pacing_enabled : Bool
  pub fec_enabled : Bool
  pub idr_requests : ℕ
  pub discarded_packets : ℕ

-- The two codecs that can be produced, among those that the headset names.
abbrev pub names_h265 : List Codec → Bool
names_h265 [] = false
names_h265 (h265 ∷ cs) = true
names_h265 (c ∷ cs) = names_h265 cs

abbrev pub names_h264 : List Codec → Bool
names_h264 [] = false
names_h264 (h264 ∷ cs) = true
names_h264 (c ∷ cs) = names_h264 cs

module _ {F : Type 0} (rates : Rates F) where
  -- `std::max_element`, behind `best`.
  pub largest : F → List F → F
  largest best [] = best
  largest best (x ∷ xs) = largest (if rates.less best x then x else best) xs

  pub refresh_of : HeadsetInfo F → F
  unfolding largest
  refresh_of info =
      let preferred = info.settings.preferred_refresh_rate in
      if rates.above_one preferred
      then preferred
      else elim info.available_refresh_rates [ [] ↦ rates.ninety | x ∷ xs ↦ largest x xs ]

module _ {F D : Type 0} where
  -- A key frame is asked for if the tracker grants one.
  unfoldable pub granted : Transport F D → IdrTracker × Bool → Transport F D
  granted t (idr, true) = record t {
    idr = idr;
    video = request_idr t.video;
    idr_requests = t.idr_requests + 1;
  }
  granted t (idr, false) = record t { idr = idr }

module _ {F D : Type 0} (k : Constants D) where
  unfoldable pub apply_bitrate : Transport F D → Option ℕ → Transport F D
  apply_bitrate t none = t
  apply_bitrate t (some bps) = if bps == 0 then t else record t {
    video = set_bitrate t.video (if t.fec_enabled then k.data_share bps else bps);
  }

  -- What a call of the controller answers is applied.
  unfoldable pub decided : Transport F D → Controller D × Option ℕ → Transport F D
  unfolding apply_bitrate
  decided t (c, answer) = apply_bitrate (record t { bitrate = c }) answer

module _ {F D : Type 0} (rates : Rates F) where
  unfoldable pub publish_video_request : Transport F D → Transport F D
  publish_video_request t =
      let allow_h265 = names_h265 t.info.supported_codecs in
      let named_h264 = names_h264 t.info.supported_codecs in
      let allow_h264 = named_h264 || not allow_h265 in
      record t { video = set_client rates.ne t.video t.refresh_hz allow_h265 allow_h264 }

  unfoldable pub refresh_rate_changed : Transport F D → F → Transport F D
  unfolding publish_video_request
  refresh_rate_changed t to =
      if rates.above_one to then publish_video_request (record t { refresh_hz = to }) else t

module _ {F D : Type 0} (d : Doubles D) (rates : Rates F) (k : Constants D) where
  unfoldable pub window_of : Bool → D
  window_of pacing = if pacing then k.paced_window else k.no_window

  unfoldable pub configure_transport : Transport F D → Transport F D
  unfolding window_of apply_bitrate
  configure_transport t =
      let p = prefs t.video in
      let s = t.info.settings in
      let pacing = p.adaptive && s.smooth_pacing in
      let conf = record (k.conf) { enabled = p.adaptive } in
      let configured =
        configure d t.bitrate conf p.ceiling_bps s.bitrate_auto s.radio_aware s.bitrate_control in
      let c = set_pacing_window d configured (window_of pacing) in
      let t1 = record t {
        bitrate = c;
        slot = Pacer.reset t.slot;
        pacing_enabled = pacing;
        fec_enabled = p.adaptive && s.fec && k.has_stream_socket;
      } in
      apply_bitrate k t1 (some c.bitrate)

  unfoldable pub on_headset_info : Transport F D → HeadsetInfo F → Transport F D
  unfolding publish_video_request configure_transport
  on_headset_info t info = configure_transport (
      publish_video_request rates (record t {
        info = info;
        refresh_hz = refresh_of rates info;
        standby_freeze = info.settings.standby_freeze;
      }))

  -- Whether the settings bring another refresh rate.
  unfoldable pub changes_rate : Transport F D → Settings F → Bool
  changes_rate t s =
      rates.above_one s.preferred_refresh_rate && rates.ne s.preferred_refresh_rate t.refresh_hz

  -- The refresh rate of new settings.
  unfoldable pub set_rate : Transport F D → Settings F → Transport F D
  unfolding changes_rate publish_video_request
  set_rate t s =
      if changes_rate t s
      then publish_video_request rates (record t { refresh_hz = s.preferred_refresh_rate })
      else t

  unfoldable pub set_pacing : Transport F D → Bool → Transport F D
  unfolding window_of
  set_pacing t pacing =
      if xor_bool pacing t.pacing_enabled
      then record t {
        pacing_enabled = pacing;
        slot = Pacer.reset t.slot;
        bitrate = set_pacing_window d t.bitrate (window_of pacing);
      }
      else t

  unfoldable pub set_fec : Transport F D → Bool → Transport F D
  unfolding apply_bitrate
  set_fec t fec =
      if xor_bool fec t.fec_enabled
      then apply_bitrate k (record t { fec_enabled = fec }) (some t.bitrate.bitrate)
      else t

  unfoldable pub on_settings : Transport F D → Settings F → Transport F D
  unfolding set_rate decided set_pacing set_fec
  on_settings t s =
      let t1 = set_rate (record t { standby_freeze = s.standby_freeze }) s in
      let t2 = record t1 { info = record (t1.info) { settings = s } } in
      let adaptive = (prefs t2.video).adaptive in
      let t3 = record t2 { bitrate = set_radio_aware t2.bitrate (adaptive && s.radio_aware) } in
      let t4 = decided k t3 (set_client_enabled d t3.bitrate (adaptive && s.bitrate_auto)) in
      let t5 = decided k t4 (set_client_mode d t4.bitrate s.bitrate_control) in
      let t6 = set_pacing t5 (adaptive && s.smooth_pacing) in
      set_fec t6 (adaptive && s.fec && k.has_stream_socket)

  -- The packet as the tracker and the controller read it.
  unfoldable pub on_feedback : Transport F D → Idr.Feedback → Feedback → ℕ → Transport F D
  unfolding granted decided
  on_feedback t seen f now =
      let t1 = granted t (Idr.on_feedback t.idr seen now) in
      decided k t1 (Control.on_feedback d t1.bitrate f (rates.period_ns t.refresh_hz) true now)

  unfoldable pub on_wifi : Transport F D → Bool → ℤ → ℤ → ℕ → Transport F D
  unfolding decided
  on_wifi t valid rssi_dbm link_speed_mbps now =
      if not valid
      then record t { discarded_packets = t.discarded_packets + 1 }
      else decided k t (on_wifi_state d t.bitrate rssi_dbm link_speed_mbps now)
