-- ===== src/Session/Tests.antt =====
-- session.cpp with two frames from the encoder, a sender that throws once, and a headset that
-- changes its settings.
use wivrn_nx_windows.Base.{
  ℕ, ◌+◌, ◌*◌, ◌/◌, ◌≡◌, ◌≤◌, ◌<◌, ◌⊎◌, refl, inl, inr, Bool, true, false, none, some, List, [],
  ◌∷◌, length, arith, ltb, ◌==◌, not, if◌then◌else◌,
}
use wivrn_nx_windows.Base.Int.{pos}
use wivrn_nx_windows.VideoBridge
use wivrn_nx_windows.VideoBridge.{EncodedFrame}
use wivrn_nx_windows.Idr
use wivrn_nx_windows.Idr.{IdrTracker}
use wivrn_nx_windows.Sender.Tests.{wire, idle, plain}
use wivrn_nx_windows.Pacer.Tests.{percent, slot}
use wivrn_nx_windows.Bitrate.{aimd}
use wivrn_nx_windows.Bitrate.Tests.{hundredths, conf, blank, packet}
use wivrn_nx_windows.PipeServer.Tests.{video, hmd}
use wivrn_nx_windows.Bridge.{Bridge, Haptic, make}
use wivrn_nx_windows.Session.{Link, Fate, Video, max_video_queued}
use wivrn_nx_windows.Session.Send.{pump_video, take_in}
use wivrn_nx_windows.Session.Trim.{IsSuffix}
use wivrn_nx_windows.Session.Rounds.{IsWell, Rests}
use wivrn_nx_windows.Session.Pump.{pump_video_lem}
use wivrn_nx_windows.Session.Transport.{
  h264, h265, Settings, HeadsetInfo, Rates, Constants, Transport, on_headset_info,
  refresh_rate_changed, changes_rate,
}
use wivrn_nx_windows.Session.Serve.{
  Description, PulseFloats, Stream, described, same_description, update_stream_description,
  poll_timeout, pulse_of, pump_haptics,
}
use wivrn_nx_windows.Session.Served.{
  poll_timeout_lem, LastSent, Remembers, Keeps, Sends, NotTold, update_stream_description_lem,
}
use wivrn_nx_windows.Session.Haptics.{pulses, Plays, pump_haptics_lem}
use wivrn_nx_windows.Session.Follows.{Follows}
use wivrn_nx_windows.Session.Events.{
  Event, feedback, settings, refresh_rate, receive_all, KeepsRate, KeepRate,
  on_headset_info-Follows, refresh_rate_changed_lem,
}

abbrev link : Link ℕ wire
link = record {
  pacing_enabled = true;
  fec_enabled = false;
  has_stream_socket = true;
  pacing_window = 40;
  frame_period_ns = pos 11_000_000;
  frequency = 10_000_000;
  offset = record { b = pos 5; stable = true };
  predicted_ns = λ s. pos s;
  view = λ t q p. 0;
  timing = λ begins ends. 0;
  sinks = plain;
}

-- The second driving of the sender throws.
abbrev fate : Fate wire
fate = record { broken = λ n. if n == 1 then some (λ s. s) else none; told = λ n. n }

abbrev picture : ℕ → Bool → EncodedFrame ℕ
picture n idr = record {
  frame_id = n;
  sample_time_qpc = 10;
  predict_s = 20;
  pose_q = [];
  pose_p = [];
  stream_index = 0;
  idr = idr;
  bytes = 1 ∷ 2 ∷ 3 ∷ [];
}

abbrev tracker : IdrTracker
tracker = record {
  state = Idr.idr_received;
  idr_id = 0;
  first_p = 0;
  pending = false;
  last_request = 0;
  damped = 0;
}

abbrev session : Video ℕ ℕ wire
session = record {
  bridge = record video { frames = picture 7 true ∷ picture 8 false ∷ [] };
  queue = [];
  sender = idle;
  slot = slot;
  idr = tracker;
  bitrate = blank;
  next_video_due = 0;
  frames_sent = 0;
  shards_sent = 0;
  parity_sent = 0;
  bytes_sent = 0;
  send_errors = 0;
  frames_dropped = 0;
  messages = [];
  pumps = 0;
}

well : IsWell session
unfolding IsWell
well = inl refl

room : length session.queue ≤ max_video_queued
room = ground arith

pump_video_lem_example :
    (out : Video ℕ ℕ wire) × (pump_video hundredths percent link fate session 100 ≡ some out)
    × IsWell out
    × Rests 100 out
    × IsSuffix (take_in session).queue out.queue
    × (length out.queue ≤ max_video_queued)
pump_video_lem_example = pump_video_lem hundredths percent link fate session 100 well room

abbrev rates : Rates ℕ
rates = record {
  above_one = λ x. ltb 1 x;
  ne = λ x y. not (x == y);
  less = λ x y. ltb x y;
  ninety = 90;
  period_ns = λ x. pos (1_000_000_000 / x);
}

-- Parity takes a ninth.
abbrev constants : Constants ℕ
constants = record {
  conf = conf;
  has_stream_socket = true;
  paced_window = 40;
  no_window = 0;
  data_share = λ b. b * 8 / 9;
}

abbrev chosen : ℕ → Bool → Settings ℕ
chosen rate fec = record {
  preferred_refresh_rate = rate;
  standby_freeze = true;
  bitrate_auto = true;
  radio_aware = false;
  bitrate_control = some aimd;
  smooth_pacing = true;
  fec = fec;
}

abbrev headset : HeadsetInfo ℕ
headset = record {
  settings = chosen 90 true;
  available_refresh_rates = 72 ∷ 90 ∷ [];
  supported_codecs = h265 ∷ h264 ∷ [];
}

abbrev transport : Transport ℕ ℕ
transport = record {
  video = video;
  bitrate = blank;
  idr = tracker;
  slot = slot;
  info = headset;
  refresh_hz = 72;
  standby_freeze = false;
  pacing_enabled = false;
  fec_enabled = false;
  idr_requests = 0;
  discarded_packets = 0;
}

abbrev events : List (Event ℕ)
events =
    feedback (record { frame_index = 1; sent_to_decoder = true }) (packet 1) 5
    ∷ settings (chosen 0 false)
    ∷ refresh_rate 1
    ∷ []

keep_rate :
    KeepRate hundredths rates constants
      (on_headset_info hundredths rates constants transport headset)
      events
unfolding KeepRate KeepsRate changes_rate
keep_rate = (tt, (refl, (refl, tt)))

on_headset_info-Follows_example : Follows constants (
    receive_all hundredths rates constants
      (on_headset_info hundredths rates constants transport headset)
      events)
on_headset_info-Follows_example =
    on_headset_info-Follows hundredths rates constants transport headset events keep_rate

refresh_rate_changed_lem_example :
    let out = refresh_rate_changed rates transport 120 in
    (out.bitrate ≡ transport.bitrate)
    × (((rates.above_one 120 ≡ true)
          × (out.video.wanted.bitrate_bps ≡ transport.video.pref_bitrate_bps)
          × (out.video.wanted.active ≡ true))
        ⊎ ((rates.above_one 120 ≡ false) × (out ≡ transport)))
refresh_rate_changed_lem_example = refresh_rate_changed_lem rates transport 120

abbrev buzz : ℕ → ℕ → Haptic ℕ
buzz device duration = record {
  device = device;
  duration_s = duration;
  frequency_hz = 100;
  amplitude = 1;
}

-- A duration of 9 stands for one that is not finite.
abbrev floats : PulseFloats ℕ
floats = record {
  is_finite = λ x. not (x == 9);
  duration_ns = λ x. x * 1_000_000_000;
  amplitude = λ x. x;
}

abbrev buzzing : Bridge ℕ
buzzing = record (make 0 1 hmd) { haptics = buzz 1 2 ∷ buzz 0 2 ∷ buzz 2 9 ∷ buzz 2 1 ∷ [] }

pump_haptics_lem_example :
    ((pump_haptics floats buzzing).0 ≡ record buzzing { haptics = [] })
    × Plays floats buzzing.haptics (pump_haptics floats buzzing).1
pump_haptics_lem_example = pump_haptics_lem floats buzzing

-- The pulse for the headset and the one that is not finite stay behind.
played : length (pulses floats buzzing.haptics) ≡ 2
unfolding pulses pulse_of
played = refl

abbrev stream : Stream ℕ
stream = record {
  video = record video {
    stream = record {
      info = record { width = 1920; height = 1080; codec = VideoBridge.h265 };
      valid = true;
      generation = 2;
    };
  };
  idr = tracker;
  idr_requests = 0;
  refresh_hz = 90;
  stream_generation = 1;
  description = record { width = 1280; height = 720; codec = VideoBridge.h264; rate = 90 };
  description_sent = true;
  sent = record { width = 1280; height = 720; codec = VideoBridge.h264; rate = 90 } ∷ [];
}

remembers : Remembers rates stream
remembers = inr (refl, ([], refl))

update_stream_description_lem_example :
    let t = update_stream_description rates stream in
    let now = described stream.video.stream.info stream.refresh_hz in
    Remembers rates t
    × (t.stream_generation ≡ 2)
    × ((((stream.stream_generation ≡ 2) ⊎ (stream.video.stream.valid ≡ false))
          × Keeps rates stream t)
        ⊎ (((last : Description ℕ) × LastSent rates stream last
              × (same_description rates now last ≡ true))
            × Keeps rates stream t)
        ⊎ ((stream.video.stream.valid ≡ true)
            × ((2 == stream.stream_generation) ≡ false)
            × NotTold rates stream now
            × Sends rates stream now t))
update_stream_description_lem_example = update_stream_description_lem rates stream remembers

abbrev due : ℕ
due = 5_500_000

poll_timeout_lem_example :
    let wait = poll_timeout due 3_000_000 in
    ((due ≡ 0) × (wait ≡ 20))
    ⊎ ((0 < due) × (due ≤ 3_000_000) × (wait ≡ 0))
    ⊎ ((3_000_000 < due)
        × (0 < wait)
        × (wait ≤ 20)
        × (3_000_000 + wait * 1_000_000 < due + 1_000_000)
        × ((wait ≡ 20) ⊎ (due ≤ 3_000_000 + wait * 1_000_000)))
poll_timeout_lem_example = poll_timeout_lem due 3_000_000
