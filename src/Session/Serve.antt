-- ===== src/Session/Serve.antt =====
-- What a pass of the loop of session.cpp does beside the video: the description of the stream, the
-- pulses for the controllers, and how long it waits for a packet.
use wivrn_nx_windows.Base.{
  ℕ, zero, suc, ◌+◌, ◌-◌, ◌/◌, ◌%◌, ◌^◌, min, Bool, true, not, ◌&&◌, leb, ◌==◌, if◌then◌else◌,
  Option, none, some, List, [], ◌∷◌, ◌++◌, length,
}
use wivrn_nx_windows.VideoBridge.{
  VideoBridge, VideoCodec, codec_eq, EncoderStreamInfo, stream_state, request_idr,
}
use wivrn_nx_windows.Idr
use wivrn_nx_windows.Idr.{IdrTracker}
use wivrn_nx_windows.Bridge.{Bridge, Haptic, pop_haptic}
use wivrn_nx_windows.Session.Transport.{Rates}

-- `video_stream_description`, without the fields that never change.
pub record Description (F : Type 0) : Type 0 where
  pub width : ℕ
  pub height : ℕ
  pub codec : VideoCodec
  pub rate : F

-- `sent` is what the headset was told of the stream.
pub record Stream (F : Type 0) : Type 0 where
  pub video : VideoBridge F
  pub idr : IdrTracker
  pub idr_requests : ℕ
  pub refresh_hz : F
  pub stream_generation : ℕ
  pub description : Description F
  pub description_sent : Bool
  pub sent : List (Description F)

-- A pulse as the headset gets it.
pub record Pulse (F : Type 0) : Type 0 where
  pub is_left : Bool
  pub duration_ns : ℕ
  pub frequency : F
  pub amplitude : F

-- What is asked of the floats of a pulse: whether one is finite, five seconds at most in nanoseconds,
-- and an amplitude within 0 and 1.
pub record PulseFloats (F : Type 0) : Type 0 where
  pub is_finite : F → Bool
  pub duration_ns : F → ℕ
  pub amplitude : F → F

module _ {F : Type 0} where
  -- The description of a stream, with sizes of 16 bits.
  unfoldable pub described : EncoderStreamInfo → F → Description F
  described info rate = record {
    width = info.width % 2 ^ 16;
    height = info.height % 2 ^ 16;
    codec = info.codec;
    rate = rate;
  }

module _ {F : Type 0} (rates : Rates F) where
  -- The defaulted `operator==`.
  unfoldable pub same_description : Description F → Description F → Bool
  same_description a b =
      a.width == b.width
      && a.height == b.height
      && codec_eq a.codec b.codec
      && not (rates.ne a.rate b.rate)

  unfoldable pub update_stream_description : Stream F → Stream F
  unfolding described same_description
  update_stream_description s =
      let state = stream_state s.video in
      let seen = record s { stream_generation = state.generation } in
      let desc = described state.info s.refresh_hz in
      if state.generation == s.stream_generation
      then s
      else if not state.valid
      then seen
      else if s.description_sent && same_description desc s.description
      then seen
      else record seen {
        description = desc;
        description_sent = true;
        sent = s.sent ++ (desc ∷ []);
        video = request_idr s.video;
        idr_requests = s.idr_requests + 1;
        idr = Idr.reset s.idr;
      }

-- The milliseconds that the loop waits in `poll`: 20, or less for a burst that is due before.
unfoldable pub poll_timeout : ℕ → ℕ → ℕ
poll_timeout due now =
    if due == 0 then 20 else min (if leb due now then 0 else (due - now + 999_999) / 1_000_000) 20

module _ {F : Type 0} (floats : PulseFloats F) where
  -- The pulse for a controller, 1 the left and 2 the right one, if all of it is finite.
  unfoldable pub pulse_of : Haptic F → Option (Pulse F)
  pulse_of h =
      let finite =
        floats.is_finite h.duration_s
        && floats.is_finite h.frequency_hz
        && floats.is_finite h.amplitude in
      if not (h.device == 1) && not (h.device == 2)
      then none
      else if not finite
      then none
      else some (record {
        is_left = h.device == 1;
        duration_ns = floats.duration_ns h.duration_s;
        frequency = h.frequency_hz;
        amplitude = floats.amplitude h.amplitude;
      })

  -- The loop, on fuel: a round for each pulse in the queue and one more.
  unfoldable pub haptics_loop : ℕ → Bridge F → List (Pulse F) → Bridge F × List (Pulse F)
  unfolding pulse_of
  haptics_loop zero b sent = (b, sent)
  haptics_loop (suc fuel) b sent =
      let (b1, next) = pop_haptic b in
      elim next [
        | none ↦ (b1, sent)
        | some h ↦ elim (pulse_of h) [
          | none ↦ haptics_loop fuel b1 sent
          | some p ↦ haptics_loop fuel b1 (sent ++ (p ∷ []))
        ]
      ]

  unfoldable pub pump_haptics : Bridge F → Bridge F × List (Pulse F)
  unfolding haptics_loop
  pump_haptics b = haptics_loop (suc (length b.haptics)) b []
