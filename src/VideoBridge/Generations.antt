-- ===== src/VideoBridge/Generations.antt =====
-- The encoder thread watches the generations of video_bridge.cpp: no change escapes them.
use wivrn_nx_windows.Base.{ℕ, ◌+◌, ◌≤◌, ◌<◌, ◌≡◌, ◌⊎◌, Bool, true, false, List, [], ◌∷◌, arith}
use wivrn_nx_windows.VideoBridge.{
  EncodedFrame, EncoderStreamInfo, VideoRequest, VideoBridge, set_bitrate, set_client, clear_client,
  request_idr, take_frames, publish_stream, push_frames,
}

-- The calls of a session and of the encoder thread, `set_prefs` at start-up apart.
pub data Call (F : Type 0) : Type 0 where
  bitrate : ℕ → Call F
  client : F → Bool → Bool → Call F
  gone : Call F
  idr : Call F
  taken : Call F
  published : EncoderStreamInfo → Bool → Call F
  pushed : List (EncodedFrame F) → Call F

module _ {F : Type 0} (hz_ne : F → F → Bool) where
  pub call : VideoBridge F → Call F → VideoBridge F
  call b (bitrate bps) = set_bitrate b bps
  call b (client hz with_h265 with_h264) = set_client hz_ne b hz with_h265 with_h264
  call b gone = clear_client b
  call b idr = request_idr b
  call b taken = (take_frames b []).0
  call b (published info valid) = publish_stream b info valid
  call b (pushed fs) = push_frames b fs

  pub calls : VideoBridge F → List (Call F) → VideoBridge F
  calls b [] = b
  calls b (c ∷ cs) = calls (call b c) cs

  -- A new client gets what it offers, less the codec that the command line rules out, at the
  -- ceiling. It gets a new encoder and a key frame unless an active client asked for the same; a
  -- bitrate that moves is told by its generation.
  pub set_client_lem :
      (b : VideoBridge F) (hz : F) (with_h265 with_h264 : Bool)
      → let r = b.wanted in
        let r' = (set_client hz_ne b hz with_h265 with_h264).wanted in
        (r'.active ≡ true)
        × ((r'.allow_h265 ≡ false) ⊎ (with_h265 ≡ true))
        × ((r'.allow_h264 ≡ false) ⊎ (with_h264 ≡ true))
        × (((r'.config_generation ≡ r.config_generation + 1)
              × (r'.idr_generation ≡ r.idr_generation + 1))
            ⊎ ((r.active ≡ true)
                × (hz_ne r.refresh_hz hz ≡ false)
                × (r'.allow_h265 ≡ r.allow_h265)
                × (r'.allow_h264 ≡ r.allow_h264)
                × (r'.config_generation ≡ r.config_generation)
                × (r'.idr_generation ≡ r.idr_generation)))
        × (r'.bitrate_bps ≡ b.pref_bitrate_bps)
        × ((r'.bitrate_generation ≡ r.bitrate_generation + 1)
            ⊎ ((r.bitrate_bps ≡ b.pref_bitrate_bps)
                × (r'.bitrate_generation ≡ r.bitrate_generation)))
  unfolding set_client
  set_client_lem b hz with_h265 with_h264 = ground arith

  -- What the encoder thread may conclude from the generations of two requests.
  pub record Follows (r r' : VideoRequest F) : Type 0 where
    pub bitrate_later : r.bitrate_generation ≤ r'.bitrate_generation
    pub config_later : r.config_generation ≤ r'.config_generation
    pub idr_later : r.idr_generation ≤ r'.idr_generation
    pub bitrate : (r'.bitrate_bps ≡ r.bitrate_bps) ⊎ (r.bitrate_generation < r'.bitrate_generation)
    pub codecs :
        ((r'.allow_h265 ≡ r.allow_h265) × (r'.allow_h264 ≡ r.allow_h264))
        ⊎ ((r.config_generation < r'.config_generation) × (r.idr_generation < r'.idr_generation))

  call-Follows : (b : VideoBridge F) (c : Call F) → Follows b.wanted (call b c).wanted
  unfolding call set_bitrate clear_client request_idr take_frames publish_stream push_frames
  call-Follows b (bitrate bps) = ground arith
  call-Follows b (client hz with_h265 with_h264) =
      ground (arith, set_client_lem b hz with_h265 with_h264)
  call-Follows b gone = ground arith
  call-Follows b idr = ground arith
  call-Follows b taken = ground arith
  call-Follows b (published info valid) = ground arith
  call-Follows b (pushed []) = ground arith
  call-Follows b (pushed (f ∷ fs)) = ground arith

  -- Over any calls, `set_prefs` apart, the generations never fall; a bitrate that differs comes with a higher bitrate
  -- generation, and codecs that differ come with a higher config and a higher IDR generation.
  pub calls-Follows :
      (b : VideoBridge F) (cs : List (Call F)) → Follows b.wanted (calls b cs).wanted
  unfolding calls
  calls-Follows b [] = ground arith
  calls-Follows b (c ∷ cs) = ground (arith, call-Follows b c, calls-Follows (call b c) cs)
