-- ===== src/VideoBridge/Stream.antt =====
-- The published stream of video_bridge.cpp.
use wivrn_nx_windows.Base.{◌≡◌, refl, Bool, true, false, List, [], ◌∷◌, arith}
use wivrn_nx_windows.VideoBridge.{
  EncodedFrame, EncoderStreamInfo, VideoBridge, publish_stream, push_frames,
}

module _ {F : Type 0} where
  pub valid-publish_stream :
      (b : VideoBridge F) (info : EncoderStreamInfo) (valid : Bool)
      → (publish_stream b info valid).stream.valid ≡ valid
  unfolding publish_stream
  valid-publish_stream b info true = ground arith
  valid-publish_stream b info false = ground arith

  pub push_frames-stream :
      (b : VideoBridge F) (fs : List (EncodedFrame F)) → (push_frames b fs).stream ≡ b.stream
  unfolding push_frames
  push_frames-stream b [] = refl
  push_frames-stream b (f ∷ fs) = ground arith
