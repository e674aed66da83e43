-- ===== src/Session.antt =====
-- helper/src/wivrn/session.h and session.cpp: the session of a headset, on the parts that it drives.
--
-- Here is the state of the video: the frames drawn from the encoder's queue and handed to the sender,
-- a burst at a time. The clock and the sockets come as arguments; what fills the view and the times
-- of a frame, and all that is a float, are values of parameters. The log is left out.
pub mod Send
pub mod Trim
pub mod Transport
pub mod Follows
pub mod Events
pub mod Serve
pub mod Served
pub mod Haptics
pub mod Rounds
pub mod TakeIn
pub mod Pump
mod Tests
use wivrn_nx_windows.Base.{
  ℕ, zero, suc, ◌+◌, ◌-◌, Bool, true, false, not, ◌&&◌, ltb, ◌==◌, if◌then◌else◌, Option, none,
  some, List, [], ◌∷◌, ◌++◌, length,
}
use wivrn_nx_windows.Base.Int.{ℤ}
use wivrn_nx_windows.VideoBridge.{VideoBridge, EncodedFrame}
use wivrn_nx_windows.ClockOffset.{ClockOffset}
use wivrn_nx_windows.Idr.{IdrTracker}
use wivrn_nx_windows.Pacer.{PacingSlot}
use wivrn_nx_windows.Sender.{Wire, Message, Sinks, PacedSender}
use wivrn_nx_windows.Bitrate.{Controller}

abbrev pub max_video_queued : ℕ
max_video_queued = 6

-- What the frames of a call go by: the switches, whether there is a stream socket, the window, the
-- frame period, the clock, and what becomes of a time and a pose in the types of the wire format.
pub record Link (F : Type 0) (w : Wire) : Type 0 where
  pub pacing_enabled : Bool
  pub fec_enabled : Bool
  pub has_stream_socket : Bool
  pub pacing_window : F
  pub frame_period_ns : ℤ
  pub frequency : ℕ
  pub offset : ClockOffset
  pub predicted_ns : F → ℤ
  pub view : ℤ → List F → List F → w.View
  pub timing : ℤ → ℤ → w.Timing
  pub sinks : Sinks w

-- A driving of the sender may throw, which `broken` says for each, with what it leaves of the sender;
-- `told` is what the controller's clock shows as it is told of a frame.
pub record Fate (w : Wire) : Type 0 where
  pub broken : ℕ → Option (PacedSender w → PacedSender w)
  pub told : ℕ → ℕ

-- `messages` is what the sinks were handed by the drivings that did not throw, `pumps` how often the
-- sender was driven.
pub record Video (F D : Type 0) (w : Wire) : Type 0 where
  pub bridge : VideoBridge F
  pub queue : List (EncodedFrame F)
  pub sender : PacedSender w
  pub slot : PacingSlot
  pub idr : IdrTracker
  pub bitrate : Controller D
  pub next_video_due : ℕ
  pub frames_sent : ℕ
  pub shards_sent : ℕ
  pub parity_sent : ℕ
  pub bytes_sent : ℕ
  pub send_errors : ℕ
  pub frames_dropped : ℕ
  pub messages : List (Message w)
  pub pumps : ℕ

-- What is next for the sender.
pub data Next : Type 0 where
  nothing skipped frame : Next
