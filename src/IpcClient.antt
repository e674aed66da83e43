-- ===== src/IpcClient.antt =====
-- shim/src/ipc_client.h and ipc_client.cpp: the shim's end of the pipe to the helper.
--
-- What Win32 answers comes as arguments: whether the pipe opens, what a read and a wait end in, and
-- for each write whether it goes through. A message is its type and its payload; what the bytes of
-- a payload say is a parameter. A callback is what it asks the client to queue. What other threads
-- ask comes in between two passes of the loop, and their test of `connected_` and the push that follows
-- it may have other steps in between. Handles, events and the log are left out.
pub mod Loop
pub mod Queue
pub mod Phases
pub mod Sessions
pub mod Left
pub mod Threads
pub mod Stable
pub mod Spoken
pub mod Heeded
pub mod Wire
pub mod Talk
mod Tests
use wivrn_nx_windows.Base.{
  ℕ, zero, suc, ◌+◌, ◌-◌, Bool, true, false, not, ◌&&◌, ltb, leb, ◌==◌, if◌then◌else◌, Option, none,
  some, List, [], ◌∷◌, ◌++◌, length, drop,
}
use wivrn_nx_windows.Staging.{StagingConfig}
use wivrn_nx_windows.Bridge.{HmdConfig, PoseUpdate, InputUpdate, Haptic}
use wivrn_nx_windows.Intake.{FrameReady, FrameDone}
use wivrn_nx_windows.PipeServer.{Message}

abbrev pub max_pending_messages : ℕ
max_pending_messages = 64

abbrev pub max_pending_payload : ℕ
max_pending_payload = 64

abbrev pub handshake_timeout_ms : ℕ
handshake_timeout_ms = 10_000

-- In nanoseconds.
abbrev pub keep_alive_interval : ℕ
keep_alive_interval = 1_000_000_000

-- A message to the helper: magic, version and process of the greeting, the time of a keep-alive.
pub data ToHelper (F : Type 0) : Type 0 where
  shim_hello : ℕ → ℕ → ℕ → ToHelper F
  keep_alive : ℕ → ToHelper F
  haptic : Haptic F → ToHelper F
  staging_config : StagingConfig → ToHelper F
  frame_ready : FrameReady F → ToHelper F

-- The callbacks, with what they are told.
pub data Callback (F : Type 0) : Type 0 where
  on_config : HmdConfig F → Callback F
  on_pose : PoseUpdate F → Callback F
  on_device_add : ℕ → Callback F
  on_device_remove : ℕ → Callback F
  on_input : InputUpdate F → Callback F
  on_frame_done : FrameDone → Callback F
  on_session_ready on_disconnect : Callback F

pub data MessageType : Type 0 where
  helper_hello hmd_config pose_update device_add device_remove input_update frame_done unknown :
      MessageType

abbrev pub message_type : ℕ → MessageType
message_type n =
    if n == 100
    then helper_hello
    else if n == 101
    then hmd_config
    else if n == 102
    then pose_update
    else if n == 103
    then device_add
    else if n == 104
    then device_remove
    else if n == 105
    then input_update
    else if n == 202
    then frame_done
    else unknown

pub record HelperHello : Type 0 where
  pub magic : ℕ
  pub version : ℕ

-- What the bytes of a payload say.
pub record Layout (F P : Type 0) : Type 0 where
  pub hello : P → HelperHello
  pub hmd_config : P → HmdConfig F
  pub pose_update : P → PoseUpdate F
  pub device_add : P → ℕ
  pub device_remove : P → ℕ
  pub input_update : P → InputUpdate F
  pub frame_done : P → FrameDone

-- What `ReadFile` answers at once.
pub data Started (P : Type 0) : Type 0 where
  completed : Message P → Started P
  in_flight failed : Started P

-- Which event the wait ends with; of the read, with what it reads if it succeeds.
pub data Waited (P : Type 0) : Type 0 where
  for_read : Option (Message P) → Waited P
  for_stop for_outgoing for_timeout for_nothing : Waited P

pub data ReadResult (P : Type 0) : Type 0 where
  message : Message P → ReadResult P
  timeout stopped error interrupted : ReadResult P

-- `heard` is which callbacks fired, `sent` what went through since the pipe opened, `writes` how
-- often it was tried.
pub record IpcClient (F : Type 0) : Type 0 where
  pub running : Bool
  pub connected : Bool
  pub pipe : Bool
  pub read_pending : Bool
  pub pending : List (ToHelper F)
  pub heard : List (Callback F)
  pub sent : List (ToHelper F)
  pub writes : ℕ

-- The locals of `run_session`.
pub record Session (F : Type 0) : Type 0 where
  pub client : IpcClient F
  pub got_helper_hello : Bool
  pub got_config : Bool
  pub next_keep_alive : ℕ

-- What a thread asks the client to queue.
pub data Request (F : Type 0) : Type 0 where
  a_haptic : Haptic F → Request F
  a_staging_config : StagingConfig → Request F
  a_frame_ready : FrameReady F → Request F

-- A pass of the loop of a session: what the others asked since the last, what they push now that the
-- test without the lock let in before, and whether one stopped the client, the clock and the counter at its start, the read, and the clock at its end.
pub record Turn (F P : Type 0) : Type 0 where
  pub requests : List (Request F)
  pub pushes : List (Request F)
  pub stops : Bool
  pub now : ℕ
  pub qpc : ℕ
  pub read : Started P
  pub wait : Waited P
  pub later : ℕ

-- A pass of the loop of the thread: what the others push before it that was let in when there was a
-- session, whether the client was stopped before it, whether the pipe
-- is there and takes the mode, the session's start and passes, and whether the back-off elapses.
pub record Attempt (F P : Type 0) : Type 0 where
  pub pushes : List (Request F)
  pub stops : Bool
  pub created : Bool
  pub mode_set : Bool
  pub process : ℕ
  pub start : ℕ
  pub turns : List (Turn F P)
  pub elapses : Bool

unfoldable pub payload_size : {F : Type 0} → ToHelper F → ℕ
payload_size (shim_hello magic version pid) = 12
payload_size (keep_alive time) = 8
payload_size (haptic h) = 20
payload_size (staging_config c) = 48
payload_size (frame_ready f) = 56
