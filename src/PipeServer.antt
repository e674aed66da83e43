-- ===== src/PipeServer.antt =====
-- helper/src/pipe_server.h and pipe_server.cpp: the helper's end of the pipe to the shim.
--
-- What Win32 answers comes as arguments: what a wait ends in, and for each write whether it goes
-- through. A message is its type and its payload; what the bytes of a payload say is a parameter.
-- The bridge and the intake are those of the other parts, and what other threads do to them comes
-- in between two passes of the loop. The log is left out.
pub mod Loop
pub mod Opening
pub mod Session
pub mod Answered
pub mod Tests
use wivrn_nx_windows.Base.{
  ℕ, zero, suc, ◌+◌, ◌-◌, ◌<◌, Bool, true, false, not, ◌&&◌, ◌||◌, ltb, ◌==◌, if◌then◌else◌, Option,
  none, some, List, [], ◌∷◌, ◌++◌, length,
}
use wivrn_nx_windows.VideoBridge.{VideoBridge}
use wivrn_nx_windows.Staging.{StagingConfig}
use wivrn_nx_windows.Bridge.{
  Haptic, Outgoing, hmd_config, device_add, device_remove, pose_update, input_update, Cursor,
  Bridge, fresh, collect, push_haptic,
}
use wivrn_nx_windows.Intake.{
  FrameReady, FrameDone, Intake, set_vrserver_pid, on_staging_config, on_frame_ready, on_shim_gone,
  pop_done,
}

abbrev pub protocol_version : ℕ
protocol_version = 3

abbrev pub shim_magic : ℕ
shim_magic = 1398296151

abbrev pub helper_magic : ℕ
helper_magic = 1213746775

abbrev pub max_message_size : ℕ
max_message_size = 512

pub data MessageType : Type 0 where
  shim_hello keep_alive haptic staging_config frame_ready other : MessageType

abbrev pub message_type : ℕ → MessageType
message_type n =
    if n == 1
    then shim_hello
    else if n == 2
    then keep_alive
    else if n == 3
    then haptic
    else if n == 200
    then staging_config
    else if n == 201
    then frame_ready
    else other

pub record ShimHello : Type 0 where
  pub magic : ℕ
  pub version : ℕ
  pub vrserver_pid : ℕ

-- What the bytes of a payload say.
pub record Layout (F P : Type 0) : Type 0 where
  pub hello : P → ShimHello
  pub haptic : P → Haptic F
  pub staging_config : P → StagingConfig
  pub frame_ready : P → FrameReady F

-- A message of `size` bytes, the type among them.
pub record Message (P : Type 0) : Type 0 where
  pub size : ℕ
  pub raw_type : ℕ
  pub payload : P

-- What a wait for the read, the shutdown event or the timeout ends in.
pub data Wait (P : Type 0) : Type 0 where
  arrived : Message P → Wait P
  elapsed stopped broken : Wait P

pub data WaitResult (P : Type 0) : Type 0 where
  message : Message P → WaitResult P
  timeout shutdown error : WaitResult P

-- What goes out on the pipe.
pub data Sent (F : Type 0) : Type 0 where
  helper_hello : ℕ → ℕ → Sent F
  bridged : Outgoing F → Sent F
  frame_done : FrameDone → Sent F

-- `sent` is what went through since the client connected, `writes` how often it was tried.
pub record PipeServer (F E : Type 0) : Type 0 where
  pub bridge : Bridge F
  pub intake : Intake F E
  pub video : VideoBridge F
  pub cursor : Cursor
  pub sent : List (Sent F)
  pub writes : ℕ
  pub poses_sent : ℕ
  pub inputs_sent : ℕ
  pub frames_ready_seen : ℕ
  pub frames_done_sent : ℕ
  pub keepalives_seen : ℕ
  pub haptics_seen : ℕ
  pub unknown_seen : ℕ
  pub staging_configs_seen : ℕ

-- How the loop of a connection ends, or that it goes on.
pub data Served : Type 0 where
  client_gone helper_stops goes_on : Served

unfoldable pub wait_for_message : {P : Type 0} → Wait P → WaitResult P
wait_for_message (arrived m) = if ltb m.size 4 then error else message m
wait_for_message elapsed = timeout
wait_for_message stopped = shutdown
wait_for_message broken = error

unfoldable pub payload_size : {F : Type 0} → Sent F → ℕ
payload_size (helper_hello magic version) = 8
payload_size (bridged (hmd_config c)) = 104
payload_size (bridged (device_add n)) = 4
payload_size (bridged (device_remove n)) = 4
payload_size (bridged (pose_update p)) = 120
payload_size (bridged (input_update i)) = 36
payload_size (frame_done d) = 16

-- The message is the greeting of a shim of this version.
unfoldable pub greets : {F P : Type 0} → Layout F P → Message P → Bool
greets layout m =
    let hello = layout.hello m.payload in
    m.raw_type == 1
    && m.size == 4 + 12
    && hello.magic == shim_magic
    && hello.version == protocol_version

-- The round of the loop: what the others did since the last, and what the wait ends in.
pub record Round (F E P : Type 0) : Type 0 where
  pub bridge : Bridge F → Bridge F
  pub intake : Intake F E → Intake F E
  pub video : VideoBridge F → VideoBridge F
  pub wait : Wait P
