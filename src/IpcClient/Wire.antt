-- ===== src/IpcClient/Wire.antt =====
-- The messages of pipe_server.cpp as they reach the client of ipc_client.cpp, and what they stand for.
use wivrn_nx_windows.Base.{ℕ, ◌+◌, ◌≡◌, Bool, true, false, List, [], ◌∷◌, ◌++◌, if◌then◌else◌}
use wivrn_nx_windows.Bridge.{
  HmdConfig, PoseUpdate, InputUpdate, hmd_config, device_add, device_remove, pose_update,
  input_update,
}
use wivrn_nx_windows.Intake.{FrameDone}
use wivrn_nx_windows.PipeServer
use wivrn_nx_windows.PipeServer.{
  PipeServer, Message, Sent, helper_hello, bridged, frame_done, helper_magic, protocol_version,
  Round, Wait,
}
use wivrn_nx_windows.IpcClient.{
  Callback, on_config, on_pose, on_device_add, on_device_remove, on_input, on_frame_done,
  on_session_ready, Layout, IpcClient, Session, Request,
}
use wivrn_nx_windows.IpcClient.Loop.{hear}

-- The type of a message, as its number.
unfoldable pub raw_type : {F : Type 0} → Sent F → ℕ
raw_type (helper_hello magic version) = 100
raw_type (bridged (hmd_config c)) = 101
raw_type (bridged (pose_update p)) = 102
raw_type (bridged (device_add n)) = 103
raw_type (bridged (device_remove n)) = 104
raw_type (bridged (input_update i)) = 105
raw_type (frame_done d) = 202

-- A payload that is copied into the bytes of a message is what is copied out of them.
pub record Copies {F P : Type 0} (layout : Layout F P) (bytes : Sent F → P) : Type 0 where
  pub hello :
      (magic version : ℕ)
      → layout.hello (bytes (helper_hello magic version))
        ≡ record { magic = magic; version = version }
  pub hmd_config : (c : HmdConfig F) → layout.hmd_config (bytes (bridged (hmd_config c))) ≡ c
  pub pose_update : (p : PoseUpdate F) → layout.pose_update (bytes (bridged (pose_update p))) ≡ p
  pub device_add : (n : ℕ) → layout.device_add (bytes (bridged (device_add n))) ≡ n
  pub device_remove : (n : ℕ) → layout.device_remove (bytes (bridged (device_remove n))) ≡ n
  pub input_update :
      (i : InputUpdate F) → layout.input_update (bytes (bridged (input_update i))) ≡ i
  pub frame_done : (d : FrameDone) → layout.frame_done (bytes (frame_done d)) ≡ d

module _ {F : Type 0} where
  -- The callbacks that a message stands for.
  unfoldable pub told : Sent F → List (Callback F)
  told (helper_hello magic version) = []
  told (bridged (hmd_config c)) = on_config c ∷ []
  told (bridged (device_add n)) = on_device_add n ∷ []
  told (bridged (device_remove n)) = on_device_remove n ∷ []
  told (bridged (pose_update p)) = on_pose p ∷ []
  told (bridged (input_update i)) = on_input i ∷ []
  told (frame_done d) = on_frame_done d ∷ []

  unfoldable pub told_all : List (Sent F) → List (Callback F)
  unfolding told
  told_all [] = []
  told_all (x ∷ xs) = told x ++ told_all xs

  -- Those that all messages to a client stand for: the second makes the session ready.
  unfoldable pub reports : List (Sent F) → List (Callback F)
  unfolding told told_all
  reports [] = []
  reports (x ∷ []) = told x
  reports (x ∷ y ∷ ys) = told x ++ told y ++ (on_session_ready ∷ told_all ys)

  -- All of the messages were taken, and the callbacks `es` fired.
  abbrev pub TookAll : IpcClient F → List (Callback F) → Session F × Bool → Type 0
  TookAll c es p = (p.1 ≡ true) × (p.0.client.heard ≡ c.heard ++ es)

  -- A session whose handshake is over.
  abbrev pub running : IpcClient F → ℕ → Session F
  running c wait = record {
    client = c;
    got_helper_hello = true;
    got_config = true;
    next_keep_alive = wait;
  }

  -- One that just began.
  abbrev pub begun : IpcClient F → ℕ → Session F
  begun c wait = record {
    client = c;
    got_helper_hello = false;
    got_config = false;
    next_keep_alive = wait;
  }

  abbrev pub greeted : IpcClient F → ℕ → Session F
  greeted c wait = record (begun c wait) { got_helper_hello = true }

-- The message as it arrives at the other end of the pipe.
unfoldable pub wired : {F P : Type 0} → (Sent F → P) → Sent F → Message P
unfolding raw_type PipeServer.payload_size
wired bytes m = record {
  size = 4 + PipeServer.payload_size m;
  raw_type = raw_type m;
  payload = bytes m;
}

module _ {F P : Type 0} (layout : Layout F P) (answers : Callback F → List (Request F)) where
  -- The client reads the messages, one after the other, until it drops the session.
  unfoldable pub hear_all : Session F → List (Message P) → Session F × Bool
  unfolding hear
  hear_all s [] = (s, true)
  hear_all s (m ∷ ms) =
      let (s1, ok) = hear layout answers s m in
      let rest = hear_all s1 ms in if ok then rest else (s1, false)
