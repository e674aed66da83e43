-- ===== src/IpcClient/Tests.antt =====
-- ipc_client.cpp on messages whose payload is the message itself, and a pipe whose fourth write
-- fails.
use wivrn_nx_windows.Base.{
  length, ◌≤◌, ◌+◌, ℕ, ◌≡◌, refl, Bool, true, false, not, ◌==◌, List, [], ◌∷◌, arith, map,
}
use wivrn_nx_windows.Bridge.{
  Haptic, HmdConfig, PoseUpdate, InputUpdate, first_pose, first_input, hmd_config, device_add,
  device_remove, pose_update, input_update,
}
use wivrn_nx_windows.Staging.{StagingConfig}
use wivrn_nx_windows.Intake.{FrameReady, FrameDone}
use wivrn_nx_windows.PipeServer
use wivrn_nx_windows.PipeServer.Session.{greeted}
use wivrn_nx_windows.IpcClient.Heeded
use wivrn_nx_windows.IpcClient.Heeded.{heeded_all, run_session-heeded}
use wivrn_nx_windows.PipeServer.{
  ShimHello, arrived, shim_magic, protocol_version, Sent, helper_hello, bridged, frame_done,
}
use wivrn_nx_windows.PipeServer.Loop.{session}
use wivrn_nx_windows.PipeServer.Tests
use wivrn_nx_windows.PipeServer.Tests.{hmd, server, greeting, rounds}
use wivrn_nx_windows.IpcClient.{
  Callback, on_session_ready, haptic, staging_config, HelperHello, Layout, completed, for_timeout,
  IpcClient, Request, a_haptic, a_staging_config, Turn, Attempt,
}
use wivrn_nx_windows.IpcClient.Loop.{queue, enqueue, admits, hang_up, thread_main}
use wivrn_nx_windows.IpcClient.{ToHelper, shim_hello, frame_ready}
use wivrn_nx_windows.Base.{◌⊎◌}
use wivrn_nx_windows.IpcClient.Loop.{run_session}
use wivrn_nx_windows.IpcClient.Queue.{Takes, queue_lem}
use wivrn_nx_windows.IpcClient.Phases.{IsIn, after}
use wivrn_nx_windows.IpcClient.Threads.{IsIdle, thread_main-IsIdle}
use wivrn_nx_windows.IpcClient.Left.{late}
use wivrn_nx_windows.IpcClient.Wire.{Copies, TookAll, reports, begun, wired, hear_all}
use wivrn_nx_windows.IpcClient.Talk.{session-TookAll}

abbrev a_hello : Sent ℕ → HelperHello
a_hello (helper_hello magic version) = record { magic = magic; version = version }
a_hello m = record { magic = 0; version = 0 }

abbrev a_config : Sent ℕ → HmdConfig ℕ
a_config (bridged (hmd_config c)) = c
a_config m = hmd

abbrev a_pose : Sent ℕ → PoseUpdate ℕ
a_pose (bridged (pose_update p)) = p
a_pose m = first_pose 0 1 0

abbrev a_device : Sent ℕ → ℕ
a_device (bridged (device_add n)) = n
a_device (bridged (device_remove n)) = n
a_device m = 0

abbrev an_input : Sent ℕ → InputUpdate ℕ
an_input (bridged (input_update i)) = i
an_input m = first_input 0 0

abbrev a_done : Sent ℕ → FrameDone
a_done (frame_done d) = d
a_done m = record { frame_id = 0; staging_index = 0; flags = 0 }

abbrev layout : Layout ℕ (Sent ℕ)
layout = record {
  hello = a_hello;
  hmd_config = a_config;
  pose_update = a_pose;
  device_add = a_device;
  device_remove = a_device;
  input_update = an_input;
  frame_done = a_done;
}

abbrev bytes : Sent ℕ → Sent ℕ
bytes m = m

copies : Copies layout bytes
copies = record {
  hello = λ magic version. refl;
  hmd_config = λ c. refl;
  pose_update = λ p. refl;
  device_add = λ n. refl;
  device_remove = λ n. refl;
  input_update = λ i. refl;
  frame_done = λ d. refl;
}

abbrev ring : ℕ → StagingConfig
ring n = record {
  generation = n;
  width = 64;
  height = 32;
  dxgi_format = 28;
  count = 0;
  handles = [];
}

-- A ready session announces the ring.
abbrev answers : Callback ℕ → List (Request ℕ)
answers on_session_ready = a_staging_config (ring 1) ∷ []
answers e = []

abbrev write : ℕ → Bool
write n = not (n == 3)

abbrev client : IpcClient ℕ
client = record {
  running = true;
  connected = false;
  pipe = false;
  read_pending = false;
  pending = [];
  heard = [];
  sent = [];
  writes = 0;
}

abbrev buzz : ℕ → Request ℕ
buzz n = a_haptic (record { device = n; duration_s = 1; frequency_hz = 1; amplitude = 1 })

-- A client with two messages to send.
abbrev busy : IpcClient ℕ
busy = record client {
  connected = true;
  pipe = true;
  pending =
      haptic (record { device = 1; duration_s = 1; frequency_hz = 1; amplitude = 1 })
      ∷ staging_config (ring 1)
      ∷ [];
}

-- A message arrives at once.
abbrev reads : Sent ℕ → ℕ → Turn ℕ (Sent ℕ)
reads m now = record {
  requests = buzz now ∷ [];
  pushes = [];
  stops = false;
  now = now;
  qpc = now;
  read = completed (wired bytes m);
  wait = for_timeout;
  later = now;
}

-- The pipe is not there, after some requests that were let in before.
abbrev unreachable : List (Request ℕ) → Attempt ℕ (Sent ℕ)
unreachable pushes = record {
  pushes = pushes;
  stops = false;
  created = false;
  mode_set = true;
  process = 7;
  start = 0;
  turns = [];
  elapses = true;
}

-- The pipe is not there, then a session that greets, configures and stalls, and a ring that was let
-- in while it lasted.
abbrev attempts : List (Attempt ℕ (Sent ℕ))
attempts =
    unreachable []
    ∷ record {
      pushes = [];
      stops = false;
      created = true;
      mode_set = true;
      process = 7;
      start = 0;
      turns =
          reads (helper_hello 1213746775 3) 1
          ∷ reads (bridged (hmd_config hmd)) 2
          ∷ reads (bridged (device_add 1)) 1_500_000_000
          ∷ [];
      elapses = true;
    }
    ∷ unreachable (a_staging_config (ring 1) ∷ [])
    ∷ []

queue_lem_example : Takes busy (a_staging_config (ring 2)) (queue busy (a_staging_config (ring 2)))
queue_lem_example = queue_lem busy (a_staging_config (ring 2))

idle : IsIdle client
unfolding IsIdle IsIn after
idle = (refl, refl)

thread_main-IsIdle_example :
    let d = thread_main layout answers write client attempts in
    IsIdle d × (length d.pending ≤ 0 + late attempts)
thread_main-IsIdle_example = thread_main-IsIdle layout answers write client attempts idle

session-TookAll_example :
    let out = (session Tests.layout write server (greeting 3) rounds).0.sent in
    TookAll client (reports out) (hear_all layout answers (begun client 0) (map (wired bytes) out))
session-TookAll_example =
    session-TookAll layout answers bytes copies Tests.layout write server (greeting 3) rounds client
      0 (λ h. ground arith) refl

-- A thread that was let into the queue just before the session ended leaves its message in the
-- queue of a client that has none.
left_over :
    (enqueue (hang_up answers busy) (staging_config (ring 1)) false).0.pending
    ≡ staging_config (ring 1) ∷ []
unfolding enqueue hang_up
left_over = refl

let_in : admits busy (staging_config (ring 1)) ≡ true
unfolding admits
let_in = refl

abbrev a_greeting : ToHelper ℕ → ShimHello
a_greeting (shim_hello magic version process) = record {
  magic = magic;
  version = version;
  vrserver_pid = process;
}
a_greeting m = record { magic = 0; version = 0; vrserver_pid = 0 }

abbrev a_pulse : ToHelper ℕ → Haptic ℕ
a_pulse (haptic h) = h
a_pulse m = record { device = 0; duration_s = 0; frequency_hz = 0; amplitude = 0 }

abbrev a_ring : ToHelper ℕ → StagingConfig
a_ring (staging_config c) = c
a_ring m = ring 0

abbrev a_frame : ToHelper ℕ → FrameReady ℕ
a_frame (frame_ready f) = f
a_frame m = record {
  frame_id = 0;
  sample_time_qpc = 0;
  generation = 0;
  staging_index = 0;
  pose = [];
  predict_s = 0;
}

abbrev server_layout : PipeServer.Layout ℕ (ToHelper ℕ)
server_layout = record {
  hello = a_greeting;
  haptic = a_pulse;
  staging_config = a_ring;
  frame_ready = a_frame;
}

abbrev request_bytes : ToHelper ℕ → ToHelper ℕ
request_bytes m = m

request_copies : Heeded.Copies server_layout request_bytes
request_copies = record {
  hello = λ magic version process. refl;
  haptic = λ h. refl;
  staging_config = λ c. refl;
  frame_ready = λ f. refl;
}

-- The client once the pipe is open.
abbrev opened : IpcClient ℕ
opened = record client { pipe = true }

abbrev turns : List (Turn ℕ (Sent ℕ))
turns = reads (helper_hello 1213746775 3) 1 ∷ reads (bridged (hmd_config hmd)) 2 ∷ []

run_session-heeded_example :
    let out = (run_session layout answers write opened 7 0 turns).sent in
    let hello = shim_hello shim_magic protocol_version 7 in
    (out ≡ [])
    ⊎ ((rest : List (ToHelper ℕ)) × (out ≡ hello ∷ rest)
        × (greeted server_layout (arrived (Heeded.wired request_bytes hello)) ≡ true)
        × (Heeded.hear_all server_layout server (map (Heeded.wired request_bytes) rest)
            ≡ (heeded_all server rest, true)))
run_session-heeded_example =
    run_session-heeded layout answers write server_layout request_bytes request_copies server opened
      7 0 turns refl refl
