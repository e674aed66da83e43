-- ===== src/Lib.antt =====
-- The video and device path of wivrn-nx-windows: a SteamVR driver (the shim, shim/) and a helper
-- process (helper/) that streams to a headset; the two speak the protocol of ipc/wivrnnx_ipc.h.
--
-- The shim lends a staging texture to the helper and says so with FrameReady; the helper's intake
-- hands the frame to the encoder and answers with FrameDone. What comes out of the encoder goes to
-- the session through a bounded queue, is cut into shards and sent a burst at a time. Poses, inputs
-- and presence of the devices come back through a store of latest values.
--
--   Idr: helper/src/wivrn/idr_tracker.h, when a lost frame is answered by a key frame (IdrTracker).
--   Idr/Run makes its calls a list of events; Idr/Spacing and Idr/Recovery are the proofs.
--   Pacer: helper/src/wivrn/shard_pacer.h, the time of each burst (ShardPacer) and the window that
--   frames share (PacingSlot); proofs in Pacer/Schedule, Pacer/Pauses and Pacer/Slot.
--   Sender: helper/src/wivrn/video_out.h and video_out.cpp (VideoPacketizer, PacedSender); its loop
--   runs on fuel, a round for each byte and one more, which is enough since every round sends a byte.
--   Sender/Stream says what the shards of a frame are; Sender/Frames, Sender/Pump, Sender/Unpaced
--   and Sender/Parity are the proofs.
--   VideoBridge: helper/src/video_bridge.h and video_bridge.cpp, the requests to the encoder and the
--   queue of encoded frames; proofs in VideoBridge/Queue, VideoBridge/Generations and
--   VideoBridge/Stream. The loop that trims the queue has fuel for each entry and takes one at least.
--   Staging: shim/src/frame_staging.h and frame_staging.cpp, the ring of textures
--   (FrameStagingRing); proofs in Staging/Ownership, Staging/Acquire,
--   Staging/Lifecycle and Staging/Creation.
--   Intake: helper/src/video_intake.h and video_intake.cpp (VideoIntake), over the interface
--   IVideoEncoder. Intake/Rounds interleaves its two threads at their locks; Intake/Answers,
--   Intake/Conserved, Intake/Bounded, Intake/Turns, Intake/Current and Intake/Obeyed are the proofs.
--   Bridge: helper/src/bridge.h and bridge.cpp, the latest values for the shim. Bridge/View is what
--   the shim makes of the messages; Bridge/Calls, Bridge/Synced, Bridge/CaughtUp, Bridge/Sessions
--   and Bridge/Haptics are the proofs.
--   Bitrate: helper/src/wivrn/bitrate_controller.h and bitrate_controller.cpp, the automatic bitrate
--   (BitrateController). Filter is the windowed maximum, Window the frames and their samples, Aimd
--   and Bandwidth the two control laws, RadioTrend and Wifi the reports on the radio, Control the
--   other operations. Its answers are what the session gives to VideoBridge. Doubles are values of a
--   parameter; a theorem that needs one of their laws has it as a hypothesis. Range says what a
--   decision keeps; Bounds, Steps and Calls (any sequence of calls), Falls and Cooldown, Off, Climbs
--   and Rebound, and Maximum are the proofs.
--   Pose: helper/src/wivrn/pose_sanitize.h, the guards on the headset's poses (PoseSanitizer); proofs
--   in Pose/Held (the standby freeze) and Pose/Finite.
--   PipeServer: helper/src/pipe_server.h and pipe_server.cpp, a connection of the shim (PipeServer):
--   it drives Bridge and Intake. The loop that gives answers back has fuel for each of them and one
--   more; the loop of a connection is a list of passes. Loop holds the operations; proofs in Answered,
--   Opening and Session; Bridge/First says what a collection begins with.
--   IpcClient: shim/src/ipc_client.h and ipc_client.cpp, the other end of that pipe (IpcClient). Loop
--   holds the operations, a session being a list of passes and the thread a list of attempts; a request of
--   another thread comes whole, or its push comes later than its test (`pushes`). Wire is
--   what the messages of PipeServer are at this end; proofs in Queue, Phases, Sessions, Left, Threads, Stable
--   and Spoken, and for the two ends together in Talk and Heeded.
--   Session: helper/src/wivrn/session.h and session.cpp (Session), in three parts on a state of their
--   own. Send is pump_video, which drives VideoBridge, Pacer, Sender, Idr and Bitrate; its loop has fuel
--   for each frame in the queue and one more, since a round takes one or ends it (Rounds, TakeIn, Trim
--   and Pump; Sender/Due says when the sender comes back). Transport is what the headset's settings
--   and reports make of the controller and of the encoder's bitrate; proofs in Follows and Events.
--   Serve is the stream's description, the pulses and the timeout of the loop; proofs in Served
--   and Haptics.
--   ClockOffset: helper/src/wivrn/clock_offset.h and clock_offset.cpp, ticks and nanoseconds and the
--   offset of the headset's clock; proofs in ClockOffset/Ticks and ClockOffset/Samples.
--
-- Base holds the names and lemmas that the parts share. Each part has its examples in a module
-- Tests. A method that holds the lock of its class is one function on the state of the class, its
-- fields without the trailing underscore. Integers are natural numbers; those that the code lets
-- wrap are written with their modulus, and where a product may wrap a theorem asks that it does not.
--
-- Not modelled: sockets, pipes, Direct3D, AMF and the log; floats, which are values of a parameter;
-- of the session the handshake, tracking and inputs, and the projection and poses of the headset.
pub mod Base
pub mod Idr
pub mod Pacer
pub mod Sender
pub mod VideoBridge
pub mod Session
pub mod Staging
pub mod Intake
pub mod Bridge
pub mod ClockOffset
pub mod Bitrate
pub mod Pose
pub mod IpcClient
pub mod PipeServer
