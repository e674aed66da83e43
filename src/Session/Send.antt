-- ===== src/Session/Send.antt =====
-- The video operations of session.cpp.
use wivrn_nx_windows.Base.{
  ℕ, zero, suc, ◌+◌, ◌-◌, Bool, true, false, not, ◌&&◌, ltb, ◌==◌, if◌then◌else◌, Option, none,
  some, List, [], ◌∷◌, ◌++◌, length, drop,
}
use wivrn_nx_windows.Base.Int.{pos, ◌+ℤ◌}
use wivrn_nx_windows.VideoBridge.{EncodedFrame, take_frames, drop_victim}
use wivrn_nx_windows.ClockOffset.{to_headset, qpc_to_ns}
use wivrn_nx_windows.Idr
use wivrn_nx_windows.Pacer.{PacingSlot, WindowFloat, begin_frame, make}
use wivrn_nx_windows.Sender.{Wire, Frame, begin, pump, abort}
use wivrn_nx_windows.Bitrate.{Doubles}
use wivrn_nx_windows.Bitrate.Control.{on_frame_bytes}
use wivrn_nx_windows.Session.{max_video_queued, Link, Fate, Video, Next, nothing, skipped, frame}

module _ {F : Type 0} where
  -- The loop that bounds the queue, on what is behind the `first` frames that stay, on fuel. Every
  -- round takes a frame at least.
  unfoldable pub trim_loop : ℕ → ℕ → List (EncodedFrame F) → List (EncodedFrame F)
  trim_loop zero first fs = fs
  trim_loop (suc fuel) first [] = []
  trim_loop (suc fuel) first (f ∷ fs) =
      let rest = trim_loop fuel first (drop_victim f.frame_id (f ∷ fs)) in
      if ltb max_video_queued (first + length (f ∷ fs)) then rest else f ∷ fs

  -- Whether the sender is at work on the first frame.
  unfoldable pub trim : Bool → List (EncodedFrame F) → List (EncodedFrame F)
  unfolding trim_loop
  trim false fs = trim_loop (length fs) 0 fs
  trim true [] = []
  trim true (f ∷ fs) = f ∷ trim_loop (length fs) 1 fs

module _ {F D : Type 0} {w : Wire} where
  -- The frames of the encoder come in.
  unfoldable pub take_in : Video F D w → Video F D w
  unfolding trim
  take_in v =
      let (bridge, taken, count) = take_frames v.bridge [] in
      let all = v.queue ++ taken in
      let kept = trim v.sender.active all in
      if ltb 0 count
      then record v {
        bridge = bridge;
        queue = kept;
        frames_dropped = v.frames_dropped + (length all - length kept);
      }
      else record v { bridge = bridge }

module _ {F : Type 0} {w : Wire} where
  unfoldable pub frame_of : Link F w → EncodedFrame F → ℕ → Frame w
  frame_of link f now =
      let present = qpc_to_ns link.frequency f.sample_time_qpc in
      let photon = present +ℤ link.predicted_ns f.predict_s in
      record {
        stream_index = f.stream_index;
        frame_index = f.frame_id;
        idr = f.idr;
        has_stream_socket = link.has_stream_socket;
        fragment_on_control = link.pacing_enabled && not link.has_stream_socket;
        fec = link.fec_enabled;
        view_info = link.view (to_headset link.offset photon) f.pose_q f.pose_p;
        timing_info =
            link.timing (to_headset link.offset present) (to_headset link.offset (pos now));
      }

module _ {F : Type 0} {w : Wire} (float : WindowFloat F) (link : Link F w) where
  -- The pacing budget of a frame with `behind` frames behind it.
  unfoldable pub budget : PacingSlot → EncodedFrame F → ℕ → ℕ → PacingSlot × ℕ
  budget slot f now behind =
      if link.pacing_enabled && not f.idr
      then begin_frame float slot now link.frame_period_ns link.pacing_window behind
      else (slot, 0)

module _ {F D : Type 0} {w : Wire} (float : WindowFloat F) (link : Link F w) where
  -- With a frame in the queue; the answer is whether there is something to send.
  unfoldable pub begin_video_frame :
      Video F D w → EncodedFrame F → List (EncodedFrame F) → ℕ → Video F D w × Bool
  unfolding frame_of budget
  begin_video_frame v f behind now =
      let (slot, share) = budget float link v.slot f now (length behind) in
      let sender =
        begin v.sender (frame_of link f now) f.bytes (make now (pos share) (length f.bytes)) in
      if length f.bytes == 0 then (v, false) else (record v { slot = slot; sender = sender }, true)

  -- The head of the loop for an idle sender, on the frames in the queue.
  unfoldable pub from_queue : Video F D w → List (EncodedFrame F) → ℕ → Video F D w × Next
  unfolding begin_video_frame
  from_queue v [] now = (v, nothing)
  from_queue v (f ∷ fs) now =
      let (v1, begun) = begin_video_frame v f fs now in
      if begun then (v1, frame) else (record v { queue = fs }, skipped)

  unfoldable pub start_next : Video F D w → ℕ → Video F D w × Next
  unfolding from_queue
  start_next v now = if v.sender.active then (v, frame) else from_queue v v.queue now

module _ {F D : Type 0} {w : Wire} (d : Doubles D) (link : Link F w) (fate : Fate w) where
  -- The books of the frame that just finished.
  unfoldable pub finish_video_frame : Video F D w → Video F D w
  finish_video_frame v = elim v.queue [
    | [] ↦ v
    | f ∷ fs ↦ record v {
      frames_sent = v.frames_sent + 1;
      shards_sent = v.shards_sent + v.sender.shards;
      parity_sent = v.parity_sent + v.sender.parity_shards;
      bytes_sent = v.bytes_sent + v.sender.wire_bytes;
      idr = Idr.on_frame_sent v.idr f.frame_id f.idr;
      bitrate =
          on_frame_bytes d v.bitrate f.frame_id f.stream_index v.sender.wire_bytes
            (fate.told v.frames_sent);
      queue = fs;
    }
  ]

  -- A driving of the sender, the frame that it finishes included; the answer is whether the loop
  -- goes on.
  unfoldable pub send_some : Video F D w → ℕ → Option (Video F D w × Bool)
  unfolding finish_video_frame
  send_some v now = elim (fate.broken v.pumps) [
    | some leaves ↦ some (
      record v {
        sender = abort (leaves v.sender);
        send_errors = v.send_errors + 1;
        queue = drop 1 v.queue;
        pumps = v.pumps + 1;
      },
      true,
    )
    | none ↦ elim (pump v.sender now link.sinks) [
      | none ↦ none
      | some (sender, ms, due) ↦
          (let v1 = record v {
            sender = sender;
            messages = v.messages ++ ms;
            pumps = v.pumps + 1;
          } in
            some (
              if ltb now due
              then (record v1 { next_video_due = due }, false)
              else if sender.active
              then (v1, true)
              else (finish_video_frame v1, true)))
    ]
  ]

  -- What the loop does with what is next.
  unfoldable pub go_on : Video F D w × Next → ℕ → Option (Video F D w × Bool)
  unfolding send_some
  go_on (v, nothing) now = some (v, false)
  go_on (v, skipped) now = some (v, true)
  go_on (v, frame) now = send_some v now

module _ {F D : Type 0} {w : Wire} (d : Doubles D) (float : WindowFloat F) (link : Link F w)
    (fate : Fate w) where
  unfoldable pub round : Video F D w → ℕ → Option (Video F D w × Bool)
  unfolding start_next go_on
  round v now = go_on d link fate (start_next float link v now) now

  -- The loop on fuel; `none` says that the fuel ran out.
  unfoldable pub loop : ℕ → Video F D w → ℕ → Option (Video F D w)
  unfolding round
  loop zero v now = none
  loop (suc fuel) v now = elim (round v now) [
    | none ↦ none
    | some (v1, on) ↦ (let rest = loop fuel v1 now in if on then rest else some v1)
  ]

  -- Every round takes a frame off the queue or ends the loop.
  unfoldable pub pump_video : Video F D w → ℕ → Option (Video F D w)
  unfolding take_in loop
  pump_video v now =
      let v1 = record (take_in v) { next_video_due = 0 } in loop (suc (length v1.queue)) v1 now
