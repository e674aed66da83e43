-- ===== src/Sender.antt =====
-- helper/src/wivrn/video_out.h and video_out.cpp: one frame cut into shards and handed to the
-- sockets a burst at a time.
--
-- The headers wivrn_packets.h, wivrn_serialization.h and fec.h of the Linux repository enter as the
-- record `Wire`. What the sinks are handed is a list of messages. `size_t` is 64 bits wide and no
-- sum of a frame's sizes wraps it; the 16- and 32-bit counters wrap, but for the number of a shard,
-- which no frame of a real size brings to its bound.
pub mod Stream
pub mod Frames
pub mod Pump
pub mod Due
pub mod Unpaced
pub mod Parity
pub mod Tests
use wivrn_nx_windows.Base.{
  ℕ, zero, suc, ◌+◌, ◌-◌, ◌*◌, ◌%◌, ◌^◌, min, Bool, true, false, ◌&&◌, ◌||◌, not, ltb, ◌==◌,
  if◌then◌else◌, Option, none, some, List, [], ◌∷◌, ◌++◌, length, take, drop,
}
use wivrn_nx_windows.Pacer.{ShardPacer, inactive, wait_until}

-- `video_stream_data_shard`, over its types of view and timing information.
pub record Shard (View Timing : Type 0) : Type 0 where
  pub stream_item_idx : ℕ
  pub frame_idx : ℕ
  pub shard_idx : ℕ
  pub view_info : Option View
  pub timing_info : Option Timing
  pub payload : List ℕ

-- What the sender uses of the wire format and of the parity builder.
pub record Wire : Type 1 where
  pub View : Type 0
  pub Timing : Type 0
  pub Parity : Type 0
  pub Group : Type 0
  pub serialized_size : Option View → ℕ
  pub shard_payload_budget : Bool → ℕ
  pub parity_size : Parity → ℕ
  pub group_reset : Group → ℕ → ℕ → Group
  pub group_add : Group → Shard View Timing → Group
  pub group_take : Group → Group × Option Parity
  pub block_full : Group → Bool

module _ (w : Wire) where
  open w use {View, Timing, Parity, Group}

  pub record Frame : Type 0 where
    pub stream_index : ℕ
    pub frame_index : ℕ
    pub idr : Bool
    pub has_stream_socket : Bool
    pub fragment_on_control : Bool
    pub fec : Bool
    pub view_info : View
    pub timing_info : Timing

  -- What goes to `sinks.data` with its `prefer_control`, or to `sinks.parity`.
  pub data Message : Type 0 where
    data_shard : Shard View Timing → Bool → Message
    parity_shard : Parity → Message

  -- The sinks: whether there is one for parity, and what `stamp` writes, if there is one.
  pub record Sinks : Type 0 where
    pub parity : Bool
    pub stamp : Option (Timing → Timing)

  pub record PacedSender : Type 0 where
    pub frame : Frame
    pub bytes : List ℕ
    pub pacer : ShardPacer
    pub group : Group
    pub active : Bool
    pub fec_active : Bool
    pub offset : ℕ
    pub shard : Shard View Timing
    pub shards : ℕ
    pub parity_shards : ℕ
    pub wire_bytes : ℕ

module _ {w : Wire} where
  open w use {View, Timing, Parity, Group}

  unfoldable pub fec_active : Frame w → Bool
  fec_active f = f.fec && f.has_stream_socket && not f.idr

  pub payload_budget : Frame w → ℕ
  unfolding fec_active
  payload_budget f =
      if f.idr || (not f.has_stream_socket && not f.fragment_on_control)
      then 2 ^ 64 - 1
      else w.shard_payload_budget (fec_active f)

  unfoldable pub begin : PacedSender w → Frame w → List ℕ → ShardPacer → PacedSender w
  unfolding fec_active
  begin s frame bytes pacer = record {
    frame = frame;
    bytes = bytes;
    pacer = pacer;
    group = w.group_reset s.group frame.stream_index frame.frame_index;
    active = ltb 0 (length bytes);
    fec_active = fec_active frame;
    offset = 0;
    shard = record {
      stream_item_idx = frame.stream_index;
      frame_idx = frame.frame_index;
      shard_idx = 0;
      view_info = some frame.view_info;
      timing_info = none;
      payload = [];
    };
    shards = 0;
    parity_shards = 0;
    wire_bytes = 0;
  }

  -- An exception of the parity sink is swallowed, so the message counts as handed over.
  pub send_parity : PacedSender w → Sinks w → PacedSender w × List (Message w)
  send_parity s sinks =
      let (group, parity) = w.group_take s.group in
      elim parity [
        | none ↦ (record s { group = group }, [])
        | some p ↦ if not sinks.parity then (record s { group = group }, []) else (
          record s {
            group = group;
            wire_bytes = (s.wire_bytes + w.parity_size p) % 2 ^ 32;
            parity_shards = (s.parity_shards + 1) % 2 ^ 16;
          },
          parity_shard p ∷ [],
        )
      ]

  -- How many bytes the next shard takes.
  pub shard_size : PacedSender w → ℕ
  unfolding payload_budget
  shard_size s =
      let payload_size = payload_budget s.frame - w.serialized_size s.shard.view_info in
      min (if payload_size == 0 then 1 else payload_size) (length s.bytes - s.offset)

  pub stamped : Sinks w → Timing → Timing
  stamped sinks t = elim sinks.stamp [ none ↦ t | some f ↦ f t ]

  -- The shard that goes out next; only the last one of the frame carries the timing.
  pub next_shard : PacedSender w → Sinks w → Shard View Timing
  unfolding shard_size stamped
  next_shard s sinks = record (s.shard) {
    timing_info =
        if shard_size s == length s.bytes - s.offset
        then some (stamped sinks s.frame.timing_info)
        else s.shard.timing_info;
    payload = take (shard_size s) (drop s.offset s.bytes);
  }

  -- The state once the shard is out, with the parity of a full group behind it.
  pub sent_shard : PacedSender w → Sinks w → PacedSender w
  unfolding next_shard
  sent_shard s sinks =
      let out = next_shard s sinks in
      record s {
        wire_bytes = (s.wire_bytes + shard_size s) % 2 ^ 32;
        group = if s.fec_active then w.group_add s.group out else s.group;
        shard = record out { shard_idx = out.shard_idx + 1; view_info = none };
        shards = (s.shards + 1) % 2 ^ 16;
        offset = s.offset + shard_size s;
      }

  pub send_shard : PacedSender w → Sinks w → PacedSender w × List (Message w)
  unfolding sent_shard
  send_shard s sinks =
      let s' = sent_shard s sinks in
      let message = data_shard (next_shard s sinks) s.frame.idr in
      let closed = send_parity s' sinks in
      if s'.fec_active && w.block_full s'.group
      then (closed.0, message ∷ closed.1)
      else (s', message ∷ [])

  -- The end of the frame: its last group is closed and the sender goes idle.
  pub finish : PacedSender w → Sinks w → PacedSender w × List (Message w)
  finish s sinks =
      let closed = send_parity s sinks in
      if s.fec_active
      then (record (closed.0) { active = false }, closed.1)
      else (record s { active = false }, [])

  -- What the loop has handed over, in front of what it goes on to hand over.
  abbrev pub after :
      List (Message w)
      → Option (PacedSender w × List (Message w) × ℕ)
      → Option (PacedSender w × List (Message w) × ℕ)
  after ms none = none
  after ms (some (s, ms', at)) = some (s, ms ++ ms', at)

  -- The loop of `pump` on fuel; `none` says that the fuel ran out.
  pub pump_loop : ℕ → PacedSender w → ℕ → Sinks w → Option (PacedSender w × List (Message w) × ℕ)
  unfolding send_shard finish
  pump_loop zero s now sinks = none
  pump_loop (suc fuel) s now sinks =
      let (s1, ms) = send_shard s sinks in
      let (pacer, at) = wait_until s1.pacer s1.offset now in
      let last = after ms (pump_loop fuel s1 now sinks) in
      let more = after ms (pump_loop fuel (record s1 { pacer = pacer }) now sinks) in
      let waiting : Option (PacedSender w × List (Message w) × ℕ) = elim at [
        | some t ↦ some (record s1 { pacer = pacer }, ms, t)
        | none ↦ more
      ] in
      let next = if ltb s1.offset (length s1.bytes) then waiting else last in
      let done = finish s sinks in
      if ltb s.offset (length s.bytes) then next else some (done.0, done.1, 0)

  -- Every round sends a byte at least, so a round for each byte and one to finish are enough.
  pub pump : PacedSender w → ℕ → Sinks w → Option (PacedSender w × List (Message w) × ℕ)
  pump s now sinks =
      let run = pump_loop (suc (length s.bytes)) s now sinks in
      if not s.active then some (s, [], 0) else run

  unfoldable pub abort : PacedSender w → PacedSender w
  abort s = record s { active = false }

  -- The whole frame at once: what goes out, and the number of its data shards.
  pub send : PacedSender w → Frame w → List ℕ → Option (List (Message w) × ℕ)
  send s frame bytes =
      let sinks : Sinks w = record { parity = false; stamp = none } in
      elim (pump (begin s frame bytes inactive) 0 sinks) [
        | none ↦ none
        | some (s', ms, at) ↦ some (ms, s'.shards)
      ]
