-- ===== src/Sender/Tests.antt =====
-- video_out.h on a frame of five bytes.
use wivrn_nx_windows.Base.{
  ℕ, ◌+◌, ◌<◌, ◌≡◌, refl, ◌⊎◌, true, false, none, some, List, [], ◌∷◌, arith, leb,
}
use wivrn_nx_windows.Base.Int.{pos}
use wivrn_nx_windows.Pacer.{ShardPacer, make, inactive}
use wivrn_nx_windows.Sender.{Wire, Frame, Message, Sinks, PacedSender, begin, pump}
use wivrn_nx_windows.Sender.Stream.{joined, data_shards, Follows, remaining, IsMid}
use wivrn_nx_windows.Sender.Pump.{pump_lem, pump_all, pump_all-begin, begin-IsMid}

-- Two bytes to a shard, a view information of one byte, and a parity group that counts its shards.
abbrev pub wire : Wire
wire = record {
  View = ℕ;
  Timing = ℕ;
  Parity = ℕ;
  Group = ℕ;
  serialized_size = λ v. elim v [ none ↦ 0 | some n ↦ 1 ];
  shard_payload_budget = λ fec. 2;
  parity_size = λ p. p;
  group_reset = λ g stream frame. 0;
  group_add = λ g d. g + 1;
  group_take = λ g. (0, some g);
  block_full = λ g. leb 8 g;
}

abbrev p_frame : Frame wire
p_frame = record {
  stream_index = 1;
  frame_index = 70;
  idr = false;
  has_stream_socket = true;
  fragment_on_control = false;
  fec = false;
  view_info = 5;
  timing_info = 9;
}

abbrev bytes : List ℕ
bytes = 10 ∷ 11 ∷ 12 ∷ 13 ∷ 14 ∷ []

abbrev pub idle : PacedSender wire
idle = record {
  frame = p_frame;
  bytes = [];
  pacer = inactive;
  group = 0;
  active = false;
  fec_active = false;
  offset = 0;
  shard = record {
    stream_item_idx = 0;
    frame_idx = 0;
    shard_idx = 0;
    view_info = none;
    timing_info = none;
    payload = [];
  };
  shards = 0;
  parity_shards = 0;
  wire_bytes = 0;
}

abbrev pub plain : Sinks wire
plain = record { parity = true; stamp = none }

-- A pacer of 4 ms for the five bytes.
abbrev pacer : ShardPacer
pacer = make 1_000_000 (pos 4_000_000) 5

abbrev nows : List ℕ
nows = 1_000_000 ∷ 2_000_000 ∷ 3_000_000 ∷ 4_000_000 ∷ 5_000_000 ∷ []

pump_lem_example :
    (out : PacedSender wire × List (Message wire) × ℕ) × (pump
        (begin idle p_frame bytes pacer)
        1_000_000
        plain
      ≡ some out)
    × IsMid out.0
    × (out.0.frame ≡ p_frame)
    × (out.0.bytes ≡ bytes)
    × Follows p_frame 0 bytes (data_shards out.1) out.0.shard.shard_idx (remaining out.0)
    × (((out.0.active ≡ false) × (out.0.offset ≡ 5) × (out.2 ≡ 0))
        ⊎ ((out.0.active ≡ true) × (out.0.offset < 5) × (0 < out.0.offset) × (0 < out.2)))
unfolding begin
pump_lem_example =
    pump_lem (begin idle p_frame bytes pacer) 1_000_000 plain (begin-IsMid idle p_frame bytes pacer)
      refl

pump_all-begin_example :
    (out : PacedSender wire × List (Message wire)) × (pump_all
        (begin idle p_frame bytes pacer)
        nows
        plain
      ≡ some out)
    × (out.0.active ≡ false)
    × Follows p_frame 0 bytes (data_shards out.1) out.0.shard.shard_idx []
    × (joined (data_shards out.1) ≡ bytes)
pump_all-begin_example =
    pump_all-begin idle p_frame bytes pacer nows plain (omega arith) (omega arith)

-- A key frame that asks for parity.
abbrev key_frame : Frame wire
key_frame = record p_frame { idr = true; fec = true }

abbrev delivered :
    (out : PacedSender wire × List (Message wire)) × (pump_all
        (begin idle key_frame bytes pacer)
        nows
        plain
      ≡ some out)
    × (out.0.active ≡ false)
    × Follows key_frame 0 bytes (data_shards out.1) out.0.shard.shard_idx []
    × (joined (data_shards out.1) ≡ bytes)
delivered = pump_all-begin idle key_frame bytes pacer nows plain (omega arith) (omega arith)
