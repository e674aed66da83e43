-- ===== src/Sender/Stream.antt =====
-- What the shards of a frame of video_out.cpp say of its bytes.
use native.Mathlib.Numerals.{towards_suc}
use wivrn_nx_windows.Base.{
  ℕ, zero, suc, ◌+◌, ◌-◌, ◌%◌, ◌^◌, ◌≤◌, ◌<◌, ◌≡◌, refl, ap, sym, subst, ◌∙◌, ◌⊎◌, inl, inr, ◌==◌,
  Option, none, some, List, [], ◌∷◌, ◌++◌, arith, length, take, drop, Bool-cases, length-take,
  length-drop, take-append-drop, drop-drop, eq_nil_of_length,
}
use wivrn_nx_windows.Sender.{
  Wire, Shard, Frame, Message, data_shard, parity_shard, Sinks, PacedSender, payload_budget,
  stamped, shard_size, next_shard, sent_shard,
}

-- The view information travels in the first shard alone.
abbrev pub view_of : {w : Wire} → Frame w → ℕ → Option w.View
view_of f zero = some f.view_info
view_of f (suc i) = none

-- The payloads put together again.
unfoldable pub joined : {V T : Type 0} → List (Shard V T) → List ℕ
joined [] = []
joined (d ∷ ds) = d.payload ++ joined ds

module _ {w : Wire} where
  open w use {View, Timing}

  unfoldable pub data_shards : List (Message w) → List (Shard View Timing)
  data_shards [] = []
  data_shards (data_shard d control ∷ ms) = d ∷ data_shards ms
  data_shards (parity_shard p ∷ ms) = data_shards ms

  -- The shard `d` is number `i` of the frame, holds the first of the bytes `bs`, leaves `rest`, and
  -- carries the timing exactly if it leaves nothing. It fits the budget or holds a single byte.
  pub record IsNext (f : Frame w) (i : ℕ) (bs : List ℕ) (d : Shard View Timing) (rest : List ℕ)
      : Type 0 where
    pub number : d.shard_idx ≡ i
    pub frame : (d.stream_item_idx ≡ f.stream_index) × (d.frame_idx ≡ f.frame_index)
    pub view : d.view_info ≡ view_of f i
    pub split : bs ≡ d.payload ++ rest
    pub progress : 0 < length d.payload
    pub fits :
        (length d.payload + w.serialized_size d.view_info ≤ payload_budget f)
        ⊎ (length d.payload ≡ 1)
    pub timing :
        ((rest ≡ []) × ((t : Timing) × (d.timing_info ≡ some t)))
        ⊎ ((0 < length rest) × (d.timing_info ≡ none))

  -- The shards `ds` lead from number `i` and the bytes `bs` to number `j` and the bytes `cs`.
  abbrev pub Follows : Frame w → ℕ → List ℕ → List (Shard View Timing) → ℕ → List ℕ → Type 0
  Follows f i bs [] j cs = (i ≡ j) × (bs ≡ cs)
  Follows f i bs (d ∷ ds) j cs =
      (rest : List ℕ) × IsNext f i bs d rest × Follows f (suc i) rest ds j cs

  pub Follows-append :
      (f : Frame w) (i : ℕ) (bs : List ℕ) (ds : List (Shard View Timing)) (j : ℕ) (cs : List ℕ)
      (es : List (Shard View Timing)) (k : ℕ) (ts : List ℕ)
      → Follows f i bs ds j cs
      → Follows f j cs es k ts
      → Follows f i bs (ds ++ es) k ts
  Follows-append f i bs [] j cs es k ts (e, e') h =
      subst (λ n. Follows f n bs es k ts) (sym e) (subst (λ xs. Follows f j xs es k ts) (sym e') h)
  Follows-append f i bs (d ∷ ds) j cs es k ts (rest, n, r) h =
      (rest, n, Follows-append f (suc i) rest ds j cs es k ts r h)

  pub data_shards-append :
      (ms ns : List (Message w)) → data_shards (ms ++ ns) ≡ data_shards ms ++ data_shards ns
  unfolding data_shards
  data_shards-append [] ns = refl
  data_shards-append (data_shard d control ∷ ms) ns = ap (◌∷◌ d) (data_shards-append ms ns)
  data_shards-append (parity_shard p ∷ ms) ns = data_shards-append ms ns

  -- A frame that is loaded and whose shard template stands at the current offset.
  pub record IsMid (s : PacedSender w) : Type 0 where
    pub stream_index : s.shard.stream_item_idx ≡ s.frame.stream_index
    pub frame_index : s.shard.frame_idx ≡ s.frame.frame_index
    pub view : s.shard.view_info ≡ view_of s.frame s.shard.shard_idx
    pub within : s.offset ≤ length s.bytes
    pub timing : (s.offset ≡ length s.bytes) ⊎ (s.shard.timing_info ≡ none)
    pub counted : s.shards ≡ s.shard.shard_idx % 2 ^ 16

  abbrev pub remaining : PacedSender w → List ℕ
  remaining s = drop s.offset s.bytes

  length-remaining : (s : PacedSender w) → length (remaining s) ≡ length s.bytes - s.offset
  length-remaining s = length-drop s.offset s.bytes

  pub shard_size_bounds :
      (s : PacedSender w)
      → s.offset < length s.bytes
      → (0 < shard_size s)
        × (shard_size s ≤ length s.bytes - s.offset)
        × ((shard_size s + w.serialized_size s.shard.view_info ≤ payload_budget s.frame)
            ⊎ (shard_size s ≡ 1))
  unfolding shard_size
  shard_size_bounds s h = ground arith

  -- The bytes left once the next shard is out.
  abbrev pub rest_of : PacedSender w → List ℕ
  rest_of s = drop (s.offset + shard_size s) s.bytes

  next_split :
      (s : PacedSender w) (sinks : Sinks w)
      → remaining s ≡ (next_shard s sinks).payload ++ rest_of s
  unfolding next_shard
  next_split s sinks =
      sym (take-append-drop (shard_size s) (remaining s))
      ∙ ap (◌++◌ (take (shard_size s) (remaining s))) (drop-drop (shard_size s) s.offset s.bytes)

  length-rest :
      (s : PacedSender w) → length (rest_of s) ≡ length s.bytes - (s.offset + shard_size s)
  length-rest s = length-drop (s.offset + shard_size s) s.bytes

  length-payload :
      (s : PacedSender w) (sinks : Sinks w)
      → s.offset < length s.bytes
      → length (next_shard s sinks).payload ≡ shard_size s
  unfolding next_shard
  length-payload s sinks h =
      omega
        (arith, length-take (shard_size s) (remaining s), length-remaining s, shard_size_bounds s h)

  next_timing :
      (s : PacedSender w) (sinks : Sinks w)
      → IsMid s
      → s.offset < length s.bytes
      → ((rest_of s ≡ []) × ((t : Timing) × ((next_shard s sinks).timing_info ≡ some t)))
        ⊎ ((0 < length (rest_of s)) × ((next_shard s sinks).timing_info ≡ none))
  unfolding next_shard
  next_timing s sinks v h = elim (Bool-cases (shard_size s == length s.bytes - s.offset)) [
    | inl last ↦ inl (
      eq_nil_of_length (rest_of s) (ground (arith, length-rest s)),
      (stamped sinks s.frame.timing_info, rw last refl),
    )
    | inr more ↦
        inr
          (ground (arith, length-rest s, shard_size_bounds s h), rw more (ground (arith, v.timing)))
  ]

  -- The shard that goes out is the next one of the frame.
  pub next_shard-IsNext :
      (s : PacedSender w) (sinks : Sinks w)
      → IsMid s
      → s.offset < length s.bytes
      → IsNext s.frame s.shard.shard_idx (remaining s) (next_shard s sinks) (rest_of s)
  unfolding next_shard
  next_shard-IsNext s sinks v h = record {
    number = refl;
    frame = (v.stream_index, v.frame_index);
    view = v.view;
    split = next_split s sinks;
    progress = omega (arith, length-payload s sinks h, shard_size_bounds s h);
    fits = ground (arith, length-payload s sinks h, shard_size_bounds s h);
    timing = next_timing s sinks v h;
  }

  pub sent_shard-IsMid :
      (s : PacedSender w) (sinks : Sinks w)
      → IsMid s
      → s.offset < length s.bytes
      → IsMid (sent_shard s sinks)
  unfolding sent_shard next_shard
  sent_shard-IsMid s sinks v h = record {
    stream_index = v.stream_index;
    frame_index = v.frame_index;
    view = simp towards_suc;
    within = omega (arith, shard_size_bounds s h);
    timing = ground (arith, shard_size_bounds s h, v.timing);
    counted = omega (arith, v.counted);
  }
