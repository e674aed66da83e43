-- ===== src/Pacer.antt =====
-- helper/src/wivrn/shard_pacer.h: the leaky-bucket schedule of one frame's shards.
--
-- `size_t` and `uint64_t` are 64 bits wide; times and budgets are nanoseconds of a monotonic clock,
-- numbers that stay below 2 ^ 63, and a signed test `a - b < c` on them is written `a < b + c`.
pub mod Schedule
pub mod Pauses
pub mod Slot
pub mod Tests
use wivrn_nx_windows.Base.{
  ℕ, ◌+◌, ◌-◌, ◌*◌, ◌/◌, ◌%◌, ◌^◌, min, Bool, true, false, ◌&&◌, ◌||◌, not, ltb, leb, if◌then◌else◌,
  Option, none, some,
}
use wivrn_nx_windows.Base.Int.{ℤ, pos_part}

-- 12 KiB
abbrev pub group_bytes : ℕ
group_bytes = 12 * 1024

-- 150 us
abbrev pub min_sleep_ns : ℕ
min_sleep_ns = 150_000

pub record ShardPacer : Type 0 where
  pub start : ℕ
  pub budget : ℕ
  pub total : ℕ
  pub next_group : ℕ

-- The default constructor: an inactive pacer.
abbrev pub inactive : ShardPacer
inactive = record { start = 0; budget = 0; total = 0; next_group = group_bytes }

-- The constructor; a negative budget counts as none.
pub make : ℕ → ℤ → ℕ → ShardPacer
make start_ns budget_ns total_bytes = record {
  start = start_ns;
  budget = pos_part budget_ns;
  total = total_bytes;
  next_group = group_bytes;
}

unfoldable pub active : ShardPacer → Bool
active p = ltb 0 p.budget && ltb group_bytes p.total

pub window_ns : ShardPacer → ℕ
window_ns p = if active p then p.budget else 0

-- The product is a `uint64_t`, and wraps.
pub deadline : ShardPacer → ℕ → ℕ
unfolding active
deadline p offset =
    if not (active p)
    then p.start
    else if leb p.total offset
    then p.start + p.budget
    else p.start + p.budget * offset % 2 ^ 64 / p.total

pub group_count : ShardPacer → ℕ
unfolding active
group_count p = if not (active p) then 1 else (p.total + group_bytes - 1) / group_bytes

pub group_deadline : ShardPacer → ℕ → ℕ
unfolding deadline
group_deadline p index = deadline p (min (index * group_bytes) p.total)

-- The time until which the next shard is held back, if it is.
unfoldable pub wait_until : ShardPacer → ℕ → ℕ → ShardPacer × Option ℕ
unfolding active deadline
wait_until p sent_bytes now =
    if not (active p) || ltb sent_bytes p.next_group || leb p.total sent_bytes
    then (p, none)
    else (let at = deadline p sent_bytes in
        (
          record p { next_group = (sent_bytes / group_bytes + 1) * group_bytes },
          if ltb at (now + min_sleep_ns) then none else some at,
        ))

-- What `begin_frame` does with a `float`: its sign, and the window's share of the frame period,
-- `int64_t(period * clamp(window, 0, 0.5))`.
pub record WindowFloat (F : Type 0) : Type 0 where
  pub le_zero : F → Bool
  pub share : ℕ → F → ℕ

pub record PacingSlot : Type 0 where
  pub slot_start : ℕ
  pub slot_open : Bool

module _ {F : Type 0} (float : WindowFloat F) where
  -- The slot as `begin_frame` leaves it once its guards have passed.
  pub open_slot : PacingSlot → ℕ → ℕ → PacingSlot
  open_slot s now frame_period =
      if not s.slot_open || leb (s.slot_start + frame_period) now
      then record { slot_start = now; slot_open = true }
      else s

  pub begin_frame : PacingSlot → ℕ → ℤ → F → ℕ → PacingSlot × ℕ
  unfolding open_slot
  begin_frame s now frame_period_ns window queued =
      if leb (pos_part frame_period_ns) 0 || float.le_zero window
      then (s, 0)
      else (let full = float.share (pos_part frame_period_ns) window in
          let s' = open_slot s now (pos_part frame_period_ns) in
          if leb (s'.slot_start + full) now
          then (s', 0)
          else (s', (s'.slot_start + full - now) / (queued + 1)))

pub reset : PacingSlot → PacingSlot
reset s = record s { slot_open = false }
