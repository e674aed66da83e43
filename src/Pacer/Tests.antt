-- ===== src/Pacer/Tests.antt =====
-- shard_pacer.h on a frame of 100 KB over 4 ms.
use wivrn_nx_windows.Base.{ℕ, ◌+◌, ◌*◌, ◌/◌, ◌≤◌, ◌<◌, ◌≡◌, refl, true, arith, List, [], ◌∷◌, leb}
use wivrn_nx_windows.Base.Int.{pos}
use wivrn_nx_windows.Pacer.{
  ShardPacer, WindowFloat, PacingSlot, make, deadline, window_ns, group_count, wait_until,
  begin_frame,
}
use wivrn_nx_windows.Pacer.Schedule.{deadline_in_window}
use wivrn_nx_windows.Pacer.Pauses.{pauses, pauses-lt-group_count}

abbrev frame : ShardPacer
frame = record { start = 1_000_000; budget = 4_000_000; total = 100_000; next_group = 12_288 }

middle : deadline frame 50_000 ≡ 3_000_000
unfolding deadline
middle = refl

deadline_in_window_example :
    (deadline frame 0 ≡ 1_000_000)
    × (1_000_000 ≤ deadline frame 50_000)
    × (deadline frame 50_000 ≤ deadline frame 100_000)
    × (deadline frame 100_000 ≤ 1_000_000 + window_ns frame)
deadline_in_window_example = deadline_in_window frame 50_000 100_000 (omega arith) (omega arith)

abbrev calls : List (ℕ × ℕ)
calls = (12_500, 1_000_000) ∷ (13_900, 1_000_000) ∷ (26_000, 1_500_000) ∷ []

pauses-calls : pauses (make 1_000_000 (pos 4_000_000) 100_000) calls ≡ 2
unfolding pauses wait_until make
pauses-calls = refl

pauses-lt-group_count_example :
    pauses (make 1_000_000 (pos 4_000_000) 100_000) calls
    < group_count (make 1_000_000 (pos 4_000_000) 100_000)
pauses-lt-group_count_example = pauses-lt-group_count 1_000_000 (pos 4_000_000) 100_000 calls

-- A window in percent stands for the float.
abbrev pub percent : WindowFloat ℕ
percent = record { le_zero = λ w. leb w 0; share = λ period w. period * w / 100 }

abbrev pub slot : PacingSlot
slot = record { slot_start = 1_000_000; slot_open = true }

-- Two frames share the 4 ms that are left of a 40% window.
begin_frame-slot : begin_frame percent slot 1_400_000 (pos 11_000_000) 40 1 ≡ (slot, 2_000_000)
unfolding begin_frame
begin_frame-slot = refl
