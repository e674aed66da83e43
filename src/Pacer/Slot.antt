-- ===== src/Pacer/Slot.antt =====
-- The window that the frames of one slot share in shard_pacer.h.
use wivrn_nx_windows.Base.{ℕ, ◌+◌, ◌*◌, ◌≤◌, ◌<◌, ◌≡◌, ◌⊎◌, true, arith}
use wivrn_nx_windows.Base.Int.{ℤ, pos_part}
use wivrn_nx_windows.Pacer.{WindowFloat, PacingSlot, open_slot, begin_frame}

module _ {F : Type 0} (float : WindowFloat F) where
  -- For a slot that did not begin after now, the budget of a frame is nothing, or its slot is open,
  -- began no later than now and less than a period ago, and the frame and those queued behind it
  -- fit, at that budget each, into what is left of the window that began with the slot.
  pub begin_frame_fits :
      (s : PacingSlot) (now : ℕ) (period : ℤ) (window : F) (queued : ℕ)
      → s.slot_start ≤ now
      → let (s', budget) = begin_frame float s now period window queued in
        (budget ≡ 0)
        ⊎ ((s'.slot_open ≡ true)
            × (s'.slot_start ≤ now)
            × (now < s'.slot_start + pos_part period)
            × (now + budget * (queued + 1) ≤ s'.slot_start + float.share (pos_part period) window))
  unfolding begin_frame open_slot
  begin_frame_fits s now period window queued h = ground arith
