-- ===== src/Staging/Tests.antt =====
-- frame_staging.h on a ring of two textures.
use wivrn_nx_windows.Base.{
  ℕ, zero, ◌+◌, ◌≤◌, ◌≡◌, ◌⊎◌, refl, true, false, none, some, List, [], ◌∷◌, arith, set,
}
use wivrn_nx_windows.Staging.{
  Slot, Ring, Device, StagingConfig, usable, matches, busy_slots, describe, create, Synced, s_ok,
  other, empty, null_slot, slot_at, acquire_from, acquire_slot, release_to_helper, on_frame_done,
}
use wivrn_nx_windows.Staging.Ownership.{
  IsValid, Call, creates, acquires, releases, done, run, run-IsValid, empty-IsValid,
}
use wivrn_nx_windows.Staging.Creation.{create_lem}
use wivrn_nx_windows.Staging.Acquire.{Acquired, acquire_slot-Acquired}
use wivrn_nx_windows.Staging.Lifecycle.{lease, on_frame_done-release_to_helper}

abbrev device : Device
device = record {
  texture = λ i. some (100 + i);
  exports = λ i. true;
  shared = λ i. some (200 + i);
  mutex = λ i. some (300 + i);
}

abbrev free : ℕ → ℕ → Synced
free i key = s_ok

abbrev held : ℕ → ℕ → Synced
held i key = other

abbrev slot : ℕ → Slot
slot i = record {
  texture = some (100 + i);
  mutex = some (300 + i);
  handle = some (200 + i);
  helper_owned = false;
  leased = false;
  frame_id = 0;
}

-- Two slots, the first leased.
abbrev ring : Ring
ring = record {
  slots = record (slot 0) { leased = true } ∷ slot 1 ∷ null_slot ∷ [];
  count = 2;
  width = 64;
  height = 32;
  format = 28;
  generation = 1;
  stale = false;
  next = 1;
}

ring-IsValid : IsValid ring
ring-IsValid = ground arith

abbrev calls : List Call
calls =
    creates (some device) 64 32 28 2
    ∷ acquires free
    ∷ releases (lease empty 0 none) 5
    ∷ done 0 5
    ∷ []

run-IsValid_example : IsValid (run empty calls)
run-IsValid_example = run-IsValid empty calls empty-IsValid

acquire_slot-Acquired_example : Acquired free ring (acquire_slot free ring)
acquire_slot-Acquired_example = acquire_slot-Acquired free ring

acquire_slot-held : (acquire_slot held ring).1.index ≡ none
unfolding acquire_slot acquire_from
acquire_slot-held = refl

on_frame_done-release_to_helper_example :
    let lent = release_to_helper ring (lease ring 0 (some 100)) 5 in
    (on_frame_done lent 0 5 ≡ (
      record ring {
        slots =
            set ring.slots 0
              (record (slot_at ring 0) { leased = false; helper_owned = false; frame_id = 0 });
      },
      true,
    ))
    × (on_frame_done lent 0 4 ≡ (lent, false))
on_frame_done-release_to_helper_example =
    on_frame_done-release_to_helper ring 0 (some 100) 5 4 ring-IsValid (omega arith, refl)
      (λ e. absurd (omega (arith, e)))

create_lem_example :
    let (r', made) = create empty (some device) 64 32 28 9 in
    ((made ≡ true)
      × (usable r' ≡ true)
      × (matches r' 64 32 28 ≡ true)
      × (busy_slots r' ≡ 0)
      × ((c : StagingConfig) × (describe r' ≡ some c)
          × (c.generation ≡ 1)
          × (c.width ≡ 64)
          × (c.height ≡ 32)
          × (c.dxgi_format ≡ 28)
          × (1 ≤ c.count)
          × (c.count ≤ 3)))
    ⊎ ((made ≡ false)
        × (((r' ≡ empty) × ((64 ≡ zero) ⊎ (32 ≡ zero)))
            ⊎ ((usable r' ≡ false) × (describe r' ≡ none))))
create_lem_example = create_lem empty device 64 32 28 9
