-- ===== src/Staging.antt =====
-- shim/src/frame_staging.h and frame_staging.cpp: the ring of staging textures that the shim lends
-- to the helper.
--
-- Each operation holds the ring's lock for its whole body. Direct3D enters as arguments: a device is
-- what its calls answer for each slot, a keyed mutex is what `AcquireSync` answers for a slot and a
-- key, and textures, mutexes and handles are numbers, with `none` for a null pointer. What is only
-- told to Direct3D (the texture description, `ReleaseSync`, `Release`, `CloseHandle`) and the
-- breadcrumbs are left out. The 32-bit generation does not wrap.
pub mod Ownership
pub mod Acquire
pub mod Lifecycle
pub mod Creation
mod Tests
use wivrn_nx_windows.Base.{
  ℕ, zero, suc, ◌+◌, ◌-◌, ◌%◌, Bool, true, false, ◌&&◌, ◌||◌, not, ltb, leb, ◌==◌, if◌then◌else◌,
  Option, none, some, List, [], ◌∷◌, map, length, get_or, set,
}

pub record Slot : Type 0 where
  pub texture : Option ℕ
  pub mutex : Option ℕ
  pub handle : Option ℕ
  pub helper_owned : Bool
  pub leased : Bool
  pub frame_id : ℕ

pub record Ring : Type 0 where
  pub slots : List Slot
  pub count : ℕ
  pub width : ℕ
  pub height : ℕ
  pub format : ℕ
  pub generation : ℕ
  pub stale : Bool
  pub next : ℕ

abbrev pub max_slots : ℕ
max_slots = 3

abbrev pub null_slot : Slot
null_slot = record {
  texture = none;
  mutex = none;
  handle = none;
  helper_owned = false;
  leased = false;
  frame_id = 0;
}

-- What a new ring is.
abbrev pub empty : Ring
empty = record {
  slots = null_slot ∷ null_slot ∷ null_slot ∷ [];
  count = 0;
  width = 0;
  height = 0;
  format = 0;
  generation = 0;
  stale = false;
  next = 0;
}

abbrev pub slot_at : Ring → ℕ → Slot
slot_at r i = get_or r.slots i null_slot

-- An index of -1 is `none`.
pub record Lease : Type 0 where
  pub index : Option ℕ
  pub texture : Option ℕ

abbrev pub no_lease : Lease
no_lease = record { index = none; texture = none }

-- What `AcquireSync` answers: `S_OK`, `WAIT_ABANDONED`, or anything else.
pub data Synced : Type 0 where
  s_ok wait_abandoned other : Synced

pub acquired_ok : Synced → Bool
acquired_ok s_ok = true
acquired_ok wait_abandoned = true
acquired_ok other = false

abbrev pub is_null : Option ℕ → Bool
is_null none = true
is_null (some p) = false

pub usable : Ring → Bool
usable r = not (r.count == 0) && not r.stale

pub matches : Ring → ℕ → ℕ → ℕ → Bool
matches r width height dxgi_format =
    not (r.count == 0)
    && not r.stale
    && r.width == width
    && r.height == height
    && r.format == dxgi_format

-- The loop of `busy_slots` over the first `n` slots.
pub count_owned : ℕ → List Slot → ℕ
count_owned zero ss = 0
count_owned (suc n) [] = 0
count_owned (suc n) (s ∷ ss) =
    let rest = count_owned n ss in if s.helper_owned then rest + 1 else rest

pub busy_slots : Ring → ℕ
unfolding count_owned
busy_slots r = count_owned r.count r.slots

pub destroy_locked : Ring → Ring
destroy_locked r = record r {
  slots = map (λ _. null_slot) r.slots;
  count = 0;
  width = 0;
  height = 0;
  format = 0;
  stale = false;
  next = 0;
}

-- The calls that `create` makes for one slot: the texture, whether it exports handles, the shared
-- handle, and the keyed mutex.
pub record Device : Type 0 where
  pub texture : ℕ → Option ℕ
  pub exports : ℕ → Bool
  pub shared : ℕ → Option ℕ
  pub mutex : ℕ → Option ℕ

-- One round of the loop of `create`; `none` is a failed call.
pub create_slot : Device → ℕ → Option Slot
create_slot d i =
    if is_null (d.texture i) || not (d.exports i) || is_null (d.shared i) || is_null (d.mutex i)
    then none
    else some (record {
      texture = d.texture i;
      mutex = d.mutex i;
      handle = d.shared i;
      helper_owned = false;
      leased = false;
      frame_id = 0;
    })

-- The slots from index `i` on with `n` still to create; the others stay as they are.
pub create_slots : Device → ℕ → ℕ → List Slot → Option (List Slot)
unfolding create_slot
create_slots d i zero ss = some ss
create_slots d i (suc n) [] = some []
create_slots d i (suc n) (s ∷ ss) = elim (create_slot d i) [
  | none ↦ none
  | some s' ↦ elim (create_slots d (i + 1) n ss) [ none ↦ none | some rest ↦ some (s' ∷ rest) ]
]

abbrev pub clamp_count : ℕ → ℕ
clamp_count count = if count == 0 then 1 else if ltb max_slots count then max_slots else count

pub create : Ring → Option Device → ℕ → ℕ → ℕ → ℕ → Ring × Bool
unfolding create_slots destroy_locked
create r none width height dxgi_format count = (r, false)
create r (some device) width height dxgi_format count =
    let gone = destroy_locked r in
    let made : Ring × Bool = elim (create_slots device 0 (clamp_count count) gone.slots) [
      | none ↦ (gone, false)
      | some slots ↦ (
        record {
          slots = slots;
          count = clamp_count count;
          width = width;
          height = height;
          format = dxgi_format;
          generation = r.generation + 1;
          stale = false;
          next = 0;
        },
        true,
      )
    ] in
    if width == 0 || height == 0 then (r, false) else made

-- The mutex of one slot, with key 0 and then with key 1.
pub try_acquire : (ℕ → ℕ → Synced) → ℕ → Bool
unfolding acquired_ok
try_acquire sync index = acquired_ok (sync index 0) || acquired_ok (sync index 1)

pub skipped : Slot → Bool
skipped s = s.helper_owned || s.leased || is_null s.mutex || is_null s.texture

-- The loop of `acquire_slot` from `attempt` on, with `left` attempts to go.
pub acquire_from : (ℕ → ℕ → Synced) → Ring → ℕ → ℕ → Ring × Lease
unfolding skipped try_acquire
acquire_from sync r attempt zero = (r, no_lease)
acquire_from sync r attempt (suc left) =
    let index = (r.next + attempt) % r.count in
    let slot = slot_at r index in
    let rest = acquire_from sync r (attempt + 1) left in
    if skipped slot || not (try_acquire sync index) then rest else (
      record r {
        slots = set r.slots index (record slot { leased = true });
        next = (index + 1) % r.count;
      },
      record { index = some index; texture = slot.texture },
    )

pub acquire_slot : (ℕ → ℕ → Synced) → Ring → Ring × Lease
acquire_slot sync r =
    let found = acquire_from sync r 0 r.count in
    if r.count == 0 || r.stale then (r, no_lease) else found

-- The guards of `release_to_helper` and `return_slot`: the index of the leased slot.
pub leased_index : Ring → Lease → Option ℕ
leased_index r l = elim l.index [
  | none ↦ none
  | some i ↦
      if not (ltb i r.count) || not (slot_at r i).leased || is_null (slot_at r i).mutex
      then none
      else some i
]

pub release_to_helper : Ring → Lease → ℕ → Ring
release_to_helper r lease frame_id = elim (leased_index r lease) [
  | none ↦ r
  | some i ↦ record r {
    slots =
        set r.slots i
          (record (slot_at r i) { leased = false; helper_owned = true; frame_id = frame_id });
  }
]

pub return_slot : Ring → Lease → Ring
return_slot r lease = elim (leased_index r lease) [
  | none ↦ r
  | some i ↦ record r {
    slots =
        set r.slots i (record (slot_at r i) { leased = false; helper_owned = false; frame_id = 0 });
  }
]

-- A `FrameDone`, by its index and frame number.
pub on_frame_done : Ring → ℕ → ℕ → Ring × Bool
on_frame_done r staging_index frame_id =
    if r.count == 0 || leb r.count staging_index
    then (r, false)
    else if not (slot_at r staging_index).helper_owned
    then (r, false)
    else if not ((slot_at r staging_index).frame_id == frame_id)
    then (r, false)
    else (
      record r {
        slots =
            set r.slots staging_index
              (record (slot_at r staging_index) { helper_owned = false; frame_id = 0 });
      },
      true,
    )

pub mark_stale : Ring → Ring
mark_stale r = if not (r.count == 0) && not r.stale then record r { stale = true } else r

-- `ipc::StagingConfig`; the handles are those of the first `count` slots.
pub record StagingConfig : Type 0 where
  pub generation : ℕ
  pub width : ℕ
  pub height : ℕ
  pub dxgi_format : ℕ
  pub count : ℕ
  pub handles : List (Option ℕ)

pub first_handles : ℕ → List Slot → List (Option ℕ)
first_handles zero ss = []
first_handles (suc n) [] = []
first_handles (suc n) (s ∷ ss) = s.handle ∷ first_handles n ss

pub describe : Ring → Option StagingConfig
unfolding first_handles
describe r =
    if r.count == 0
    then none
    else some (record {
      generation = r.generation;
      width = r.width;
      height = r.height;
      dxgi_format = r.format;
      count = r.count;
      handles = first_handles r.count r.slots;
    })
