-- ===== src/Staging/Ownership.antt =====
-- A slot of frame_staging.cpp belongs to one side at a time.
use mathlib.Core.Option.{some-injective}
use wivrn_nx_windows.Base.{
  ℕ, zero, suc, ◌+◌, ◌%◌, ◌≤◌, ◌<◌, ◌≡◌, refl, ap, subst, ◌∙◌, ◌⊎◌, inl, inr, Bool, true, false,
  Option, none, some, List, [], ◌∷◌, arith, All, All-set, All-get_or, length, length-set, map,
  Option-cases, Bool-cases, set, ◌==◌, ◌||◌, not,
}
use wivrn_nx_windows.Staging.{
  try_acquire, Slot, Ring, Lease, Device, Synced, max_slots, null_slot, empty, slot_at, is_null,
  skipped, destroy_locked, create_slot, create_slots, clamp_count, create, acquire_from,
  acquire_slot, leased_index, release_to_helper, return_slot, on_frame_done, mark_stale,
}

-- Never lent and leased at once; leased only with a mutex to release; a frame number only while
-- the helper has the slot.
pub record IsOwned (s : Slot) : Type 0 where
  pub one_side : (s.leased ≡ false) ⊎ (s.helper_owned ≡ false)
  pub has_mutex : (s.leased ≡ false) ⊎ (is_null s.mutex ≡ false)
  pub numbered : (s.helper_owned ≡ true) ⊎ (s.frame_id ≡ 0)

pub record IsValid (r : Ring) : Type 0 where
  pub three : length r.slots ≡ max_slots
  pub fits : r.count ≤ max_slots
  pub next_in : ((r.count ≡ 0) × (r.next ≡ 0)) ⊎ (r.next < r.count)
  pub owned : All IsOwned r.slots

pub null_slot-IsOwned : IsOwned null_slot
null_slot-IsOwned = ground arith

pub slot_at-IsOwned : (r : Ring) (i : ℕ) → IsValid r → IsOwned (slot_at r i)
slot_at-IsOwned r i v = All-get_or IsOwned r.slots i null_slot v.owned null_slot-IsOwned

pub empty-IsValid : IsValid empty
empty-IsValid = ground arith

-- A write of an owned slot keeps the ring valid.
set-IsValid :
    (r : Ring) (i : ℕ) (s : Slot)
    → IsValid r
    → IsOwned s
    → IsValid (record r { slots = set r.slots i s })
set-IsValid r i s v o = record {
  three = omega (arith, length-set r.slots i s, v.three);
  fits = v.fits;
  next_in = v.next_in;
  owned = All-set IsOwned r.slots i s v.owned o;
}

map_null : (ss : List Slot) → All IsOwned (map (λ _. null_slot) ss)
map_null [] = tt
map_null (s ∷ ss) = (null_slot-IsOwned, map_null ss)

length-map_null : (ss : List Slot) → length (map (λ _. null_slot) ss) ≡ length ss
length-map_null [] = refl
length-map_null (s ∷ ss) = ap suc (length-map_null ss)

pub destroy_locked-IsValid : (r : Ring) → IsValid r → IsValid (destroy_locked r)
unfolding destroy_locked
destroy_locked-IsValid r v = record {
  three = length-map_null r.slots ∙ v.three;
  fits = omega arith;
  next_in = inl (refl, refl);
  owned = map_null r.slots;
}

create_slot-IsOwned : (d : Device) (i : ℕ) (s : Slot) → create_slot d i ≡ some s → IsOwned s
unfolding create_slot
create_slot-IsOwned d i s e = ground arith

create_slots_lem :
    (d : Device) (i n : ℕ) (ss ts : List Slot)
    → All IsOwned ss
    → create_slots d i n ss ≡ some ts
    → (length ts ≡ length ss) × All IsOwned ts
unfolding create_slots
create_slots_lem d i zero ss ts h e =
    subst (λ (x : List Slot). (length x ≡ length ss) × All IsOwned x) (some-injective _ _ e)
      (refl, h)
create_slots_lem d i (suc n) [] ts h e =
    subst (λ (x : List Slot). (length x ≡ 0) × All IsOwned x) (some-injective _ _ e) (refl, tt)
create_slots_lem d i (suc n) (s ∷ ss) ts h e = elim (Option-cases (create_slot d i)) [
  | inl bad ↦ absurd (ground arith)
  | inr (s', good) ↦ elim (Option-cases (create_slots d (i + 1) n ss)) [
    | inl bad ↦ absurd (ground arith)
    | inr (rest, good') ↦
        let all = create_slots_lem d (i + 1) n ss rest h.1 good' in
        let e' : some (s' ∷ rest) ≡ some ts = ground arith in
        subst (λ (x : List Slot). (length x ≡ suc (length ss)) × All IsOwned x)
          (some-injective _ _ e') (ap suc all.0, (create_slot-IsOwned d i s' good, all.1))
  ]
]

create-IsValid :
    (r : Ring) (d : Option Device) (width height format count : ℕ)
    → IsValid r
    → IsValid (create r d width height format count).0
unfolding create
create-IsValid r none width height format count v = v
create-IsValid r (some d) width height format count v =
    let gone = destroy_locked-IsValid r v in
    elim (Bool-cases (width == 0 || height == 0)) [
      | inl bad ↦ rw bad v
      | inr sizes ↦
          elim (Option-cases (create_slots d 0 (clamp_count count) (destroy_locked r).slots)) [
            | inl failed ↦ rw (sizes, failed) gone
            | inr (ts, made) ↦
                let all = create_slots_lem d 0 (clamp_count count) _ ts gone.owned made in
                rw (sizes, made)
                  (record {
                    three = all.0 ∙ gone.three;
                    fits = ground arith;
                    next_in = inr (ground arith);
                    owned = all.1;
                  })
          ]
    ]

-- A slot that the loop does not pass over.
pub free_slot :
    (s : Slot) (got : Bool)
    → (skipped s || not got) ≡ false
    → (s.helper_owned ≡ false)
      × (s.leased ≡ false)
      × (is_null s.mutex ≡ false)
      × (is_null s.texture ≡ false)
      × (got ≡ true)
unfolding skipped
free_slot s got e = ground arith

lease-IsOwned :
    (s : Slot) (got : Bool)
    → (skipped s || not got) ≡ false
    → IsOwned s
    → IsOwned (record s { leased = true })
lease-IsOwned s got e o =
    let (helper, leased, mutex, _, _) = free_slot s got e in
    record { one_side = inr helper; has_mutex = inr mutex; numbered = o.numbered }

acquire_from-IsValid :
    (sync : ℕ → ℕ → Synced) (r : Ring) (attempt left : ℕ)
    → 0 < r.count
    → IsValid r
    → IsValid (acquire_from sync r attempt left).0
unfolding acquire_from
acquire_from-IsValid sync r attempt zero pos v = v
acquire_from-IsValid sync r attempt (suc left) pos v =
    let i = (r.next + attempt) % r.count in
    let s = slot_at r i in
    elim (Bool-cases (skipped s || not (try_acquire sync i))) [
      | inl skip ↦ rw skip (acquire_from-IsValid sync r (attempt + 1) left pos v)
      | inr free ↦ rw free (record {
        three = length-set r.slots i (record s { leased = true }) ∙ v.three;
        fits = v.fits;
        next_in = inr (omega arith);
        owned =
            All-set IsOwned r.slots i (record s { leased = true }) v.owned
              (lease-IsOwned s (try_acquire sync i) free (slot_at-IsOwned r i v));
      })
    ]

acquire_slot-IsValid :
    (sync : ℕ → ℕ → Synced) (r : Ring) → IsValid r → IsValid (acquire_slot sync r).0
unfolding acquire_slot
acquire_slot-IsValid sync r v = elim (Bool-cases (r.count == 0 || r.stale)) [
  | inl closed ↦ rw closed v
  | inr open_ring ↦ rw open_ring (acquire_from-IsValid sync r 0 r.count (ground arith) v)
]

release_to_helper-IsValid :
    (r : Ring) (l : Lease) (frame_id : ℕ) → IsValid r → IsValid (release_to_helper r l frame_id)
unfolding release_to_helper
release_to_helper-IsValid r l frame_id v = elim (Option-cases (leased_index r l)) [
  | inl e ↦ rw (e, release_to_helper) v
  | inr (i, e) ↦ rw (e, release_to_helper) (set-IsValid r i _ v (ground arith))
]

return_slot-IsValid : (r : Ring) (l : Lease) → IsValid r → IsValid (return_slot r l)
unfolding return_slot
return_slot-IsValid r l v = elim (Option-cases (leased_index r l)) [
  | inl e ↦ rw (e, return_slot) v
  | inr (i, e) ↦ rw (e, return_slot) (set-IsValid r i _ v (ground arith))
]

on_frame_done-IsValid :
    (r : Ring) (i frame_id : ℕ) → IsValid r → IsValid (on_frame_done r i frame_id).0
unfolding on_frame_done
on_frame_done-IsValid r i frame_id v = ground (
  arith,
  set-IsValid r i (record (slot_at r i) { helper_owned = false; frame_id = 0 }) v,
  slot_at-IsOwned r i v,
)

mark_stale-IsValid : (r : Ring) → IsValid r → IsValid (mark_stale r)
unfolding mark_stale
mark_stale-IsValid r v = ground arith

-- The calls of the present thread and of the pipe reader, with what Direct3D answers.
pub data Call : Type 0 where
  creates : Option Device → ℕ → ℕ → ℕ → ℕ → Call
  destroys marks_stale : Call
  acquires : (ℕ → ℕ → Synced) → Call
  releases : Lease → ℕ → Call
  returns : Lease → Call
  done : ℕ → ℕ → Call

pub step : Ring → Call → Ring
step r (creates d width height format count) = (create r d width height format count).0
step r destroys = destroy_locked r
step r marks_stale = mark_stale r
step r (acquires sync) = (acquire_slot sync r).0
step r (releases l frame_id) = release_to_helper r l frame_id
step r (returns l) = return_slot r l
step r (done i frame_id) = (on_frame_done r i frame_id).0

pub run : Ring → List Call → Ring
run r [] = r
run r (c ∷ cs) = run (step r c) cs

step-IsValid : (r : Ring) (c : Call) → IsValid r → IsValid (step r c)
unfolding step
step-IsValid r (creates d width height format count) v =
    create-IsValid r d width height format count v
step-IsValid r destroys v = destroy_locked-IsValid r v
step-IsValid r marks_stale v = mark_stale-IsValid r v
step-IsValid r (acquires sync) v = acquire_slot-IsValid sync r v
step-IsValid r (releases l frame_id) v = release_to_helper-IsValid r l frame_id v
step-IsValid r (returns l) v = return_slot-IsValid r l v
step-IsValid r (done i frame_id) v = on_frame_done-IsValid r i frame_id v

-- After any calls on a valid ring, whatever Direct3D answers, the ring has its three slots and at
-- most that many in use, its cursor is in range, and no slot is leased and lent to the helper at
-- once, leased without a mutex, or numbered while the helper does not have it.
pub run-IsValid : (r : Ring) (cs : List Call) → IsValid r → IsValid (run r cs)
unfolding run
run-IsValid r [] v = v
run-IsValid r (c ∷ cs) v = run-IsValid (step r c) cs (step-IsValid r c v)
