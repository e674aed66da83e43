-- ===== src/Staging/Lifecycle.antt =====
-- A lease of frame_staging.cpp from the blit to the helper's answer.
use wivrn_nx_windows.Base.{
  ℕ, ◌<◌, ◌≡◌, refl, ◌≢◌, true, false, Option, none, some, arith, set, length, get_or-set_self,
  set-set,
}
use wivrn_nx_windows.Staging.{
  Slot, Ring, Lease, slot_at, null_slot, leased_index, release_to_helper, return_slot,
  on_frame_done,
}
use wivrn_nx_windows.Staging.Ownership.{IsValid, slot_at-IsOwned}

module _ (r : Ring) (i : ℕ) (texture : Option ℕ) where
  abbrev pub lease : Lease
  lease = record { index = some i; texture = texture }

  -- The slot is leased to us.
  abbrev pub IsLeased : Type 0
  IsLeased = (i < r.count) × ((slot_at r i).leased ≡ true)

  leased_index_lem : IsValid r → IsLeased → leased_index r lease ≡ some i
  unfolding leased_index
  leased_index_lem v l = ground (arith, slot_at-IsOwned r i v)

  in_slots : IsValid r → IsLeased → i < length r.slots
  in_slots v l = omega (arith, v.three, v.fits)

  -- In a valid ring a leased slot that is lent to the helper as `frame_id` comes back with the answer
  -- for that frame, free and with the rest of the ring as it was. Any other answer for the slot is
  -- refused and changes nothing.
  pub on_frame_done-release_to_helper :
      (frame_id other : ℕ)
      → IsValid r
      → IsLeased
      → frame_id ≢ other
      → let lent = release_to_helper r lease frame_id in
        (on_frame_done lent i frame_id ≡ (
          record r {
            slots =
                set r.slots i
                  (record (slot_at r i) { leased = false; helper_owned = false; frame_id = 0 });
          },
          true,
        ))
        × (on_frame_done lent i other ≡ (lent, false))
  unfolding release_to_helper on_frame_done
  on_frame_done-release_to_helper frame_id other v l ne =
      let s = slot_at r i in
      let s' : Slot = record s { leased = false; helper_owned = true; frame_id = frame_id } in
      let back : Slot = record s { leased = false; helper_owned = false; frame_id = 0 } in
      rw
        (
          leased_index_lem v l,
          release_to_helper,
          get_or-set_self r.slots i s' null_slot (in_slots v l),
        )
        (ground (arith, set-set r.slots i s' back), ground arith)

  leased_index_back :
      IsValid r
      → IsLeased
      → leased_index
          (record r {
            slots =
                set r.slots i
                  (record (slot_at r i) { leased = false; helper_owned = false; frame_id = 0 });
          })
          lease
        ≡ none
  unfolding leased_index
  leased_index_back v l =
      let back : Slot = record (slot_at r i) {
        leased = false;
        helper_owned = false;
        frame_id = 0;
      } in
      rw (get_or-set_self r.slots i back null_slot (in_slots v l)) (ground arith)

  return_slot_leased :
      IsValid r
      → IsLeased
      → return_slot r lease ≡ record r {
        slots =
            set r.slots i
              (record (slot_at r i) { leased = false; helper_owned = false; frame_id = 0 });
      }
  unfolding return_slot
  return_slot_leased v l = rw (leased_index_lem v l, return_slot) refl

  -- In a valid ring a leased slot given back unused is free again, the rest of the ring as it was;
  -- giving it back twice, or lending it afterwards, changes nothing more.
  pub return_slot_lem :
      (frame_id : ℕ)
      → IsValid r
      → IsLeased
      → let back = return_slot r lease in
        (back ≡ record r {
          slots =
              set r.slots i
                (record (slot_at r i) { leased = false; helper_owned = false; frame_id = 0 });
        })
        × (return_slot back lease ≡ back)
        × (release_to_helper back lease frame_id ≡ back)
  unfolding return_slot release_to_helper
  return_slot_lem frame_id v l =
      let given = return_slot_leased v l in
      (
        given,
        rw given (rw (leased_index_back v l, return_slot) refl),
        rw given (rw (leased_index_back v l, release_to_helper) refl),
      )
