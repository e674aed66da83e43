-- ===== src/Staging/Creation.antt =====
-- A ring that frame_staging.cpp creates, and one that it fails to create.
use mathlib.Core.Option.{some-injective}
use wivrn_nx_windows.Base.{
  subst, ℕ, zero, suc, ◌+◌, ◌≤◌, ◌≡◌, refl, ◌⊎◌, inl, inr, true, false, none, some, List, [], ◌∷◌,
  arith, Option-cases, Bool-cases, ◌==◌, ◌||◌, map,
}
use wivrn_nx_windows.Staging.{
  Slot, Ring, Device, StagingConfig, null_slot, count_owned, create_slot, create_slots, clamp_count,
  destroy_locked, create, usable, matches, busy_slots, describe, first_handles,
}

helper_owned-create_slot :
    (d : Device) (i : ℕ) (s : Slot) → create_slot d i ≡ some s → s.helper_owned ≡ false
unfolding create_slot
helper_owned-create_slot d i s e = ground arith

count_owned-create_slots :
    (d : Device) (i n : ℕ) (ss made : List Slot)
    → create_slots d i n ss ≡ some made
    → count_owned n made ≡ 0
unfolding create_slots count_owned
count_owned-create_slots d i zero ss made e = refl
count_owned-create_slots d i (suc n) [] made e =
    subst (λ (x : List Slot). count_owned (suc n) x ≡ 0) (some-injective _ _ e) refl
count_owned-create_slots d i (suc n) (s ∷ ss) made e = elim (Option-cases (create_slot d i)) [
  | inl bad ↦ absurd (ground arith)
  | inr (s', good) ↦ elim (Option-cases (create_slots d (i + 1) n ss)) [
    | inl bad ↦ absurd (ground arith)
    | inr (rest, good') ↦
        let e' : some (s' ∷ rest) ≡ some made = ground arith in
        let free = helper_owned-create_slot d i s' good in
        let none_owned = count_owned-create_slots d (i + 1) n ss rest good' in
        subst (λ (x : List Slot). count_owned (suc n) x ≡ 0) (some-injective _ _ e')
          (rw free none_owned)
  ]
]

-- A ring that was created is usable, matches what was asked for, has no slot with the helper, and
-- is described with a new generation, the sizes asked for, and their number brought into 1 to 3. A
-- call that fails leaves the ring as it was, where it was asked for nothing, or unusable.
pub create_lem :
    (r : Ring) (d : Device) (width height format count : ℕ)
    → let (r', made) = create r (some d) width height format count in
      ((made ≡ true)
        × (usable r' ≡ true)
        × (matches r' width height format ≡ true)
        × (busy_slots r' ≡ 0)
        × ((c : StagingConfig) × (describe r' ≡ some c)
            × (c.generation ≡ r.generation + 1)
            × (c.width ≡ width)
            × (c.height ≡ height)
            × (c.dxgi_format ≡ format)
            × (1 ≤ c.count)
            × (c.count ≤ 3)))
      ⊎ ((made ≡ false)
          × (((r' ≡ r) × ((width ≡ 0) ⊎ (height ≡ 0)))
              ⊎ ((usable r' ≡ false) × (describe r' ≡ none))))
unfolding create destroy_locked usable matches busy_slots describe
create_lem r d width height format count = elim (Bool-cases (width == 0 || height == 0)) [
  | inl e ↦ rw e (inr (refl, inl (refl, ground (arith, e))))
  | inr e ↦
      let gone = map (λ _. null_slot) r.slots in
      elim (Option-cases (create_slots d 0 (clamp_count count) gone)) [
        | inl f ↦ rw (e, f) (inr (refl, inr (refl, refl)))
        | inr (made, f) ↦
            let some_slot : (clamp_count count == 0) ≡ false = ground arith in
            let config : StagingConfig = record {
              generation = r.generation + 1;
              width = width;
              height = height;
              dxgi_format = format;
              count = clamp_count count;
              handles = first_handles (clamp_count count) made;
            } in
            rw (e, f)
              (inl (
                refl,
                ground arith,
                ground arith,
                count_owned-create_slots d 0 (clamp_count count) gone made f,
                (config, rw some_slot refl, refl, refl, refl, refl, ground arith, ground arith),
              ))
      ]
]
