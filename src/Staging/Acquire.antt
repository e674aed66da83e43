-- ===== src/Staging/Acquire.antt =====
-- Which slot `acquire_slot` of frame_staging.cpp hands out, and when it hands out none.
use native.Mathlib.Decide.{dec_lt}
use native.Mathlib.Nat.{add-zero, mod-eq_of_lt}
use wivrn_nx_windows.Base.{
  ℕ, zero, suc, ◌+◌, ◌-◌, ◌%◌, ◌<◌, ◌≡◌, refl, subst, ◌⊎◌, inl, inr, Bool, true, false, none, some,
  arith, Bool-cases, set, ◌==◌, ◌||◌, not,
}
use wivrn_nx_windows.Staging.{
  Slot, Ring, Lease, Synced, slot_at, is_null, skipped, try_acquire, no_lease, acquire_from,
  acquire_slot,
}
use wivrn_nx_windows.Staging.Ownership.{IsValid, free_slot}

-- The slot cannot be lent now: one side has it, it was never made, or its mutex is held.
abbrev pub IsTaken : (ℕ → ℕ → Synced) → Ring → ℕ → Type 0
IsTaken sync r i = (skipped (slot_at r i) ≡ true) ⊎ (try_acquire sync i ≡ false)

-- What the call answers: nothing and an unchanged ring, or slot `i`, free until now and leased from
-- now on, with the cursor behind it.
pub data Acquired (sync : ℕ → ℕ → Synced) (r : Ring) (out : Ring × Lease) : Type 0 where
  nothing : out.0 ≡ r → out.1 ≡ no_lease → Acquired sync r out
  lent :
      (i : ℕ)
      → i < r.count
      → r.stale ≡ false
      → (slot_at r i).helper_owned ≡ false
      → (slot_at r i).leased ≡ false
      → is_null (slot_at r i).texture ≡ false
      → try_acquire sync i ≡ true
      → out.0 ≡ record r {
        slots = set r.slots i (record (slot_at r i) { leased = true });
        next = (i + 1) % r.count;
      }
      → out.1 ≡ record { index = some i; texture = (slot_at r i).texture }
      → Acquired sync r out

mod_wrap : (x n : ℕ) → x < n → (x + n) % n ≡ x
mod_wrap x n h = grind arith

module _ (sync : ℕ → ℕ → Synced) (r : Ring) where
  acquire_from-Acquired :
      (attempt left : ℕ)
      → 0 < r.count
      → r.stale ≡ false
      → Acquired sync r (acquire_from sync r attempt left)
  unfolding acquire_from
  acquire_from-Acquired attempt zero pos fresh = nothing refl refl
  acquire_from-Acquired attempt (suc left) pos fresh =
      let i = (r.next + attempt) % r.count in
      elim (Bool-cases (skipped (slot_at r i) || not (try_acquire sync i))) [
        | inl skip ↦ rw skip (acquire_from-Acquired (attempt + 1) left pos fresh)
        | inr free ↦
            let (helper, leased, _, texture, got) =
              free_slot (slot_at r i) (try_acquire sync i) free in
            rw free (lent i (omega arith) fresh helper leased texture got refl refl)
      ]

  -- The call lends a slot of a ring that is not stale, which neither side had, whose texture
  -- exists and whose mutex it got, and touches no other slot; or it lends none and changes nothing.
  pub acquire_slot-Acquired : Acquired sync r (acquire_slot sync r)
  unfolding acquire_slot
  acquire_slot-Acquired = elim (Bool-cases (r.count == 0 || r.stale)) [
    | inl closed ↦ rw closed (nothing refl refl)
    | inr usable ↦ rw usable (acquire_from-Acquired 0 r.count (ground arith) (ground arith))
  ]

  acquire_from-none :
      (attempt left k : ℕ)
      → (acquire_from sync r attempt left).1.index ≡ none
      → k < left
      → IsTaken sync r ((r.next + (attempt + k)) % r.count)
  unfolding acquire_from
  acquire_from-none attempt zero k e h = absurd (omega arith)
  acquire_from-none attempt (suc left) k e h =
      let i = (r.next + attempt) % r.count in
      elim (Bool-cases (skipped (slot_at r i) || not (try_acquire sync i))) [
        | inr free ↦ absurd (ground arith)
        | inl skip ↦
            next k h (rw skip at e) (taken (slot_at r i) (try_acquire sync i) skip)
              (λ j lt e'. acquire_from-none (attempt + 1) left j e' lt)
      ]
    where
      taken :
          (s : Slot) (got : Bool)
          → (skipped s || not got) ≡ true
          → (skipped s ≡ true) ⊎ (got ≡ false)
      taken s got h = ground arith

      next :
          (k : ℕ)
          → k < suc left
          → (acquire_from sync r (attempt + 1) left).1.index ≡ none
          → IsTaken sync r ((r.next + attempt) % r.count)
          → ((j : ℕ)
              → j < left
              → (acquire_from sync r (attempt + 1) left).1.index ≡ none
              → IsTaken sync r ((r.next + (attempt + 1 + j)) % r.count))
          → IsTaken sync r ((r.next + (attempt + k)) % r.count)
      next zero h e t rec = rw add-zero t
      next (suc j) h e t rec =
          let same : attempt + 1 + j ≡ attempt + suc j = omega arith in
          subst (λ n. IsTaken sync r ((r.next + n) % r.count)) same (rec j (omega arith) e)

  -- Every index is met by some attempt.
  attempt_for :
      (i : ℕ)
      → i < r.count
      → r.next < r.count
      → (k : ℕ) × (k < r.count) × ((r.next + (0 + k)) % r.count ≡ i)
  attempt_for i h n = elim (dec_lt i r.next) [
    | yes below ↦ (i + r.count - r.next, omega arith, wraps (omega arith))
    | no above ↦ (i - r.next, omega arith, stays (omega arith))
  ]
    where
      wraps : {n : ℕ} → n ≡ i + r.count → n % r.count ≡ i
      wraps e = rw e (mod_wrap i r.count h)

      stays : {n : ℕ} → n ≡ i → n % r.count ≡ i
      stays e = rw e (mod-eq_of_lt h)

  -- Where a valid, usable ring lends no slot, every one of its slots is taken.
  pub acquire_slot-none :
      (i : ℕ)
      → IsValid r
      → r.stale ≡ false
      → (acquire_slot sync r).1.index ≡ none
      → i < r.count
      → IsTaken sync r i
  unfolding acquire_slot
  acquire_slot-none i v fresh e h =
      let (k, lt, meets) = attempt_for i h (ground (arith, v.next_in)) in
      let open_ring : (r.count == 0 || r.stale) ≡ false = ground arith in
      subst (IsTaken sync r) meets (acquire_from-none 0 r.count k (rw open_ring at e) lt)
