-- ===== src/Pacer/Pauses.antt =====
-- How often shard_pacer.h holds one frame back, and until when.
use wivrn_nx_windows.Base.{
  ℕ, ◌+◌, ◌*◌, ◌/◌, ◌≤◌, ◌<◌, ◌≡◌, refl, ◌⊎◌, inl, inr, false, arith, Bool-cases, List, [], ◌∷◌,
  none, some,
}
use wivrn_nx_windows.Base.Int.{ℤ}
use wivrn_nx_windows.Pacer.{
  ShardPacer, group_bytes, min_sleep_ns, make, active, window_ns, group_count, wait_until,
}
use wivrn_nx_windows.Pacer.Schedule.{NoWrap, deadline_in_window}

-- A pause is never shorter than the shortest worthwhile sleep, and where the product does not wrap
-- it never ends past the frame's window.
pub wait_until_bounds :
    (p : ShardPacer) (sent now at : ℕ)
    → NoWrap p
    → (wait_until p sent now).1 ≡ some at
    → (now + min_sleep_ns ≤ at) × (at ≤ p.start + window_ns p)
unfolding wait_until
wait_until_bounds p sent now at nw e = ground (arith, deadline_in_window p sent sent nw)

-- The sender's calls over one frame: the bytes sent so far and the time, after each shard.
unfoldable pub pauses : ShardPacer → List (ℕ × ℕ) → ℕ
pauses p [] = 0
pauses p ((sent, now) ∷ calls) =
    let rest = pauses (wait_until p sent now).0 calls in
    elim (wait_until p sent now).1 [ none ↦ rest | some at ↦ rest + 1 ]

-- One call moves the next group past the bytes sent, or changes nothing and does not pause.
wait_until_step :
    (p : ShardPacer) (m sent now : ℕ)
    → p.next_group ≡ m * group_bytes
    → (((wait_until p sent now).0 ≡ p) × ((wait_until p sent now).1 ≡ none))
      ⊎ ((m ≤ sent / group_bytes)
          × (sent < p.total)
          × ((wait_until p sent now).0
              ≡ record p { next_group = (sent / group_bytes + 1) * group_bytes }))
unfolding wait_until
wait_until_step p m sent now e = ground arith

pauses_inactive : (p : ShardPacer) (calls : List (ℕ × ℕ)) → active p ≡ false → pauses p calls ≡ 0
unfolding pauses wait_until
pauses_inactive p [] off = refl
pauses_inactive p ((sent, now) ∷ calls) off = ground (arith, pauses_inactive p calls off)

pauses_bound :
    (p : ShardPacer) (m : ℕ) (calls : List (ℕ × ℕ))
    → p.next_group ≡ m * group_bytes
    → (pauses p calls ≡ 0)
      ⊎ (pauses p calls * group_bytes + m * group_bytes < p.total + group_bytes)
unfolding pauses
pauses_bound p m [] e = inl refl
pauses_bound p m ((sent, now) ∷ calls) e = elim (wait_until_step p m sent now e) [
  | inl (same, idle) ↦ ground (arith, pauses_bound p m calls e)
  | inr (le, lt, moved) ↦
      let p' : ShardPacer = record p { next_group = (sent / group_bytes + 1) * group_bytes } in
      ground (arith, pauses_bound p' (sent / group_bytes + 1) calls refl)
]

-- Over one frame, whatever the sizes of its shards and the times of the calls, the sender is held
-- back less often than the frame has groups.
pub pauses-lt-group_count :
    (start : ℕ) (budget : ℤ) (total : ℕ) (calls : List (ℕ × ℕ))
    → pauses (make start budget total) calls < group_count (make start budget total)
unfolding group_count make
pauses-lt-group_count start budget total calls =
    elim (Bool-cases (active (make start budget total))) [
      | inl on ↦ ground (arith, pauses_bound (make start budget total) 1 calls refl)
      | inr off ↦ ground (arith, pauses_inactive (make start budget total) calls off)
    ]

pub wait_until-ne-zero :
    (p : ShardPacer) (sent now at : ℕ) → (wait_until p sent now).1 ≡ some at → 0 < at
unfolding wait_until
wait_until-ne-zero p sent now at e = ground arith

-- An unpaced sender is never held back.
pub wait_until-inactive :
    (p : ShardPacer) (sent now : ℕ) → active p ≡ false → wait_until p sent now ≡ (p, none)
unfolding wait_until
wait_until-inactive p sent now off = ground arith
