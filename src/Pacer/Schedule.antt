-- ===== src/Pacer/Schedule.antt =====
-- The deadlines of one frame in shard_pacer.h.
use wivrn_nx_windows.Base.{
  ℕ, ◌+◌, ◌-◌, ◌*◌, ◌/◌, ◌^◌, ◌≤◌, ◌<◌, min, ◌≡◌, ap, ◌∙◌, inl, inr, true, false, arith, Bool-cases,
}
use wivrn_nx_windows.Pacer.{ShardPacer, group_bytes, active, window_ns, deadline, group_deadline}
use native.Mathlib.Nat.{mod-eq_of_lt}

-- The product of `deadline` fits its 64 bits at every offset of the frame.
abbrev pub NoWrap : ShardPacer → Type 0
NoWrap p = p.budget * p.total < 2 ^ 64

-- What a shard of `offset` bytes waits for, in exact arithmetic.
abbrev exact : ShardPacer → ℕ → ℕ
exact p offset = p.budget * offset / p.total

exact_mono : (p : ShardPacer) (i j : ℕ) → i ≤ j → exact p i ≤ exact p j
exact_mono p i j h = grind arith

exact-le : (p : ShardPacer) (i : ℕ) → i ≤ p.total → 0 < p.total → exact p i ≤ p.budget
exact-le p i h pos = grind arith

product_fits : (p : ShardPacer) (i : ℕ) → NoWrap p → i ≤ p.total → p.budget * i < 2 ^ 64
product_fits p i nw h = grind arith

deadline-active :
    (p : ShardPacer) (i : ℕ)
    → NoWrap p
    → active p ≡ true
    → i < p.total
    → deadline p i ≡ p.start + exact p i
unfolding deadline
deadline-active p i nw a h =
    ground (arith, product_fits p i nw, mod-eq_of_lt (product_fits p i nw (omega arith)))

deadline-end :
    (p : ShardPacer) (i : ℕ) → active p ≡ true → p.total ≤ i → deadline p i ≡ p.start + p.budget
unfolding deadline
deadline-end p i a h = ground arith

deadline-inactive : (p : ShardPacer) (i : ℕ) → active p ≡ false → deadline p i ≡ p.start
unfolding deadline
deadline-inactive p i a = ground arith

total_pos : (p : ShardPacer) → active p ≡ true → 0 < p.total
unfolding active
total_pos p a = ground arith

-- Where the product does not wrap, the deadlines begin at the start, never lie before it or past
-- the window (the budget of an active pacer, nothing for an inactive one), and never fall as the
-- offset grows.
pub deadline_in_window :
    (p : ShardPacer) (i j : ℕ)
    → NoWrap p
    → i ≤ j
    → (deadline p 0 ≡ p.start)
      × (p.start ≤ deadline p i)
      × (deadline p i ≤ deadline p j)
      × (deadline p j ≤ p.start + window_ns p)
unfolding window_ns
deadline_in_window p i j nw h = elim (Bool-cases (active p)) [
  | inr off ↦
      ground
        (arith, deadline-inactive p 0 off, deadline-inactive p i off, deadline-inactive p j off)
  | inl on ↦ ground (
    arith,
    total_pos p on,
    deadline-active p 0 nw on,
    deadline-active p i nw on,
    deadline-active p j nw on,
    deadline-end p i on,
    deadline-end p j on,
    exact_mono p i j h,
    exact-le p i,
    exact-le p j,
  )
]

-- Where the product does not wrap, an active pacer releases the byte at an offset inside the frame on
-- the straight line from the start to the end of the budget, rounded down to a nanosecond.
pub deadline_on_line :
    (p : ShardPacer) (i : ℕ)
    → NoWrap p
    → active p ≡ true
    → i < p.total
    → ((deadline p i - p.start) * p.total ≤ p.budget * i)
      × (p.budget * i < (deadline p i - p.start + 1) * p.total)
deadline_on_line p i nw on h = rw (deadline-active p i nw on h) (grind arith, grind arith)

-- Where the product does not wrap, the bursts of a frame come due in their order, the first of them
-- at once and the last within the window.
pub group_deadline_mono :
    (p : ShardPacer) (i j : ℕ)
    → NoWrap p
    → i ≤ j
    → (group_deadline p 0 ≡ p.start)
      × (group_deadline p i ≤ group_deadline p j)
      × (group_deadline p j ≤ p.start + window_ns p)
unfolding group_deadline
group_deadline_mono p i j nw h =
    let bounds =
      deadline_in_window p (min (i * group_bytes) p.total) (min (j * group_bytes) p.total) nw
        (omega arith) in
    let first : min (0 * group_bytes) p.total ≡ 0 = omega arith in
    (ap (deadline p) first ∙ bounds.0, bounds.2, bounds.3)
