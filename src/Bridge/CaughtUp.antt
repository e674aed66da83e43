-- ===== src/Bridge/CaughtUp.antt =====
-- A collection of bridge.cpp leaves nothing to collect, and the shim up to date.
use wivrn_nx_windows.Base.{
  ℕ, zero, suc, ◌+◌, ◌≤◌, ◌<◌, ◌≡◌, refl, ◌⊎◌, inl, inr, true, List, arith, ◌==◌, Bool-cases, subst,
}
use wivrn_nx_windows.Bridge.{
  Outgoing, Cursor, Bridge, for_devices, device_count, collect_config, collect_presence,
  collect_pose, collect_input, collect,
}

-- A loop over the devices does to each device what its body does, if no round undoes it.
for_devices_reach :
    {A : Type 0} (body : ℕ → A → A) (Q : ℕ → A → Type 0)
    → ((k j : ℕ) (a : A) → Q j a → Q j (body k a))
    → ((k : ℕ) (a : A) → Q k (body k a))
    → (first n : ℕ) (a : A) (j : ℕ) → ((first ≤ j) × (j < first + n)) ⊎ Q j a
    → Q j (for_devices first n body a)
unfolding for_devices
for_devices_reach body Q keeps reaches first zero a j (inl h) = absurd (omega (arith, h.0, h.1))
for_devices_reach body Q keeps reaches first zero a j (inr q) = q
for_devices_reach body Q keeps reaches first (suc n) a j (inr q) =
    for_devices_reach body Q keeps reaches (first + 1) n (body first a) j (inr (keeps first j a q))
for_devices_reach body Q keeps reaches first (suc n) a j (inl h) = elim (Bool-cases (j == first)) [
  | inl e ↦
      let same : first ≡ j = ground (arith, e) in
      for_devices_reach body Q keeps reaches (first + 1) n (body first a) j
        (inr (subst (λ i. Q i (body first a)) same (reaches first a)))
  | inr e ↦
      for_devices_reach body Q keeps reaches (first + 1) n (body first a) j
        (inl (ground (arith, e, h.0), omega (arith, h.1)))
]

for_devices_keep :
    {A : Type 0} (body : ℕ → A → A) (Q : A → Type 0)
    → ((k : ℕ) (a : A) → Q a → Q (body k a))
    → (first n : ℕ) (a : A) → Q a
    → Q (for_devices first n body a)
unfolding for_devices
for_devices_keep body Q keeps first zero a q = q
for_devices_keep body Q keeps first (suc n) a q =
    for_devices_keep body Q keeps (first + 1) n (body first a) (keeps first a q)

eq_self : (n : ℕ) → (n == n) ≡ true
eq_self n = ground arith

for_devices_still :
    {A : Type 0} (body : ℕ → A → A) (first n : ℕ) (a : A)
    → ((k : ℕ) → first ≤ k → k < first + n → body k a ≡ a)
    → for_devices first n body a ≡ a
unfolding for_devices
for_devices_still body first zero a h = refl
for_devices_still body first (suc n) a h =
    rw (h first (omega arith) (omega arith))
      (for_devices_still body (first + 1) n a (λ k low high. h k (omega arith) (omega arith)))

module _ {F : Type 0} (b : Bridge F) where
  -- The cursor has seen the configuration, and the device's presence, pose and input.
  abbrev ConfigSeen : ℕ → Cursor × List (Outgoing F) → Type 0
  ConfigSeen j p = p.0.config ≡ b.config_gen

  abbrev PresenceSeen : ℕ → Cursor × List (Outgoing F) → Type 0
  PresenceSeen j p = p.0.presence j ≡ b.presence_gen j

  abbrev PoseSeen : ℕ → Cursor × List (Outgoing F) → Type 0
  PoseSeen j p = p.0.pose j ≡ b.pose_gen j

  abbrev InputSeen : ℕ → Cursor × List (Outgoing F) → Type 0
  InputSeen j p = p.0.input j ≡ b.input_gen j

  collect_presence-keeps :
      (k j : ℕ) (p : Cursor × List (Outgoing F))
      → (ConfigSeen j p → ConfigSeen j (collect_presence b k p))
        × (PresenceSeen j p → PresenceSeen j (collect_presence b k p))
        × (PoseSeen j p → PoseSeen j (collect_presence b k p))
        × (InputSeen j p → InputSeen j (collect_presence b k p))
  unfolding collect_presence
  collect_presence-keeps k j (c, out) = ground arith

  collect_presence-reaches :
      (k : ℕ) (p : Cursor × List (Outgoing F)) → PresenceSeen k (collect_presence b k p)
  unfolding collect_presence
  collect_presence-reaches k (c, out) = ground arith

  collect_pose-keeps :
      (k j : ℕ) (p : Cursor × List (Outgoing F))
      → (ConfigSeen j p → ConfigSeen j (collect_pose b k p))
        × (PresenceSeen j p → PresenceSeen j (collect_pose b k p))
        × (PoseSeen j p → PoseSeen j (collect_pose b k p))
        × (InputSeen j p → InputSeen j (collect_pose b k p))
  unfolding collect_pose
  collect_pose-keeps k j (c, out) = ground arith

  collect_pose-reaches : (k : ℕ) (p : Cursor × List (Outgoing F)) → PoseSeen k (collect_pose b k p)
  unfolding collect_pose
  collect_pose-reaches k (c, out) = ground arith

  collect_input-keeps :
      (k j : ℕ) (p : Cursor × List (Outgoing F))
      → (ConfigSeen j p → ConfigSeen j (collect_input b k p))
        × (PresenceSeen j p → PresenceSeen j (collect_input b k p))
        × (PoseSeen j p → PoseSeen j (collect_input b k p))
        × (InputSeen j p → InputSeen j (collect_input b k p))
  unfolding collect_input
  collect_input-keeps k j (c, out) = ground arith

  collect_input-reaches :
      (k : ℕ) (p : Cursor × List (Outgoing F)) → InputSeen k (collect_input b k p)
  unfolding collect_input
  collect_input-reaches k (c, out) = ground arith

  collect_config-reaches : (p : Cursor × List (Outgoing F)) → ConfigSeen 0 (collect_config b p)
  unfolding collect_config
  collect_config-reaches (c, out) = ground arith

  -- The cursor has seen all that is collected.
  abbrev pub IsCaughtUp : Cursor → Type 0
  IsCaughtUp c =
      (c.config ≡ b.config_gen)
      × ((j : ℕ) → 1 ≤ j → j < device_count → c.presence j ≡ b.presence_gen j)
      × ((j : ℕ) → j < device_count → c.pose j ≡ b.pose_gen j)
      × ((j : ℕ) → j < device_count → c.input j ≡ b.input_gen j)

  -- A collection leaves the cursor with nothing more to see.
  pub collect-IsCaughtUp : (c : Cursor) (out : List (Outgoing F)) → IsCaughtUp (collect b c out).0
  unfolding collect
  collect-IsCaughtUp c out =
      let p0 = collect_config b (c, out) in
      let p1 = for_devices 1 2 (collect_presence b) p0 in
      let p2 = for_devices 0 device_count (collect_pose b) p1 in
      (
        for_devices_keep (collect_input b) (ConfigSeen 0) (λ k p. (collect_input-keeps k 0 p).0) 0
            device_count p2
            (for_devices_keep (collect_pose b) (ConfigSeen 0) (λ k p. (collect_pose-keeps k 0 p).0)
              0 device_count p1
              (for_devices_keep (collect_presence b) (ConfigSeen 0)
                (λ k p. (collect_presence-keeps k 0 p).0) 1 2 p0
                (collect_config-reaches (c, out)))),
        λ j low high.
            for_devices_keep (collect_input b) (PresenceSeen j)
              (λ k p. (collect_input-keeps k j p).1) 0 device_count p2
              (for_devices_keep (collect_pose b) (PresenceSeen j)
                (λ k p. (collect_pose-keeps k j p).1) 0 device_count p1
                (for_devices_reach (collect_presence b) PresenceSeen
                  (λ k i p. (collect_presence-keeps k i p).1) collect_presence-reaches 1 2 p0 j
                  (inl (low, omega (arith, high))))),
        λ j high.
            for_devices_keep (collect_input b) (PoseSeen j) (λ k p. (collect_input-keeps k j p).2) 0
              device_count p2
              (for_devices_reach (collect_pose b) PoseSeen (λ k i p. (collect_pose-keeps k i p).2)
                collect_pose-reaches 0 device_count p1 j (inl (omega arith, omega (arith, high)))),
        λ j high.
            for_devices_reach (collect_input b) InputSeen (λ k i p. (collect_input-keeps k i p).3)
              collect_input-reaches 0 device_count p2 j (inl (omega arith, omega (arith, high))),
      )

  collect_config_still :
      (c : Cursor) (out : List (Outgoing F))
      → c.config ≡ b.config_gen
      → collect_config b (c, out) ≡ (c, out)
  unfolding collect_config
  collect_config_still c out e = simp (e, eq_self b.config_gen) refl

  collect_presence_still :
      (k : ℕ) (c : Cursor) (out : List (Outgoing F))
      → c.presence k ≡ b.presence_gen k
      → collect_presence b k (c, out) ≡ (c, out)
  unfolding collect_presence
  collect_presence_still k c out e = simp (e, eq_self (b.presence_gen k)) refl

  collect_pose_still :
      (k : ℕ) (c : Cursor) (out : List (Outgoing F))
      → c.pose k ≡ b.pose_gen k
      → collect_pose b k (c, out) ≡ (c, out)
  unfolding collect_pose
  collect_pose_still k c out e = simp (e, eq_self (b.pose_gen k)) refl

  collect_input_still :
      (k : ℕ) (c : Cursor) (out : List (Outgoing F))
      → c.input k ≡ b.input_gen k
      → collect_input b k (c, out) ≡ (c, out)
  unfolding collect_input
  collect_input_still k c out e = simp (e, eq_self (b.input_gen k)) refl

  -- A collection for a shim that has seen all sends nothing and leaves its cursor as it is.
  pub collect_nothing :
      (c : Cursor) (out : List (Outgoing F)) → IsCaughtUp c → collect b c out ≡ (c, out)
  unfolding collect
  collect_nothing c out (config, presence, pose, input) =
      rw
        (
          collect_config_still c out config,
          for_devices_still (collect_presence b) 1 2 (c, out)
              (λ k low high. collect_presence_still k c out (presence k low (omega arith))),
          for_devices_still (collect_pose b) 0 device_count (c, out)
              (λ k low high. collect_pose_still k c out (pose k (omega arith))),
          for_devices_still (collect_input b) 0 device_count (c, out)
              (λ k low high. collect_input_still k c out (input k (omega arith))),
        )
        refl
