-- ===== src/Bridge/First.antt =====
-- What a collection of bridge.cpp for a new connection begins with.
use wivrn_nx_windows.Base.{
  ℕ, zero, suc, ◌+◌, ◌≡◌, ◌≢◌, ap, Bool, true, false, ◌==◌, if◌then◌else◌, List, [], ◌∷◌, ◌++◌,
  arith,
}
use wivrn_nx_windows.Bridge.{
  Outgoing, hmd_config, device_add, device_remove, pose_update, input_update, Cursor, Bridge, put,
  fresh, for_devices, collect_config, collect_presence, collect_pose, collect_input, collect,
  device_count,
}

-- The list begins with `a`.
unfoldable pub Starts : {A : Type 0} → A → List A → Type 0
Starts a [] = ⊥
Starts a (x ∷ xs) = x ≡ a

Starts-snoc : {A : Type 0} (a b : A) (xs : List A) → Starts a xs → Starts a (xs ++ (b ∷ []))
unfolding Starts
Starts-snoc a b [] h = elim h [ ]
Starts-snoc a b (x ∷ xs) h = h

pub Starts-cons : {A : Type 0} (a : A) (xs : List A) → Starts a xs → (ys : List A) × (xs ≡ a ∷ ys)
unfolding Starts
Starts-cons a [] h = elim h [ ]
Starts-cons a (x ∷ xs) h = (xs, ap (λ y. y ∷ xs) h)

module _ {F : Type 0} where
  for_devices-Starts :
      (m : Outgoing F) (first n : ℕ)
      (f : ℕ → Cursor × List (Outgoing F) → Cursor × List (Outgoing F))
      → ((i : ℕ) (p : Cursor × List (Outgoing F)) → Starts m p.1 → Starts m (f i p).1)
      → (p : Cursor × List (Outgoing F)) → Starts m p.1
      → Starts m (for_devices first n f p).1
  unfolding for_devices
  for_devices-Starts m first zero f keeps p h = h
  for_devices-Starts m first (suc n) f keeps p h =
      for_devices-Starts m (first + 1) n f keeps (f first p) (keeps first p h)

  -- A message behind the others, or none, leaves the first.
  added-Starts :
      (m : Outgoing F) (test : Bool) (p q : Cursor × List (Outgoing F))
      → Starts m p.1
      → Starts m q.1
      → Starts m (if test then p else q).1
  added-Starts m true p q h k = h
  added-Starts m false p q h k = k

  collect_presence-Starts :
      (b : Bridge F) (m : Outgoing F) (i : ℕ) (p : Cursor × List (Outgoing F))
      → Starts m p.1
      → Starts m (collect_presence b i p).1
  unfolding collect_presence
  collect_presence-Starts b m i (cursor, out) h =
      added-Starts m (cursor.presence i == b.presence_gen i) (cursor, out)
        (
          record cursor { presence = put cursor.presence i (b.presence_gen i) },
          out ++ ((if b.present i then device_add i else device_remove i) ∷ []),
        )
        h (Starts-snoc m ((if b.present i then device_add i else device_remove i)) out h)

  collect_pose-Starts :
      (b : Bridge F) (m : Outgoing F) (i : ℕ) (p : Cursor × List (Outgoing F))
      → Starts m p.1
      → Starts m (collect_pose b i p).1
  unfolding collect_pose
  collect_pose-Starts b m i (cursor, out) h =
      added-Starts m (cursor.pose i == b.pose_gen i) (cursor, out)
        (
          record cursor { pose = put cursor.pose i (b.pose_gen i) },
          out ++ (pose_update (b.pose i) ∷ []),
        )
        h (Starts-snoc m (pose_update (b.pose i)) out h)

  collect_input-Starts :
      (b : Bridge F) (m : Outgoing F) (i : ℕ) (p : Cursor × List (Outgoing F))
      → Starts m p.1
      → Starts m (collect_input b i p).1
  unfolding collect_input
  collect_input-Starts b m i (cursor, out) h =
      added-Starts m (cursor.input i == b.input_gen i) (cursor, out)
        (
          record cursor { input = put cursor.input i (b.input_gen i) },
          out ++ (input_update (b.input i) ∷ []),
        )
        h (Starts-snoc m (input_update (b.input i)) out h)

  collect_config-Starts :
      (b : Bridge F)
      → b.config_gen ≢ 0
      → Starts (hmd_config b.config) (collect_config b (fresh, [])).1
  unfolding collect_config Starts
  collect_config-Starts b h = ground arith

  -- The first message of a new connection is the configuration, once there was one.
  pub collect-Starts :
      (b : Bridge F) → b.config_gen ≢ 0 → Starts (hmd_config b.config) (collect b fresh []).1
  unfolding collect
  collect-Starts b h =
      let m = hmd_config b.config in
      let announced =
        for_devices 1 (suc (suc zero)) (collect_presence b) (collect_config b (fresh, [])) in
      let posed = for_devices 0 device_count (collect_pose b) announced in
      for_devices-Starts m 0 device_count (collect_input b) (collect_input-Starts b m) posed (
        for_devices-Starts m 0 device_count (collect_pose b) (collect_pose-Starts b m) announced (
          for_devices-Starts m 1 (suc (suc zero)) (collect_presence b) (collect_presence-Starts b m)
            (collect_config b (fresh, [])) (collect_config-Starts b h)))
