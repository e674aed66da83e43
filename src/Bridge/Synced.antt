-- ===== src/Bridge/Synced.antt =====
-- The shim's view follows the latest values of bridge.cpp.
use wivrn_nx_windows.Base.{
  ℕ, zero, suc, ◌+◌, ◌≡◌, refl, sym, inl, inr, true, false, List, arith, ◌==◌, Bool-cases,
}
use wivrn_nx_windows.Bridge.{
  Outgoing, hmd_config, device_add, device_remove, pose_update, input_update, Cursor, Bridge, put,
  for_devices, device_count, collect_config, collect_presence, collect_pose, collect_input, collect,
}
use wivrn_nx_windows.Bridge.View.{View, Channel, receive_all, receive_all-append, IsSynced}

-- A channel that the cursor catches up on, at `k`.
caught_up :
    {A : Type 0} (cur gen : ℕ → ℕ) (seen now : ℕ → A) (k m : ℕ) (x : A) (i : ℕ)
    → m ≡ k
    → x ≡ now k
    → ((j : ℕ) → Channel (cur j) (gen j) (seen j) (now j))
    → Channel (put cur k (gen k) i) (gen i) (put seen m x i) (now i)
caught_up cur gen seen now k m x i same current h = ground (arith, h i)

module _ {F : Type 0} (b : Bridge F) (v : View F) where
  -- A body of the loops of `collect` keeps the view that the messages give in step.
  abbrev Keeps : (Cursor × List (Outgoing F) → Cursor × List (Outgoing F)) → Type 0
  Keeps body =
      (p : Cursor × List (Outgoing F))
      → IsSynced b p.0 (receive_all v p.1)
      → IsSynced b (body p).0 (receive_all v (body p).1)

  collect_config-Keeps : Keeps (collect_config b)
  unfolding collect_config
  collect_config-Keeps (c, out) h = elim (Bool-cases (c.config == b.config_gen)) [
    | inl e ↦ rw e h
    | inr e ↦
        rw (e, receive_all-append v out (hmd_config b.config))
          (record {
            config = (omega arith, λ e. refl);
            pose = h.pose;
            input = h.input;
            presence = h.presence;
            pose_device = h.pose_device;
            input_device = h.input_device;
          })
  ]

  collect_pose-Keeps : (k : ℕ) → Keeps (collect_pose b k)
  unfolding collect_pose
  collect_pose-Keeps k (c, out) h = elim (Bool-cases (c.pose k == b.pose_gen k)) [
    | inl e ↦ rw e h
    | inr e ↦
        let w = receive_all v out in
        rw (e, receive_all-append v out (pose_update (b.pose k)))
          (record {
            config = h.config;
            pose = λ i.
                caught_up c.pose b.pose_gen w.pose b.pose k _ _ i (h.pose_device k) refl h.pose;
            input = h.input;
            presence = h.presence;
            pose_device = h.pose_device;
            input_device = h.input_device;
          })
  ]

  collect_input-Keeps : (k : ℕ) → Keeps (collect_input b k)
  unfolding collect_input
  collect_input-Keeps k (c, out) h = elim (Bool-cases (c.input k == b.input_gen k)) [
    | inl e ↦ rw e h
    | inr e ↦
        let w = receive_all v out in
        rw (e, receive_all-append v out (input_update (b.input k)))
          (record {
            config = h.config;
            pose = h.pose;
            input = λ i.
                caught_up c.input b.input_gen w.input b.input k _ _ i (h.input_device k) refl
                  h.input;
            presence = h.presence;
            pose_device = h.pose_device;
            input_device = h.input_device;
          })
  ]

  collect_presence-Keeps : (k : ℕ) → Keeps (collect_presence b k)
  unfolding collect_presence
  collect_presence-Keeps k (c, out) h = elim (Bool-cases (c.presence k == b.presence_gen k)) [
    | inl e ↦ rw e h
    | inr e ↦
        let w = receive_all v out in
        elim (Bool-cases (b.present k)) [
          | inl t ↦
              rw (e, t, receive_all-append v out (device_add k))
                (record {
                  config = h.config;
                  pose = h.pose;
                  input = h.input;
                  presence = λ i.
                      caught_up c.presence b.presence_gen w.present b.present k k true i refl
                        (sym t) h.presence;
                  pose_device = h.pose_device;
                  input_device = h.input_device;
                })
          | inr t ↦
              rw (e, t, receive_all-append v out (device_remove k))
                (record {
                  config = h.config;
                  pose = h.pose;
                  input = h.input;
                  presence = λ i.
                      caught_up c.presence b.presence_gen w.present b.present k k false i refl
                        (sym t) h.presence;
                  pose_device = h.pose_device;
                  input_device = h.input_device;
                })
        ]
  ]

  for_devices-Keeps :
      (body : ℕ → Cursor × List (Outgoing F) → Cursor × List (Outgoing F)) (i n : ℕ)
      → ((k : ℕ) → Keeps (body k))
      → Keeps (for_devices i n body)
  unfolding for_devices
  for_devices-Keeps body i zero keeps p h = h
  for_devices-Keeps body i (suc n) keeps p h =
      for_devices-Keeps body (i + 1) n keeps (body i p) (keeps i p h)

  pub collect-Keeps :
      (c : Cursor) (out : List (Outgoing F))
      → IsSynced b c (receive_all v out)
      → IsSynced b (collect b c out).0 (receive_all v (collect b c out).1)
  unfolding collect
  collect-Keeps c out h =
      let p0 = collect_config b (c, out) in
      let p1 = for_devices 1 2 (collect_presence b) p0 in
      let p2 = for_devices 0 device_count (collect_pose b) p1 in
      for_devices-Keeps (collect_input b) 0 device_count collect_input-Keeps p2 (
        for_devices-Keeps (collect_pose b) 0 device_count collect_pose-Keeps p1 (
          for_devices-Keeps (collect_presence b) 1 2 collect_presence-Keeps p0
            (collect_config-Keeps (c, out) h)))
