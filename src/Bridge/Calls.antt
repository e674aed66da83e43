-- ===== src/Bridge/Calls.antt =====
-- What the calls of the session do to the shim's view, in bridge.cpp.
use wivrn_nx_windows.Base.{
  ℕ, zero, suc, ◌+◌, inl, inr, Bool, false, List, [], arith, ◌==◌, ltb, xor_bool, Bool-cases,
  List-cases,
}
use wivrn_nx_windows.Bridge.{
  HmdConfig, PoseUpdate, InputUpdate, Haptic, Cursor, Bridge, put, for_devices, device_count,
  set_config, set_pose, set_input, set_present, forget_presence, forget_pose, forget_device,
  on_client_gone, push_haptic, pop_haptic,
}
use wivrn_nx_windows.Bridge.View.{View, Channel, IsSynced}

-- A call of the session or of the synthetic tracker, or of the session for a pulse.
pub data Call (F : Type 0) : Type 0 where
  config : HmdConfig F → Call F
  pose : PoseUpdate F → Call F
  input : InputUpdate F → Call F
  presence : ℕ → Bool → Call F
  gone : Call F
  pulse : Haptic F → Call F
  pulled : Call F

-- A channel whose value is replaced and whose generation moves on.
put_channel :
    {A : Type 0} (cur gen : ℕ → ℕ) (seen now : ℕ → A) (k : ℕ) (x : A) (i : ℕ)
    → ((j : ℕ) → Channel (cur j) (gen j) (seen j) (now j))
    → Channel (cur i) (put gen k (gen k + 1) i) (seen i) (put now k x i)
put_channel cur gen seen now k x i h = ground (arith, h i)

module _ {F : Type 0} where
  set_pose-IsSynced :
      (b : Bridge F) (c : Cursor) (v : View F) (p : PoseUpdate F)
      → IsSynced b c v
      → IsSynced (set_pose b p) c v
  unfolding set_pose
  set_pose-IsSynced b c v p h = elim (Bool-cases (ltb p.device device_count)) [
    | inr e ↦ rw (e, set_pose) h
    | inl e ↦
        rw (e, set_pose)
          (record {
            config = h.config;
            pose = λ i. put_channel c.pose b.pose_gen v.pose b.pose p.device p i h.pose;
            input = h.input;
            presence = h.presence;
            pose_device = λ i. ground (arith, h.pose_device i);
            input_device = h.input_device;
          })
  ]

  set_input-IsSynced :
      (b : Bridge F) (c : Cursor) (v : View F) (p : InputUpdate F)
      → IsSynced b c v
      → IsSynced (set_input b p) c v
  unfolding set_input
  set_input-IsSynced b c v p h = elim (Bool-cases (ltb p.device device_count)) [
    | inr e ↦ rw (e, set_input) h
    | inl e ↦
        rw (e, set_input)
          (record {
            config = h.config;
            pose = h.pose;
            input = λ i. put_channel c.input b.input_gen v.input b.input p.device p i h.input;
            presence = h.presence;
            pose_device = h.pose_device;
            input_device = λ i. ground (arith, h.input_device i);
          })
  ]

  put-presence :
      (b : Bridge F) (c : Cursor) (v : View F) (k : ℕ) (there : Bool)
      → IsSynced b c v
      → IsSynced
          (record b {
            present = put b.present k there;
            presence_gen = put b.presence_gen k (b.presence_gen k + 1);
          })
          c
          v
  put-presence b c v k there h = record {
    config = h.config;
    pose = h.pose;
    input = h.input;
    presence = λ i. put_channel c.presence b.presence_gen v.present b.present k there i h.presence;
    pose_device = h.pose_device;
    input_device = h.input_device;
  }

  set_present-IsSynced :
      (b : Bridge F) (c : Cursor) (v : View F) (k : ℕ) (there : Bool)
      → IsSynced b c v
      → IsSynced (set_present b k there) c v
  unfolding set_present
  set_present-IsSynced b c v k there h = elim (Bool-cases (ltb k device_count)) [
    | inr e ↦ rw (e, set_present) h
    | inl e ↦ elim (Bool-cases (xor_bool (b.present k) there)) [
      | inr e' ↦ rw (e, set_present, e') h
      | inl e' ↦ rw (e, set_present, e') (put-presence b c v k there h)
    ]
  ]

  forget_presence-IsSynced :
      (k : ℕ) (b : Bridge F) (c : Cursor) (v : View F)
      → IsSynced b c v
      → IsSynced (forget_presence k b) c v
  unfolding forget_presence
  forget_presence-IsSynced k b c v h = elim (Bool-cases (b.present k)) [
    | inr e ↦ rw (e, forget_presence) h
    | inl e ↦ rw (e, forget_presence) (put-presence b c v k false h)
  ]

  forget_pose-IsSynced :
      (k : ℕ) (b : Bridge F) (c : Cursor) (v : View F)
      → IsSynced b c v
      → IsSynced (forget_pose k b) c v
  unfolding forget_pose
  forget_pose-IsSynced k b c v h = elim (Bool-cases ((b.pose k).connected == 0)) [
    | inl e ↦ rw (e, forget_pose) h
    | inr e ↦
        let p = record (b.pose k) { connected = 0 } in
        rw (e, forget_pose)
          (record {
            config = h.config;
            pose = λ i. put_channel c.pose b.pose_gen v.pose b.pose k p i h.pose;
            input = h.input;
            presence = h.presence;
            pose_device = λ i. ground (arith, h.pose_device i, h.pose_device k);
            input_device = h.input_device;
          })
  ]

  forget_device-IsSynced :
      (k : ℕ) (b : Bridge F) (c : Cursor) (v : View F)
      → IsSynced b c v
      → IsSynced (forget_device k b) c v
  unfolding forget_device
  forget_device-IsSynced k b c v h =
      forget_pose-IsSynced k (forget_presence k b) c v (forget_presence-IsSynced k b c v h)

  for_devices-IsSynced :
      (i n : ℕ) (b : Bridge F) (c : Cursor) (v : View F)
      → IsSynced b c v
      → IsSynced (for_devices i n forget_device b) c v
  unfolding for_devices
  for_devices-IsSynced i zero b c v h = h
  for_devices-IsSynced i (suc n) b c v h =
      for_devices-IsSynced (i + 1) n (forget_device i b) c v (forget_device-IsSynced i b c v h)

  haptics-IsSynced :
      (b : Bridge F) (c : Cursor) (v : View F) (hs : List (Haptic F))
      → IsSynced b c v
      → IsSynced (record b { haptics = hs }) c v
  haptics-IsSynced b c v hs h = record {
    config = h.config;
    pose = h.pose;
    input = h.input;
    presence = h.presence;
    pose_device = h.pose_device;
    input_device = h.input_device;
  }

  pop_haptic-IsSynced :
      (b : Bridge F) (c : Cursor) (v : View F) → IsSynced b c v → IsSynced (pop_haptic b).0 c v
  unfolding pop_haptic
  pop_haptic-IsSynced b c v h = elim (List-cases b.haptics) [
    | inl e ↦ rw (e, pop_haptic) h
    | inr (x, hs, e) ↦ rw (e, pop_haptic) (haptics-IsSynced b c v hs h)
  ]

  module _ (same : HmdConfig F → HmdConfig F → Bool) where
    unfoldable pub call : Bridge F → Call F → Bridge F
    call b (config c) = set_config same b c
    call b (pose p) = set_pose b p
    call b (input p) = set_input b p
    call b (presence i there) = set_present b i there
    call b gone = on_client_gone b
    call b (pulse h) = push_haptic b h
    call b pulled = (pop_haptic b).0

    set_config-IsSynced :
        (b : Bridge F) (c : Cursor) (v : View F) (k : HmdConfig F)
        → IsSynced b c v
        → IsSynced (set_config same b k) c v
    unfolding set_config
    set_config-IsSynced b c v k h = elim (Bool-cases (same b.config k)) [
      | inl e ↦ rw (e, set_config) h
      | inr e ↦
          rw (e, set_config)
            (record {
              config = (omega (arith, h.config.0), λ e. absurd (omega (arith, e, h.config.0)));
              pose = h.pose;
              input = h.input;
              presence = h.presence;
              pose_device = h.pose_device;
              input_device = h.input_device;
            })
    ]

    -- No call of the session makes the shim's view wrong where its cursor is current.
    pub call-IsSynced :
        (b : Bridge F) (c : Cursor) (v : View F) (k : Call F)
        → IsSynced b c v
        → IsSynced (call b k) c v
    unfolding call on_client_gone push_haptic
    call-IsSynced b c v (config k) h = set_config-IsSynced b c v k h
    call-IsSynced b c v (pose p) h = set_pose-IsSynced b c v p h
    call-IsSynced b c v (input p) h = set_input-IsSynced b c v p h
    call-IsSynced b c v (presence i there) h = set_present-IsSynced b c v i there h
    call-IsSynced b c v gone h =
        haptics-IsSynced (for_devices 0 device_count forget_device b) c v []
          (for_devices-IsSynced 0 device_count b c v h)
    call-IsSynced b c v (pulse p) h = haptics-IsSynced b c v _ h
    call-IsSynced b c v pulled h = pop_haptic-IsSynced b c v h
