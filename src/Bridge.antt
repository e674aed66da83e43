-- ===== src/Bridge.antt =====
-- helper/src/bridge.h and bridge.cpp: the latest values of the session, for the pipe to the shim.
--
-- Each operation holds the lock for its whole body, so it is one step on the state. An array over
-- the devices is a function of the device's number, a message is its type with its payload, and a
-- `float` or `double` is a value of a type `F`. Generations and counters do not wrap.
pub mod View
pub mod Calls
pub mod Synced
pub mod CaughtUp
pub mod Sessions
pub mod Haptics
pub mod First
mod Tests
use wivrn_nx_windows.Base.{
  ℕ, zero, suc, ◌+◌, Bool, true, false, not, ltb, leb, ◌==◌, xor_bool, if◌then◌else◌, Option, none,
  some, List, [], ◌∷◌, ◌++◌, length,
}

abbrev pub device_count : ℕ
device_count = 3

abbrev pub max_haptics : ℕ
max_haptics = 10

pub record HmdConfig (F : Type 0) : Type 0 where
  pub eye_width : ℕ
  pub eye_height : ℕ
  pub refresh_hz : F
  pub ipd_m : F
  pub proj_left : List F
  pub proj_right : List F
  pub proj_top : List F
  pub proj_bottom : List F
  pub eye_to_head_q : List (List F)
  pub eye_to_head_p : List (List F)

pub record PoseUpdate (F : Type 0) : Type 0 where
  pub time_qpc : ℕ
  pub device : ℕ
  pub connected : ℕ
  pub q : List F
  pub p : List F
  pub v : List F
  pub w : List F

pub record InputUpdate (F : Type 0) : Type 0 where
  pub time_qpc : ℕ
  pub device : ℕ
  pub pressed : ℕ
  pub touched : ℕ
  pub trigger : F
  pub grip : F
  pub thumbstick_x : F
  pub thumbstick_y : F

pub record Haptic (F : Type 0) : Type 0 where
  pub device : ℕ
  pub duration_s : F
  pub frequency_hz : F
  pub amplitude : F

pub data Outgoing (F : Type 0) : Type 0 where
  hmd_config : HmdConfig F → Outgoing F
  device_add : ℕ → Outgoing F
  device_remove : ℕ → Outgoing F
  pose_update : PoseUpdate F → Outgoing F
  input_update : InputUpdate F → Outgoing F

pub record Cursor : Type 0 where
  pub config : ℕ
  pub pose : ℕ → ℕ
  pub input : ℕ → ℕ
  pub presence : ℕ → ℕ

pub record Bridge (F : Type 0) : Type 0 where
  pub config : HmdConfig F
  pub config_gen : ℕ
  pub pose : ℕ → PoseUpdate F
  pub pose_gen : ℕ → ℕ
  pub input : ℕ → InputUpdate F
  pub input_gen : ℕ → ℕ
  pub present : ℕ → Bool
  pub presence_gen : ℕ → ℕ
  pub haptics : List (Haptic F)
  pub poses_received : ℕ

-- `f` with `x` at `i`.
abbrev pub put : {A : Type 0} → (ℕ → A) → ℕ → A → ℕ → A
put f i x j = if j == i then x else f j

-- `for (i = first; i < first + n; ++i)`
pub for_devices : {A : Type 0} → ℕ → ℕ → (ℕ → A → A) → A → A
for_devices first zero body a = a
for_devices first (suc n) body a = for_devices (first + 1) n body (body first a)

-- The cursor of a shim that just connected.
abbrev pub fresh : Cursor
fresh = record { config = 0; pose = λ i. 0; input = λ i. 0; presence = λ i. 0 }

module _ {F : Type 0} where
  -- `nought` and `unit` are the floats 0 and 1.
  abbrev pub first_pose : F → F → ℕ → PoseUpdate F
  first_pose nought unit i = record {
    time_qpc = 0;
    device = i;
    connected = 0;
    q = unit ∷ nought ∷ nought ∷ nought ∷ [];
    p = nought ∷ nought ∷ nought ∷ [];
    v = nought ∷ nought ∷ nought ∷ [];
    w = nought ∷ nought ∷ nought ∷ [];
  }

  abbrev pub first_input : F → ℕ → InputUpdate F
  first_input nought i = record {
    time_qpc = 0;
    device = i;
    pressed = 0;
    touched = 0;
    trigger = nought;
    grip = nought;
    thumbstick_x = nought;
    thumbstick_y = nought;
  }

  abbrev pub make : F → F → HmdConfig F → Bridge F
  make nought unit initial_config = record {
    config = initial_config;
    config_gen = 1;
    pose = first_pose nought unit;
    pose_gen = λ i. 0;
    input = first_input nought;
    input_gen = λ i. 0;
    present = λ i. false;
    presence_gen = λ i. 0;
    haptics = [];
    poses_received = 0;
  }

  -- `same` is whether `memcmp` finds the two equal.
  pub set_config : (HmdConfig F → HmdConfig F → Bool) → Bridge F → HmdConfig F → Bridge F
  set_config same b config =
      if same b.config config
      then b
      else record b { config = config; config_gen = b.config_gen + 1 }

  pub set_pose : Bridge F → PoseUpdate F → Bridge F
  set_pose b pose =
      let i = pose.device in
      if not (ltb i device_count) then b else record b {
        pose = put b.pose i pose;
        pose_gen = put b.pose_gen i (b.pose_gen i + 1);
        poses_received = b.poses_received + 1;
      }

  pub set_input : Bridge F → InputUpdate F → Bridge F
  set_input b input =
      let i = input.device in
      if not (ltb i device_count) then b else record b {
        input = put b.input i input;
        input_gen = put b.input_gen i (b.input_gen i + 1);
      }

  pub set_present : Bridge F → ℕ → Bool → Bridge F
  set_present b i present =
      if not (ltb i device_count)
      then b
      else if not (xor_bool (b.present i) present)
      then b
      else record b {
        present = put b.present i present;
        presence_gen = put b.presence_gen i (b.presence_gen i + 1);
      }

  -- The body of the loop of `on_client_gone`.
  pub forget_presence : ℕ → Bridge F → Bridge F
  forget_presence i b =
      if b.present i
      then record b {
        present = put b.present i false;
        presence_gen = put b.presence_gen i (b.presence_gen i + 1);
      }
      else b

  pub forget_pose : ℕ → Bridge F → Bridge F
  forget_pose i b = if (b.pose i).connected == 0 then b else record b {
    pose = put b.pose i (record (b.pose i) { connected = 0 });
    pose_gen = put b.pose_gen i (b.pose_gen i + 1);
  }

  pub forget_device : ℕ → Bridge F → Bridge F
  forget_device i b = forget_pose i (forget_presence i b)

  pub on_client_gone : Bridge F → Bridge F
  on_client_gone b = record (for_devices 0 device_count forget_device b) { haptics = [] }

  pub collect_config : Bridge F → Cursor × List (Outgoing F) → Cursor × List (Outgoing F)
  collect_config b (cursor, out) =
      if cursor.config == b.config_gen
      then (cursor, out)
      else (record cursor { config = b.config_gen }, out ++ (hmd_config b.config ∷ []))

  pub collect_presence : Bridge F → ℕ → Cursor × List (Outgoing F) → Cursor × List (Outgoing F)
  collect_presence b i (cursor, out) =
      if cursor.presence i == b.presence_gen i then (cursor, out) else (
        record cursor { presence = put cursor.presence i (b.presence_gen i) },
        out ++ ((if b.present i then device_add i else device_remove i) ∷ []),
      )

  pub collect_pose : Bridge F → ℕ → Cursor × List (Outgoing F) → Cursor × List (Outgoing F)
  collect_pose b i (cursor, out) = if cursor.pose i == b.pose_gen i then (cursor, out) else (
    record cursor { pose = put cursor.pose i (b.pose_gen i) },
    out ++ (pose_update (b.pose i) ∷ []),
  )

  pub collect_input : Bridge F → ℕ → Cursor × List (Outgoing F) → Cursor × List (Outgoing F)
  collect_input b i (cursor, out) = if cursor.input i == b.input_gen i then (cursor, out) else (
    record cursor { input = put cursor.input i (b.input_gen i) },
    out ++ (input_update (b.input i) ∷ []),
  )

  -- The HMD, device 0, is never announced.
  unfoldable pub collect : Bridge F → Cursor → List (Outgoing F) → Cursor × List (Outgoing F)
  collect b cursor out =
      let announced =
        for_devices 1 (suc (suc zero)) (collect_presence b) (collect_config b (cursor, out)) in
      for_devices 0 device_count (collect_input b)
        (for_devices 0 device_count (collect_pose b) announced)

  pub pop_front : List (Haptic F) → List (Haptic F)
  pop_front [] = []
  pop_front (h ∷ hs) = hs

  pub push_haptic : Bridge F → Haptic F → Bridge F
  push_haptic b haptic =
      let kept = if leb max_haptics (length b.haptics) then pop_front b.haptics else b.haptics in
      record b { haptics = kept ++ (haptic ∷ []) }

  unfoldable pub pop_haptic : Bridge F → Bridge F × Option (Haptic F)
  pop_haptic b = elim b.haptics [ [] ↦ (b, none) | h ∷ hs ↦ (record b { haptics = hs }, some h) ]
