-- ===== src/Pose.antt =====
-- helper/src/wivrn/pose_sanitize.h: the guards between the headset's poses and the shim.
--
-- A `float` is a value of a type `F` with the operations that the code uses, and the flags of a pose
-- are Booleans, one for each bit that is read. The counters are 64-bit and do not wrap.
pub mod Finite
pub mod Held
mod Tests
use wivrn_nx_windows.Base.{ℕ, ◌+◌, ◌-◌, ◌^◌, Bool, true, false, not, ◌&&◌, ◌||◌, if◌then◌else◌}
use wivrn_nx_windows.Base.Int.{ℤ, negsuc, ltb_ℤ}

-- `decimal n k` is the literal n / 10 ^ k.
pub record Floats (F : Type 0) : Type 0 where
  pub decimal : ℕ → ℕ → F
  pub is_finite : F → Bool
  pub add : F → F → F
  pub mul : F → F → F
  pub div : F → F → F
  pub sqrt : F → F
  pub lt : F → F → Bool

pub record Vec3 (F : Type 0) : Type 0 where
  pub x : F
  pub y : F
  pub z : F

pub record Quat (F : Type 0) : Type 0 where
  pub x : F
  pub y : F
  pub z : F
  pub w : F

pub record PoseFlags : Type 0 where
  pub orientation_valid : Bool
  pub position_valid : Bool
  pub linear_velocity_valid : Bool
  pub angular_velocity_valid : Bool
  pub orientation_tracked : Bool
  pub position_tracked : Bool

-- A pose of a tracking packet.
pub record TrackedPose (F : Type 0) : Type 0 where
  pub flags : PoseFlags
  pub orientation : Quat F
  pub position : Vec3 F
  pub linear_velocity : Vec3 F
  pub angular_velocity : Vec3 F

-- `std::numeric_limits<int64_t>::lowest()`
abbrev pub lowest : ℤ
lowest = negsuc (2 ^ 63 - 1)

pub record TrackedState : Type 0 where
  pub ever_tracked : Bool
  pub currently_tracked : Bool
  pub production_timestamp : ℤ

abbrev pub untracked : TrackedState
untracked = record {
  ever_tracked = false;
  currently_tracked = false;
  production_timestamp = lowest;
}

pub record Result (F : Type 0) : Type 0 where
  pub orientation : Quat F
  pub position : Vec3 F
  pub linear_velocity : Vec3 F
  pub angular_velocity : Vec3 F
  pub usable : Bool
  pub clean : Bool

pub record PoseSanitizer (F : Type 0) : Type 0 where
  pub position_state : TrackedState
  pub orientation_state : TrackedState
  pub last_orientation : Quat F
  pub last_position : Vec3 F
  pub have_orientation : Bool
  pub have_position : Bool
  pub rejected : ℕ
  pub frozen : ℕ

-- The state after a sample, and whether the sample is passed.
unfoldable pub update_tracked_state : TrackedState → ℤ → Bool → Bool → Bool → TrackedState × Bool
update_tracked_state s timestamp valid tracked freeze =
    let up_to_date = not (ltb_ℤ timestamp s.production_timestamp) in
    let ever = record s { ever_tracked = true } in
    let follows =
      if up_to_date
      then record ever { currently_tracked = true; production_timestamp = timestamp }
      else ever in
    let lost =
      if up_to_date
      then record s { currently_tracked = false; production_timestamp = timestamp }
      else s in
    if not valid
    then (s, true)
    else if tracked
    then (follows, true)
    else (lost, not freeze || not lost.ever_tracked)

module _ {F : Type 0} (f : Floats F) where
  abbrev pub origin : Vec3 F
  origin = record { x = f.decimal 0 0; y = f.decimal 0 0; z = f.decimal 0 0 }

  abbrev pub identity : Quat F
  identity = record { x = f.decimal 0 0; y = f.decimal 0 0; z = f.decimal 0 0; w = f.decimal 1 0 }

  abbrev pub reset : PoseSanitizer F
  reset = record {
    position_state = untracked;
    orientation_state = untracked;
    last_orientation = identity;
    last_position = origin;
    have_orientation = false;
    have_position = false;
    rejected = 0;
    frozen = 0;
  }

  unfoldable pub is_finite_vec : Vec3 F → Bool
  is_finite_vec v = f.is_finite v.x && f.is_finite v.y && f.is_finite v.z

  unfoldable pub norm2 : Quat F → F
  norm2 q = f.add (f.add (f.add (f.mul q.x q.x) (f.mul q.y q.y)) (f.mul q.z q.z)) (f.mul q.w q.w)

  unfoldable pub is_valid_orientation : Quat F → Bool
  unfolding norm2
  is_valid_orientation q =
      f.is_finite q.x
      && f.is_finite q.y
      && f.is_finite q.z
      && f.is_finite q.w
      && (f.is_finite (norm2 q)
          && f.lt (f.decimal 1 1) (norm2 q)
          && f.lt (norm2 q) (f.decimal 10 0))

  unfoldable pub normalize_orientation : Quat F → Quat F
  unfolding norm2
  normalize_orientation q =
      let inv = f.div (f.decimal 1 0) (f.sqrt (norm2 q)) in
      record { x = f.mul q.x inv; y = f.mul q.y inv; z = f.mul q.z inv; w = f.mul q.w inv }

  unfoldable pub is_sane : TrackedPose F → Bool
  unfolding is_finite_vec is_valid_orientation
  is_sane p =
      (not p.flags.orientation_valid || is_valid_orientation p.orientation)
      && (not p.flags.position_valid || is_finite_vec p.position)
      && (not p.flags.linear_velocity_valid || is_finite_vec p.linear_velocity)
      && (not p.flags.angular_velocity_valid || is_finite_vec p.angular_velocity)

  -- What is known of the pose, standing still.
  unfoldable pub held : PoseSanitizer F → Bool → Result F
  held s clean = record {
    orientation = s.last_orientation;
    position = s.last_position;
    linear_velocity = origin;
    angular_velocity = origin;
    usable = s.have_orientation && s.have_position;
    clean = clean;
  }

  -- A sane sample.
  unfoldable pub passed : PoseSanitizer F → TrackedPose F → ℤ → Bool → PoseSanitizer F × Result F
  unfolding update_tracked_state normalize_orientation held
  passed s p timestamp freeze =
      let fl = p.flags in
      let (o, take_orientation) =
        update_tracked_state s.orientation_state timestamp fl.orientation_valid
          fl.orientation_tracked freeze in
      let (q, take_position) =
        update_tracked_state s.position_state timestamp fl.position_valid fl.position_tracked
          freeze in
      let turned = fl.orientation_valid && take_orientation in
      let placed = fl.position_valid && take_position in
      let frozen_any =
        (fl.orientation_valid && not take_orientation)
        || (fl.position_valid && not take_position) in
      let s1 = record s {
        orientation_state = o;
        position_state = q;
        last_orientation =
            if turned then normalize_orientation p.orientation else s.last_orientation;
        have_orientation = turned || s.have_orientation;
        last_position = if placed then p.position else s.last_position;
        have_position = placed || s.have_position;
        frozen = if frozen_any then s.frozen + 1 else s.frozen;
      } in
      let moving = not frozen_any && take_orientation && take_position in
      let clean = not frozen_any && fl.orientation_valid && fl.position_valid in
      (
        s1,
        record (held s1 clean) {
          linear_velocity =
              if moving && fl.linear_velocity_valid then p.linear_velocity else origin;
          angular_velocity =
              if moving && fl.angular_velocity_valid then p.angular_velocity else origin;
        },
      )

  unfoldable pub sanitize : PoseSanitizer F → TrackedPose F → ℤ → Bool → PoseSanitizer F × Result F
  unfolding is_sane held passed
  sanitize s p timestamp freeze =
      let rejecting = record s { rejected = s.rejected + 1 } in
      if not (is_sane p) then (rejecting, held rejecting false) else passed s p timestamp freeze
