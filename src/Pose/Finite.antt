-- ===== src/Pose/Finite.antt =====
-- No NaN of the headset goes past pose_sanitize.h.
use wivrn_nx_windows.Base.{
  ◌+◌, ◌≡◌, refl, inl, inr, Bool, true, false, ◌&&◌, if◌then◌else◌, List, [], ◌∷◌, Bool-cases,
  arith,
}
use wivrn_nx_windows.Base.Int.{ℤ}
use wivrn_nx_windows.Pose.{
  Floats, Vec3, Quat, TrackedPose, PoseSanitizer, Result, origin, reset, is_finite_vec, norm2,
  is_valid_orientation, normalize_orientation, is_sane, held, passed, sanitize,
}

-- A sample, and the setting under which it comes.
pub record Input (F : Type 0) : Type 0 where
  pub pose : TrackedPose F
  pub timestamp : ℤ
  pub freeze : Bool

module _ {F : Type 0} (f : Floats F) where
  -- The state after the samples, the newest of which is the first.
  unfoldable pub after : List (Input F) → PoseSanitizer F
  after [] = reset f
  after (i ∷ is) = (sanitize f (after is) i.pose i.timestamp i.freeze).0

  unfoldable pub answer_after : List (Input F) → Input F → Result F
  unfolding after
  answer_after is i = (sanitize f (after is) i.pose i.timestamp i.freeze).1

  unfoldable pub is_finite_quat : Quat F → Bool
  is_finite_quat q = f.is_finite q.x && f.is_finite q.y && f.is_finite q.z && f.is_finite q.w

  -- Zero and one are finite, and so is a quaternion over its length, if that is no extreme.
  unfoldable pub Finites : Type 0
  Finites =
      (f.is_finite (f.decimal 0 0) ≡ true)
      × (f.is_finite (f.decimal 1 0) ≡ true)
      × ((q : Quat F)
          → f.lt (f.decimal 1 1) (norm2 f q) ≡ true
          → f.lt (norm2 f q) (f.decimal 10 0) ≡ true
          → is_finite_quat (normalize_orientation f q) ≡ true)

  abbrev Sound : PoseSanitizer F → Type 0
  Sound s = (is_finite_quat s.last_orientation ≡ true) × (is_finite_vec f s.last_position ≡ true)

  -- All that is reported is finite.
  unfoldable pub IsFinite : Result F → Type 0
  IsFinite r =
      (is_finite_quat r.orientation ≡ true)
      × (is_finite_vec f r.position ≡ true)
      × (is_finite_vec f r.linear_velocity ≡ true)
      × (is_finite_vec f r.angular_velocity ≡ true)

  origin-is_finite_vec : Finites → is_finite_vec f (origin f) ≡ true
  unfolding Finites is_finite_vec
  origin-is_finite_vec laws = ground arith

  valid_normalized :
      (q : Quat F)
      → Finites
      → is_valid_orientation f q ≡ true
      → is_finite_quat (normalize_orientation f q) ≡ true
  unfolding Finites is_valid_orientation
  valid_normalized q laws h = ground (arith, laws.2 q)

  is_sane_parts :
      (p : TrackedPose F)
      → is_sane f p ≡ true
      → (p.flags.orientation_valid ≡ true → is_valid_orientation f p.orientation ≡ true)
        × (p.flags.position_valid ≡ true → is_finite_vec f p.position ≡ true)
        × (p.flags.linear_velocity_valid ≡ true → is_finite_vec f p.linear_velocity ≡ true)
        × (p.flags.angular_velocity_valid ≡ true → is_finite_vec f p.angular_velocity ≡ true)
  unfolding is_sane
  is_sane_parts p h = ground arith

  -- What is one of two, the first under a test, is finite.
  either_quat :
      (test : Bool) (a b : Quat F)
      → (test ≡ true → is_finite_quat a ≡ true)
      → is_finite_quat b ≡ true
      → is_finite_quat (if test then a else b) ≡ true
  either_quat true a b h k = h refl
  either_quat false a b h k = k

  either_vec :
      (test : Bool) (a b : Vec3 F)
      → (test ≡ true → is_finite_vec f a ≡ true)
      → is_finite_vec f b ≡ true
      → is_finite_vec f (if test then a else b) ≡ true
  either_vec true a b h k = h refl
  either_vec false a b h k = k

  both_left : (a b : Bool) → (a && b) ≡ true → a ≡ true
  both_left a b h = ground arith

  both_right : (a b : Bool) → (a && b) ≡ true → b ≡ true
  both_right a b h = ground arith

  passed-Sound :
      (s : PoseSanitizer F) (p : TrackedPose F) (timestamp : ℤ) (freeze : Bool)
      → Finites
      → is_sane f p ≡ true
      → Sound s
      → Sound (passed f s p timestamp freeze).0 × IsFinite (passed f s p timestamp freeze).1
  unfolding passed held IsFinite
  passed-Sound s p timestamp freeze laws sane h =
      let (ov, pv, lv, av) = is_sane_parts p sane in
      let quat =
        either_quat _ (normalize_orientation f p.orientation) s.last_orientation
          (λ t. valid_normalized p.orientation laws (ov (both_left _ _ t))) h.0 in
      let vec = either_vec _ p.position s.last_position (λ t. pv (both_left _ _ t)) h.1 in
      let zero = origin-is_finite_vec laws in
      (
        (quat, vec),
        (
          quat,
          vec,
          either_vec _ p.linear_velocity (origin f) (λ t. lv (both_right _ _ t)) zero,
          either_vec _ p.angular_velocity (origin f) (λ t. av (both_right _ _ t)) zero,
        ),
      )

  rejected-Sound :
      (s : PoseSanitizer F)
      → Finites
      → Sound s
      → IsFinite (held f (record s { rejected = s.rejected + 1 }) false)
  unfolding held IsFinite
  rejected-Sound s laws h = (h.0, h.1, origin-is_finite_vec laws, origin-is_finite_vec laws)

  sanitize-Sound :
      (s : PoseSanitizer F) (p : TrackedPose F) (timestamp : ℤ) (freeze : Bool)
      → Finites
      → Sound s
      → Sound (sanitize f s p timestamp freeze).0 × IsFinite (sanitize f s p timestamp freeze).1
  unfolding sanitize
  sanitize-Sound s p timestamp freeze laws h = elim (Bool-cases (is_sane f p)) [
    | inl sane ↦ rw sane (passed-Sound s p timestamp freeze laws sane h)
    | inr broken ↦ rw broken (h, rejected-Sound s laws h)
  ]

  after-Sound : (is : List (Input F)) → Finites → Sound (after is)
  unfolding after Finites is_finite_quat
  after-Sound [] laws = ground (arith, origin-is_finite_vec laws)
  after-Sound (i ∷ is) laws =
      (sanitize-Sound (after is) i.pose i.timestamp i.freeze laws (after-Sound is laws)).0

  -- Whatever samples come, every float that is reported is finite. Zero and one are passed to be,
  -- and the components of a quaternion whose squared length is between a tenth and ten, once they
  -- are divided by the length.
  pub answer_after-IsFinite :
      (is : List (Input F)) (i : Input F) → Finites → IsFinite (answer_after is i)
  unfolding answer_after
  answer_after-IsFinite is i laws =
      (sanitize-Sound (after is) i.pose i.timestamp i.freeze laws (after-Sound is laws)).1
