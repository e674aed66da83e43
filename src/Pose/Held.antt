-- ===== src/Pose/Held.antt =====
-- The standby freeze of pose_sanitize.h.
use wivrn_nx_windows.Base.{
  ◌≡◌, ◌∙◌, refl, Bool, true, false, not, ◌&&◌, ◌||◌, if◌then◌else◌, Option, none, some, List, [],
  ◌∷◌, All, arith,
}
use wivrn_nx_windows.Base.Int.{ℤ}
use wivrn_nx_windows.Pose.{
  Floats, Vec3, Quat, TrackedPose, PoseSanitizer, update_tracked_state, origin, identity,
  normalize_orientation, is_sane, held, passed, sanitize,
}
use wivrn_nx_windows.Pose.Finite.{Input, after, answer_after}

module _ {F : Type 0} where
  -- The newest sample that the test takes.
  unfoldable pub latest : (Input F → Bool) → List (Input F) → Option (Input F)
  latest test [] = none
  latest test (i ∷ is) = let rest = latest test is in if test i then some i else rest

  abbrev pub seen : Option (Input F) → Bool
  seen none = false
  seen (some i) = true

  abbrev pub Frozen : Input F → Type 0
  Frozen i = i.freeze ≡ true

module _ {F : Type 0} (f : Floats F) where
  unfoldable pub has_position : Input F → Bool
  has_position i = is_sane f i.pose && i.pose.flags.position_valid

  unfoldable pub tracks_position : Input F → Bool
  unfolding has_position
  tracks_position i = has_position i && i.pose.flags.position_tracked

  unfoldable pub has_orientation : Input F → Bool
  has_orientation i = is_sane f i.pose && i.pose.flags.orientation_valid

  unfoldable pub tracks_orientation : Input F → Bool
  unfolding has_orientation
  tracks_orientation i = has_orientation i && i.pose.flags.orientation_tracked

  abbrev pub position_of : Option (Input F) → Option (Input F) → Vec3 F
  position_of tracking valid = elim tracking [
    | some i ↦ i.pose.position
    | none ↦ elim valid [ some i ↦ i.pose.position | none ↦ origin f ]
  ]

  abbrev pub orientation_of : Option (Input F) → Option (Input F) → Quat F
  orientation_of tracking valid = elim tracking [
    | some i ↦ normalize_orientation f i.pose.orientation
    | none ↦ elim valid [ some i ↦ normalize_orientation f i.pose.orientation | none ↦ identity f ]
  ]

  -- The newest tracked position, if there ever was one, or else the newest valid one.
  unfoldable pub expected_position : List (Input F) → Vec3 F
  unfolding latest has_position tracks_position
  expected_position is = position_of (latest tracks_position is) (latest has_position is)

  unfoldable pub expected_orientation : List (Input F) → Quat F
  unfolding latest has_orientation tracks_orientation
  expected_orientation is =
      orientation_of (latest tracks_orientation is) (latest has_orientation is)

  passed-position :
      (s : PoseSanitizer F) (p : TrackedPose F) (timestamp : ℤ) (freeze : Bool)
      → freeze ≡ true
      → let s1 = (passed f s p timestamp freeze).0 in
        let ever = s.position_state.ever_tracked in
        let valid = p.flags.position_valid in
        (s1.position_state.ever_tracked ≡ ((valid && p.flags.position_tracked) || ever))
        × (s1.last_position ≡ (
            if valid && (p.flags.position_tracked || not ever)
            then p.position
            else s.last_position))
        × (s1.have_position
            ≡ ((valid && (p.flags.position_tracked || not ever)) || s.have_position))
  unfolding passed update_tracked_state
  passed-position s p timestamp freeze on = ground arith

  passed-orientation :
      (s : PoseSanitizer F) (p : TrackedPose F) (timestamp : ℤ) (freeze : Bool)
      → freeze ≡ true
      → let s1 = (passed f s p timestamp freeze).0 in
        let ever = s.orientation_state.ever_tracked in
        let valid = p.flags.orientation_valid in
        (s1.orientation_state.ever_tracked ≡ ((valid && p.flags.orientation_tracked) || ever))
        × (s1.last_orientation ≡ (
            if valid && (p.flags.orientation_tracked || not ever)
            then normalize_orientation f p.orientation
            else s.last_orientation))
        × (s1.have_orientation
            ≡ ((valid && (p.flags.orientation_tracked || not ever)) || s.have_orientation))
  unfolding passed update_tracked_state
  passed-orientation s p timestamp freeze on = ground arith

  abbrev HoldsPosition : PoseSanitizer F → Option (Input F) → Option (Input F) → Type 0
  HoldsPosition s e l =
      (s.position_state.ever_tracked ≡ seen e)
      × (s.last_position ≡ position_of e l)
      × (s.have_position ≡ seen l)
      × (seen e ≡ true → seen l ≡ true)

  sanitize-HoldsPosition :
      (s : PoseSanitizer F) (i : Input F) (e l : Option (Input F))
      → Frozen i
      → HoldsPosition s e l
      → HoldsPosition
          (sanitize f s i.pose i.timestamp i.freeze).0
          (if tracks_position i then some i else e)
          (if has_position i then some i else l)
  unfolding sanitize has_position tracks_position
  sanitize-HoldsPosition s i e l on h =
      ground (arith, passed-position s i.pose i.timestamp i.freeze on)

  abbrev HoldsOrientation : PoseSanitizer F → Option (Input F) → Option (Input F) → Type 0
  HoldsOrientation s e l =
      (s.orientation_state.ever_tracked ≡ seen e)
      × (s.last_orientation ≡ orientation_of e l)
      × (s.have_orientation ≡ seen l)
      × (seen e ≡ true → seen l ≡ true)

  sanitize-HoldsOrientation :
      (s : PoseSanitizer F) (i : Input F) (e l : Option (Input F))
      → Frozen i
      → HoldsOrientation s e l
      → HoldsOrientation
          (sanitize f s i.pose i.timestamp i.freeze).0
          (if tracks_orientation i then some i else e)
          (if has_orientation i then some i else l)
  unfolding sanitize has_orientation tracks_orientation
  sanitize-HoldsOrientation s i e l on h =
      ground (arith, passed-orientation s i.pose i.timestamp i.freeze on)

  after-Holds :
      (is : List (Input F))
      → All Frozen is
      → HoldsPosition (after f is) (latest tracks_position is) (latest has_position is)
        × HoldsOrientation (after f is) (latest tracks_orientation is) (latest has_orientation is)
  unfolding after latest
  after-Holds [] frozen = ((refl, refl, refl, λ h. h), (refl, refl, refl, λ h. h))
  after-Holds (i ∷ is) (frozen, rest) =
      let (position, orientation) = after-Holds is rest in
      (
        sanitize-HoldsPosition (after f is) i (latest tracks_position is) (latest has_position is)
            frozen position,
        sanitize-HoldsOrientation (after f is) i (latest tracks_orientation is)
            (latest has_orientation is) frozen orientation,
      )

  -- What is reported is what the state holds.
  sanitize-held :
      (s : PoseSanitizer F) (p : TrackedPose F) (timestamp : ℤ) (freeze : Bool)
      → let (s', r) = sanitize f s p timestamp freeze in
        (r.position ≡ s'.last_position)
        × (r.orientation ≡ s'.last_orientation)
        × (r.usable ≡ (s'.have_orientation && s'.have_position))
  unfolding sanitize passed held
  sanitize-held s p timestamp freeze = ground arith

  -- With the freeze on in all samples, the position that is reported is that of the newest sane
  -- sample that tracks it, if there was one, or else of the newest sane one in which it is valid,
  -- or else zero; so is the orientation, normalised, or else the identity. The pose is usable once
  -- sane samples brought both.
  pub answer_after-expected :
      (is : List (Input F)) (i : Input F)
      → All Frozen (i ∷ is)
      → let r = answer_after f is i in
        (r.position ≡ expected_position (i ∷ is))
        × (r.orientation ≡ expected_orientation (i ∷ is))
        × (r.usable
            ≡ (seen (latest has_orientation (i ∷ is)) && seen (latest has_position (i ∷ is))))
  unfolding answer_after expected_position expected_orientation after
  answer_after-expected is i frozen =
      let (position, orientation) = after-Holds (i ∷ is) frozen in
      let (p, o, u) = sanitize-held (after f is) i.pose i.timestamp i.freeze in
      (p ∙ position.1, o ∙ orientation.1, rw (← orientation.2, ← position.2) u)
