-- ===== src/Pose/Tests.antt =====
-- pose_sanitize.h on floats that are natural numbers, of which 1000 stands for what is not finite.
use wivrn_nx_windows.Base.{
  ℕ, ◌+◌, ◌*◌, ◌/◌, ◌^◌, ◌≡◌, refl, Bool, true, false, ◌&&◌, List, [], ◌∷◌, ltb, if◌then◌else◌,
  arith,
}
use wivrn_nx_windows.Base.Int.{pos}
use wivrn_nx_windows.Pose.{Floats, Vec3, Quat, norm2, normalize_orientation, sanitize}
use wivrn_nx_windows.Pose.Finite.{
  Input, Finites, IsFinite, answer_after, is_finite_quat, answer_after-IsFinite,
}
use wivrn_nx_windows.Pose.Held.{
  seen, latest, has_position, has_orientation, expected_position, expected_orientation,
  answer_after-expected,
}

-- Products are all small, as no length is other than zero or one.
abbrev small : Floats ℕ
small = record {
  decimal = λ n k. n / 10 ^ k;
  is_finite = λ x. ltb x 1_000;
  add = λ x y. x + y;
  mul = λ x y. if ltb (x * y) 1_000 then x * y else 0;
  div = λ x y. 1;
  sqrt = λ x. x;
  lt = ltb;
}

abbrev vec : ℕ → Vec3 ℕ
vec n = record { x = n; y = n; z = n }

abbrev quat : ℕ → Quat ℕ
quat n = record { x = 0; y = n; z = 0; w = 0 }

abbrev sample : ℕ → Bool → Input ℕ
sample n tracks = record {
  pose = record {
    flags = record {
      orientation_valid = true;
      position_valid = true;
      linear_velocity_valid = true;
      angular_velocity_valid = false;
      orientation_tracked = tracks;
      position_tracked = tracks;
    };
    orientation = quat 1;
    position = vec n;
    linear_velocity = vec 2;
    angular_velocity = vec 3;
  };
  timestamp = pos n;
  freeze = true;
}

-- A tracked sample, one of a standby, and one that is not finite.
abbrev samples : List (Input ℕ)
samples = sample 1_000 true ∷ sample 8 false ∷ sample 7 true ∷ []

small-Finites : Finites small
unfolding Finites is_finite_quat normalize_orientation norm2
small-Finites = (refl, refl, λ q h k. ground arith)

answer_after-IsFinite_example : IsFinite small (answer_after small samples (sample 9 false))
answer_after-IsFinite_example = answer_after-IsFinite small samples (sample 9 false) small-Finites

answer_after-expected_example :
    let r = answer_after small samples (sample 9 false) in
    let all = sample 9 false ∷ samples in
    (r.position ≡ expected_position small all)
    × (r.orientation ≡ expected_orientation small all)
    × (r.usable
        ≡ (seen (latest (has_orientation small) all) && seen (latest (has_position small) all)))
answer_after-expected_example =
    answer_after-expected small samples (sample 9 false) (refl, (refl, (refl, (refl, tt))))

-- The standby's pose is not passed.
standing : (answer_after small samples (sample 9 false)).position ≡ vec 7
unfolding answer_after sanitize
standing = refl
