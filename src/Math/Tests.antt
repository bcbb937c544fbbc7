-- ===== src/Math/Tests.antt =====
-- The transforms of src/transform.c on small inputs.
use evil_engine.Base.{ℕ, ◌+◌, ◌-◌, ◌*◌, ◌/◌, ◌≡◌, arith, ◌==◌, leb, ltb}
use evil_engine.Math.{
  Floats, Transform, transform_to_matrix, mat4f_make_rotation, mat4f_make_translation,
}
use evil_engine.Math.Agree.{transform_to_matrix_lem}

-- Whole numbers for floats.
abbrev whole : Floats ℕ
whole = record {
  literal = λ n. n / 1000;
  epsilon = 0;
  half_pi = 1;
  add = λ a b. a + b;
  sub = λ a b. a - b;
  mul = λ a b. a * b;
  div = λ a b. a / b;
  neg = λ a. 0;
  sqrt = λ a. a;
  sin = λ a. 0;
  cos = λ a. 1;
  tan = λ a. 0;
  asin = λ a. 0;
  abs = λ a. a;
  atan2 = λ a b. a;
  copysign = λ a b. a;
  equal = λ a b. a == b;
  less = λ a b. ltb a b;
  less_or_equal = λ a b. leb a b;
}

abbrev tilted : Transform ℕ
tilted = record {
  translation = record { x = 4; y = 5; z = 6 };
  scale = record { x = 2; y = 3; z = 1 };
  rotation = record { x = 1; y = 0; z = 1; w = 2 };
}

transform_to_matrix_lem_example :
    (transform_to_matrix whole tilted 0 2 ≡ 2 * mat4f_make_rotation whole tilted.rotation 0 2)
    × (transform_to_matrix whole tilted 1 2 ≡ 3 * mat4f_make_rotation whole tilted.rotation 1 2)
    × (transform_to_matrix whole tilted 2 2 ≡ 1 * mat4f_make_rotation whole tilted.rotation 2 2)
    × (transform_to_matrix whole tilted 3 ≡ mat4f_make_translation whole tilted.translation 3)
transform_to_matrix_lem_example = transform_to_matrix_lem whole tilted 2 (omega arith)
