-- ===== src/Math/Agree.antt =====
-- A routine of src/transform.c that repeats the formulas of src/mat4f.c.
use evil_engine.Base.{ℕ, zero, suc, ◌<◌, ◌≡◌, refl, arith}
use evil_engine.Math.{
  Floats, Transform, transform_to_matrix, mat4f_make_rotation, mat4f_make_translation,
}

module _ {F : Type 0} (fl : Floats F) where
  -- Without any law of floating point: in the matrix that `transform_to_matrix` writes, each of the
  -- first three rows is the row that `mat4f_make_rotation` writes, times the scale on its axis, and the
  -- last row is that of `mat4f_make_translation`. The last column of the first three rows is left out.
  pub transform_to_matrix_lem :
      (t : Transform F) (j : ℕ)
      → j < 3
      → (transform_to_matrix fl t 0 j ≡ fl.mul t.scale.x (mat4f_make_rotation fl t.rotation 0 j))
        × (transform_to_matrix fl t 1 j ≡ fl.mul t.scale.y (mat4f_make_rotation fl t.rotation 1 j))
        × (transform_to_matrix fl t 2 j ≡ fl.mul t.scale.z (mat4f_make_rotation fl t.rotation 2 j))
        × (transform_to_matrix fl t 3 ≡ mat4f_make_translation fl t.translation 3)
  unfolding transform_to_matrix mat4f_make_rotation mat4f_make_translation
  transform_to_matrix_lem t zero h = (refl, refl, refl, refl)
  transform_to_matrix_lem t (suc zero) h = (refl, refl, refl, refl)
  transform_to_matrix_lem t (suc (suc zero)) h = (refl, refl, refl, refl)
  transform_to_matrix_lem t (suc (suc (suc j))) h = absurd (omega arith)
