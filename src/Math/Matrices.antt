-- ===== src/Math/Matrices.antt =====
-- The functions of src/mat4f.c that change a matrix or a vector in place.
use evil_engine.Math.{
  Floats, Vec3, Quat, Mat4, mat4f_make_translation, mat4f_make_scaling, mat4f_make_rotation,
  mat4f_mul, mat4f_transform,
}

module _ {F : Type 0} (fl : Floats F) where
  unfoldable pub mat4f_mul_inplace : Mat4 F → Mat4 F → Mat4 F
  mat4f_mul_inplace result m = mat4f_mul fl result m

  unfoldable pub mat4f_translate : Mat4 F → Vec3 F → Mat4 F
  mat4f_translate m t = mat4f_mul_inplace m (mat4f_make_translation fl t)

  unfoldable pub mat4f_scale : Mat4 F → Vec3 F → Mat4 F
  mat4f_scale m s = mat4f_mul_inplace m (mat4f_make_scaling fl s)

  unfoldable pub mat4f_rotate : Mat4 F → Quat F → Mat4 F
  mat4f_rotate m q = mat4f_mul_inplace m (mat4f_make_rotation fl q)

  unfoldable pub mat4f_transform_inplace : Mat4 F → Vec3 F → Vec3 F
  mat4f_transform_inplace m v = mat4f_transform fl m v
