-- ===== src/Math/Camera.antt =====
-- The projections, the view and the inverse of src/mat4f.c. A matrix that a function leaves as it was
-- is its argument.
use evil_engine.Base.{ℕ, Option, none, some, if◌then◌else◌}
use evil_engine.Math.{
  Floats, Vec3, Mat4, nought, one, larger, row, rows, vec3f_negate, vec3f_norm, vec3f_cross,
  vec3f_dot,
}

module _ {F : Type 0} (fl : Floats F) where
  infixl 40 ◌⊕◌
  infixl 40 ◌⊖◌
  infixl 50 ◌⊗◌
  abbrev ◌⊕◌ : F → F → F
  a ⊕ b = fl.add a b

  abbrev ◌⊖◌ : F → F → F
  a ⊖ b = fl.sub a b

  abbrev ◌⊗◌ : F → F → F
  a ⊗ b = fl.mul a b

  abbrev o : F
  o = nought fl

  unfoldable pub mat4f_make_perspective : (angle aspect z_near z_far : F) → Mat4 F → Mat4 F
  mat4f_make_perspective angle aspect z_near z_far m =
      let aspect' = larger fl fl.epsilon aspect in
      let near = larger fl fl.epsilon z_near in
      let tan_half_vfov = fl.tan (angle ⊗ fl.literal 500) in
      let a = fl.div (one fl) tan_half_vfov in
      if fl.equal angle o
      then m
      else rows fl (row fl (fl.div (one fl) (tan_half_vfov ⊗ aspect')) o o o) (row fl o a o o)
          (row fl o o o (fl.neg (one fl))) (row fl o o near o)

  -- The angle and the planes are not used.
  unfoldable pub mat4f_make_orthographic : (angle aspect z_near z_far : F) → Mat4 F
  mat4f_make_orthographic angle aspect z_near z_far =
      let aspect' = larger fl fl.epsilon aspect in
      rows fl (row fl (fl.div (fl.literal 200) aspect') o o o) (row fl o (fl.literal 200) o o)
        (row fl o o o o) (row fl o o o (one fl))

  unfoldable pub mat4f_make_lookat : (eye dir up : Vec3 F) → Mat4 F
  mat4f_make_lookat eye dir up =
      let z = vec3f_negate fl (vec3f_norm fl dir) in
      let x = vec3f_norm fl (vec3f_cross fl up z) in
      let y = vec3f_norm fl (vec3f_cross fl z x) in
      rows fl (row fl x.x y.x z.x o) (row fl x.y y.y z.y o) (row fl x.z y.z z.z o) (
        row fl (fl.neg (vec3f_dot fl x eye)) (fl.neg (vec3f_dot fl y eye))
          (fl.neg (vec3f_dot fl z eye)) (one fl))

  -- `a * p - b * q + c * r` and `-a * p + b * q - c * r`, times `1 / det`.
  abbrev plus : F → F → F → F → F → F → F → F
  plus inv a p b q c r = (a ⊗ p ⊖ b ⊗ q ⊕ c ⊗ r) ⊗ inv

  abbrev minus : F → F → F → F → F → F → F → F
  minus inv a p b q c r = (fl.neg a ⊗ p ⊕ b ⊗ q ⊖ c ⊗ r) ⊗ inv

  -- `none` where the determinant is zero, so that the code returns false.
  unfoldable pub mat4f_invert : Mat4 F → Option (Mat4 F)
  mat4f_invert m =
      let minor = λ (i j k l : ℕ). m i k ⊗ m j l ⊖ m j k ⊗ m i l in
      let s0 = minor 0 1 0 1 in
      let s1 = minor 0 1 0 2 in
      let s2 = minor 0 1 0 3 in
      let s3 = minor 0 1 1 2 in
      let s4 = minor 0 1 1 3 in
      let s5 = minor 0 1 2 3 in
      let c0 = minor 2 3 0 1 in
      let c1 = minor 2 3 0 2 in
      let c2 = minor 2 3 0 3 in
      let c3 = minor 2 3 1 2 in
      let c4 = minor 2 3 1 3 in
      let c5 = minor 2 3 2 3 in
      let det = s0 ⊗ c5 ⊖ s1 ⊗ c4 ⊕ s2 ⊗ c3 ⊕ s3 ⊗ c2 ⊖ s4 ⊗ c1 ⊕ s5 ⊗ c0 in
      let i = fl.div (one fl) det in
      if fl.equal det o
      then none
      else some (
          rows fl
            (row fl (plus i (m 1 1) c5 (m 1 2) c4 (m 1 3) c3)
              (minus i (m 0 1) c5 (m 0 2) c4 (m 0 3) c3) (plus i (m 3 1) s5 (m 3 2) s4 (m 3 3) s3)
              (minus i (m 2 1) s5 (m 2 2) s4 (m 2 3) s3))
            (row fl (minus i (m 1 0) c5 (m 1 2) c2 (m 1 3) c1)
              (plus i (m 0 0) c5 (m 0 2) c2 (m 0 3) c1) (minus i (m 3 0) s5 (m 3 2) s2 (m 3 3) s1)
              (plus i (m 2 0) s5 (m 2 2) s2 (m 2 3) s1))
            (row fl (plus i (m 1 0) c4 (m 1 1) c2 (m 1 3) c0)
              (minus i (m 0 0) c4 (m 0 1) c2 (m 0 3) c0) (plus i (m 3 0) s4 (m 3 1) s2 (m 3 3) s0)
              (minus i (m 2 0) s4 (m 2 1) s2 (m 2 3) s0))
            (row fl (minus i (m 1 0) c3 (m 1 1) c1 (m 1 2) c0)
              (plus i (m 0 0) c3 (m 0 1) c1 (m 0 2) c0) (minus i (m 3 0) s3 (m 3 1) s1 (m 3 2) s0)
              (plus i (m 2 0) s3 (m 2 1) s1 (m 2 2) s0)))
