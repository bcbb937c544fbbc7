-- ===== src/Math.antt =====
-- src/vec3f.h, src/quatf.h, src/quatf.c, src/mat4f.c, src/transform.c and src/math.h.
-- The type of floats and its operations are a parameter, of which no law is assumed: the terms stand
-- in the order of the code, and `+`, `-` and `*` group to the left.
pub mod Agree
pub mod Camera
pub mod Vectors
pub mod Matrices
mod Tests
use evil_engine.Base.{ℕ, zero, suc, ◌+◌, Bool, true, false, if◌then◌else◌, for_loop, update, ◌==◌}

pub record Floats (F : Type 0) : Type 0 where
  pub literal : (thousandths : ℕ) → F
  pub epsilon : F
  pub half_pi : F
  pub add : F → F → F
  pub sub : F → F → F
  pub mul : F → F → F
  pub div : F → F → F
  pub neg : F → F
  pub sqrt : F → F
  pub sin : F → F
  pub cos : F → F
  pub tan : F → F
  pub asin : F → F
  pub abs : F → F
  pub atan2 : F → F → F
  pub copysign : F → F → F
  pub equal : F → F → Bool
  pub less : F → F → Bool
  pub less_or_equal : F → F → Bool

pub record Vec3 (F : Type 0) : Type 0 where
  pub x : F
  pub y : F
  pub z : F

pub record Quat (F : Type 0) : Type 0 where
  pub x : F
  pub y : F
  pub z : F
  pub w : F

-- `data[i][j]`
abbrev pub Mat4 : Type 0 → Type 0
Mat4 F = ℕ → ℕ → F

pub record Transform (F : Type 0) : Type 0 where
  pub translation : Vec3 F
  pub scale : Vec3 F
  pub rotation : Quat F

module _ {F : Type 0} (fl : Floats F) where
  infixl 40 ◌⊕◌
  infixl 40 ◌⊖◌
  infixl 50 ◌⊗◌
  abbrev ◌⊕◌ : F → F → F
  a ⊕ b = fl.add a b

  abbrev ◌⊖◌ : F → F → F
  a ⊖ b = fl.sub a b

  abbrev ◌⊗◌ : F → F → F
  a ⊗ b = fl.mul a b

  abbrev pub nought : F
  nought = fl.literal 0

  abbrev pub one : F
  one = fl.literal 1000

  abbrev two : F
  two = fl.literal 2000

  -- `__max(a, b)`
  abbrev pub larger : F → F → F
  larger a b = if fl.less b a then a else b

  unfoldable pub almost_equalf : F → F → Bool
  almost_equalf a b =
      let diff = fl.abs (a ⊖ b) in
      if fl.less_or_equal diff (fl.epsilon ⊗ fl.literal 1000000)
      then true
      else fl.less_or_equal diff (larger (fl.abs a) (fl.abs b) ⊗ fl.epsilon ⊗ fl.literal 4000)

  abbrev pub vec3f_zero : Vec3 F
  vec3f_zero = record { x = nought; y = nought; z = nought }

  abbrev pub vec3f_one : Vec3 F
  vec3f_one = record { x = one; y = one; z = one }

  -- A member without an initialiser is zero.
  abbrev pub vec3f_forward : Vec3 F
  vec3f_forward = record { x = fl.neg one; y = nought; z = nought }

  abbrev pub vec3f_right : Vec3 F
  vec3f_right = record { x = nought; y = one; z = nought }

  abbrev pub vec3f_up : Vec3 F
  vec3f_up = record { x = nought; y = nought; z = one }

  abbrev pub vec3f_negate : Vec3 F → Vec3 F
  vec3f_negate v = record { x = fl.neg v.x; y = fl.neg v.y; z = fl.neg v.z }

  abbrev pub vec3f_add : Vec3 F → Vec3 F → Vec3 F
  vec3f_add a b = record { x = a.x ⊕ b.x; y = a.y ⊕ b.y; z = a.z ⊕ b.z }

  abbrev pub vec3f_mul : Vec3 F → Vec3 F → Vec3 F
  vec3f_mul a b = record { x = a.x ⊗ b.x; y = a.y ⊗ b.y; z = a.z ⊗ b.z }

  abbrev pub vec3f_scale : Vec3 F → F → Vec3 F
  vec3f_scale v f = record { x = v.x ⊗ f; y = v.y ⊗ f; z = v.z ⊗ f }

  abbrev pub vec3f_dot : Vec3 F → Vec3 F → F
  vec3f_dot a b = (a.x ⊗ b.x) ⊕ (a.y ⊗ b.y) ⊕ (a.z ⊗ b.z)

  abbrev pub vec3f_cross : Vec3 F → Vec3 F → Vec3 F
  vec3f_cross a b = record {
    x = a.y ⊗ b.z ⊖ a.z ⊗ b.y;
    y = a.z ⊗ b.x ⊖ a.x ⊗ b.z;
    z = a.x ⊗ b.y ⊖ a.y ⊗ b.x;
  }

  abbrev pub vec3f_mag : Vec3 F → F
  vec3f_mag v = fl.sqrt (vec3f_dot v v)

  unfoldable pub vec3f_norm : Vec3 F → Vec3 F
  vec3f_norm v =
      let m = vec3f_mag v in if almost_equalf m nought then v else vec3f_scale v (fl.div one m)

  -- The member `v3` of a quaternion.
  abbrev pub v3 : Quat F → Vec3 F
  v3 q = record { x = q.x; y = q.y; z = q.z }

  abbrev pub with_v3 : Vec3 F → F → Quat F
  with_v3 v s = record { x = v.x; y = v.y; z = v.z; w = s }

  abbrev pub quatf_identity : Quat F
  quatf_identity = record { x = nought; y = nought; z = nought; w = one }

  unfoldable pub quatf_mul : Quat F → Quat F → Quat F
  quatf_mul a b =
      let crossed = vec3f_add (vec3f_cross (v3 a) (v3 b)) (vec3f_scale (v3 b) a.w) in
      with_v3 (vec3f_add crossed (vec3f_scale (v3 a) b.w)) ((a.w ⊗ b.w) ⊖ vec3f_dot (v3 a) (v3 b))

  unfoldable pub quatf_conjugate : Quat F → Quat F
  quatf_conjugate q = with_v3 (vec3f_negate (v3 q)) q.w

  unfoldable pub quatf_rotate_vec : Quat F → Vec3 F → Vec3 F
  quatf_rotate_vec q v =
      let t = vec3f_scale (vec3f_cross (v3 q) v) two in
      vec3f_add v (vec3f_add (vec3f_scale t q.w) (vec3f_cross (v3 q) t))

  -- The three initialisers of the result all name `x`: the last one stands, and the other members are
  -- zero.
  unfoldable pub quatf_to_eulers : Quat F → Vec3 F
  quatf_to_eulers q =
      let sinr = two ⊗ (q.w ⊗ q.x ⊕ q.y ⊗ q.z) in
      let cosr = one ⊖ two ⊗ (q.x ⊗ q.x ⊕ q.y ⊗ q.y) in
      let roll = fl.atan2 sinr cosr in
      let sinp = two ⊗ (q.w ⊗ q.y ⊖ q.z ⊗ q.x) in
      let pitch =
        if fl.less_or_equal one (fl.abs sinp) then fl.copysign fl.half_pi sinp else fl.asin sinp in
      let siny = two ⊗ (q.w ⊗ q.z ⊕ q.x ⊗ q.y) in
      let cosy = one ⊖ two ⊗ (q.y ⊗ q.y ⊕ q.z ⊗ q.z) in
      let yaw = fl.atan2 siny cosy in
      let blank : Vec3 F = record { x = nought; y = nought; z = nought } in
      let first : Vec3 F = record blank { x = roll } in
      let second : Vec3 F = record first { x = pitch } in record second { x = yaw }

  unfoldable pub quatf_from_eulers : Vec3 F → Quat F
  quatf_from_eulers e =
      let half = fl.literal 500 in
      let cy = fl.cos (e.z ⊗ half) in
      let sy = fl.sin (e.z ⊗ half) in
      let cr = fl.cos (e.x ⊗ half) in
      let sr = fl.sin (e.x ⊗ half) in
      let cp = fl.cos (e.y ⊗ half) in
      let sp = fl.sin (e.y ⊗ half) in
      record {
        w = cy ⊗ cr ⊗ cp ⊕ sy ⊗ sr ⊗ sp;
        x = cy ⊗ sr ⊗ cp ⊖ sy ⊗ cr ⊗ sp;
        y = cy ⊗ cr ⊗ sp ⊕ sy ⊗ sr ⊗ cp;
        z = sy ⊗ cr ⊗ cp ⊖ cy ⊗ sr ⊗ sp;
      }

  -- A row, and the matrix of four rows.
  abbrev pub row : F → F → F → F → ℕ → F
  row a b c d j = if j == 0 then a else if j == 1 then b else if j == 2 then c else d

  abbrev pub rows : (ℕ → F) → (ℕ → F) → (ℕ → F) → (ℕ → F) → Mat4 F
  rows a b c d i = if i == 0 then a else if i == 1 then b else if i == 2 then c else d

  unfoldable pub mat4f_make_identity : Mat4 F
  mat4f_make_identity i j = if i == j then one else nought

  unfoldable pub mat4f_make_translation : Vec3 F → Mat4 F
  unfolding mat4f_make_identity
  mat4f_make_translation t = update mat4f_make_identity 3 (row t.x t.y t.z one)

  unfoldable pub mat4f_make_scaling : Vec3 F → Mat4 F
  mat4f_make_scaling s =
      rows (row s.x nought nought nought) (row nought s.y nought nought)
        (row nought nought s.z nought) (row nought nought nought one)

  unfoldable pub mat4f_make_rotation : Quat F → Mat4 F
  mat4f_make_rotation q =
      rows
        (row (one ⊖ two ⊗ (q.y ⊗ q.y ⊕ q.z ⊗ q.z)) (two ⊗ (q.x ⊗ q.y ⊕ q.z ⊗ q.w))
          (two ⊗ (q.x ⊗ q.z ⊖ q.y ⊗ q.w)) nought)
        (row (two ⊗ (q.x ⊗ q.y ⊖ q.z ⊗ q.w)) (one ⊖ two ⊗ (q.x ⊗ q.x ⊕ q.z ⊗ q.z))
          (two ⊗ (q.y ⊗ q.z ⊕ q.x ⊗ q.w)) nought)
        (row (two ⊗ (q.x ⊗ q.z ⊕ q.y ⊗ q.w)) (two ⊗ (q.y ⊗ q.z ⊖ q.x ⊗ q.w))
          (one ⊖ two ⊗ (q.x ⊗ q.x ⊕ q.y ⊗ q.y)) nought)
        (row nought nought nought one)

  unfoldable pub mat4f_mul : Mat4 F → Mat4 F → Mat4 F
  mat4f_mul a b i j = for_loop 4 0 (λ k tmp. tmp ⊕ a i k ⊗ b k j) nought

  unfoldable pub mat4f_transform : Mat4 F → Vec3 F → Vec3 F
  mat4f_transform m v =
      let entry = λ (j : ℕ). v.x ⊗ m 0 j ⊕ v.y ⊗ m 1 j ⊕ v.z ⊗ m 2 j ⊕ m 3 j in
      record { x = entry 0; y = entry 1; z = entry 2 }

  abbrev pub transform_identity : Transform F
  transform_identity = record {
    translation = vec3f_zero;
    scale = vec3f_one;
    rotation = quatf_identity;
  }

  unfoldable pub transform_to_matrix : Transform F → Mat4 F
  transform_to_matrix t =
      let q = t.rotation in
      let s = t.scale in
      let r00 = one ⊖ two ⊗ (q.y ⊗ q.y ⊕ q.z ⊗ q.z) in
      let r10 = two ⊗ (q.x ⊗ q.y ⊖ q.z ⊗ q.w) in
      let r20 = two ⊗ (q.x ⊗ q.z ⊕ q.y ⊗ q.w) in
      let r01 = two ⊗ (q.x ⊗ q.y ⊕ q.z ⊗ q.w) in
      let r11 = one ⊖ two ⊗ (q.x ⊗ q.x ⊕ q.z ⊗ q.z) in
      let r21 = two ⊗ (q.y ⊗ q.z ⊖ q.x ⊗ q.w) in
      let r02 = two ⊗ (q.x ⊗ q.z ⊖ q.y ⊗ q.w) in
      let r12 = two ⊗ (q.y ⊗ q.z ⊕ q.x ⊗ q.w) in
      let r22 = one ⊖ two ⊗ (q.x ⊗ q.x ⊕ q.y ⊗ q.y) in
      rows (row (s.x ⊗ r00) (s.x ⊗ r01) (s.x ⊗ r02) nought)
        (row (s.y ⊗ r10) (s.y ⊗ r11) (s.y ⊗ r12) nought)
        (row (s.z ⊗ r20) (s.z ⊗ r21) (s.z ⊗ r22) nought)
        (row t.translation.x t.translation.y t.translation.z one)

  unfoldable pub transform_multiply : Transform F → Transform F → Transform F
  transform_multiply result t =
      let scaled = vec3f_mul result.translation t.scale in
      let rotated = quatf_rotate_vec t.rotation scaled in
      record {
        translation = vec3f_add rotated t.translation;
        scale = vec3f_mul result.scale t.scale;
        rotation = quatf_mul t.rotation result.rotation;
      }

  unfoldable pub transform_transform_vec3 : Transform F → Vec3 F → Vec3 F
  transform_transform_vec3 t v =
      let rotated = quatf_rotate_vec t.rotation (vec3f_mul v t.scale) in
      vec3f_add rotated t.translation

  -- `s != 0.0f ? 1.0f / s : 0.0f`
  abbrev pub invert_scale : F → F
  invert_scale s = if fl.equal s nought then nought else fl.div one s

  unfoldable pub transform_invert : Transform F → Transform F
  transform_invert t =
      let scale : Vec3 F = record {
        x = invert_scale t.scale.x;
        y = invert_scale t.scale.y;
        z = invert_scale t.scale.z;
      } in
      let rotation = quatf_conjugate t.rotation in
      record {
        scale = scale;
        rotation = rotation;
        translation = vec3f_mul scale (quatf_rotate_vec rotation (vec3f_negate t.translation));
      }
