-- ===== src/Math/Vectors.antt =====
-- The rest of the vectors of src/vec3f.h, and `lerpf` of src/math.h.
use evil_engine.Base.{if◌then◌else◌}
use evil_engine.Math.{Floats, Vec3, vec3f_scale, vec3f_dot, larger}

module _ {F : Type 0} (fl : Floats F) where
  infixl 40 ◌⊕◌
  infixl 40 ◌⊖◌
  infixl 50 ◌⊗◌
  abbrev ◌⊕◌ : F → F → F
  a ⊕ b = fl.add a b

  abbrev ◌⊖◌ : F → F → F
  a ⊖ b = fl.sub a b

  abbrev ◌⊗◌ : F → F → F
  a ⊗ b = fl.mul a b

  -- A member without an initialiser is zero.
  abbrev pub vec3f_x : Vec3 F
  vec3f_x = record { x = fl.literal 1000; y = fl.literal 0; z = fl.literal 0 }

  abbrev pub vec3f_y : Vec3 F
  vec3f_y = record { x = fl.literal 0; y = fl.literal 1000; z = fl.literal 0 }

  abbrev pub vec3f_z : Vec3 F
  vec3f_z = record { x = fl.literal 0; y = fl.literal 0; z = fl.literal 1000 }

  unfoldable pub vec3f_sub : Vec3 F → Vec3 F → Vec3 F
  vec3f_sub a b = record { x = a.x ⊖ b.x; y = a.y ⊖ b.y; z = a.z ⊖ b.z }

  -- `__min(a, b)`
  abbrev pub smaller : F → F → F
  smaller a b = if fl.less a b then a else b

  unfoldable pub vec3f_min : Vec3 F → Vec3 F → Vec3 F
  vec3f_min a b = record { x = smaller a.x b.x; y = smaller a.y b.y; z = smaller a.z b.z }

  unfoldable pub vec3f_max : Vec3 F → Vec3 F → Vec3 F
  vec3f_max a b = record { x = larger fl a.x b.x; y = larger fl a.y b.y; z = larger fl a.z b.z }

  unfoldable pub lerpf : (start finish distance : F) → F
  lerpf start finish distance = start ⊗ (fl.literal 1000 ⊖ distance) ⊕ finish ⊗ distance

  unfoldable pub vec3f_lerp : Vec3 F → Vec3 F → F → Vec3 F
  vec3f_lerp a b f = record { x = lerpf a.x b.x f; y = lerpf a.y b.y f; z = lerpf a.z b.z f }

  unfoldable pub vec3f_mag2 : Vec3 F → F
  vec3f_mag2 v = (v.x ⊗ v.x) ⊕ (v.y ⊗ v.y) ⊕ (v.z ⊗ v.z)

  unfoldable pub vec3f_dist2 : Vec3 F → Vec3 F → F
  vec3f_dist2 a b = vec3f_mag2 (vec3f_sub a b)

  unfoldable pub vec3f_dist : Vec3 F → Vec3 F → F
  vec3f_dist a b = fl.sqrt (vec3f_dist2 a b)

  unfoldable pub vec3f_reflect : Vec3 F → Vec3 F → Vec3 F
  vec3f_reflect v n = vec3f_sub v (vec3f_scale fl n (vec3f_dot fl v n ⊗ fl.literal 2000))
