-- ===== src/Ecs/Component.antt =====
-- Component types of src/ecs.c: registration, sizes, and where an entity's component lies.
-- The heap and `strcpy_s` are parameters: `heap_alloc h size alignment` gives an address, or `none`
-- for NULL; `strcpy_s capacity name` gives what the destination holds.
use mathlib.Core.Path.{ap₂}
use native.Mathlib.Nat.{pow-le-pow_right}
use evil_engine.Base.{
  ℕ, ◌+◌, ◌-◌, ◌*◌, ◌%◌, ◌^◌, ◌≤◌, ◌<◌, ◌≡◌, ◌≢◌, ◌⊎◌, ◌&&◌, Bool, true, false, Option, none, some,
  arith, List, ltb, leb, if◌then◌else◌, inl, inr, CInt, minus_one, find_first, add64, sub64, update,
  bit_and, IsFloor, bit_and_high, pow-pos,
}
use evil_engine.Ecs.{Ecs, max_entities, max_component_types, component_address}

-- Bytes by address.
abbrev pub Memory : Type 0
Memory = ℕ → ℕ

-- `memset(address, value, size)`
abbrev pub memset : Memory → ℕ → ℕ → ℕ → Memory
memset memory address value size p =
    if leb address p && ltb p (address + size) then value else memory p

abbrev pub is_null : Option ℕ → Bool
is_null none = true
is_null (some a) = false

-- `(size + (alignment - 1)) & ~(alignment - 1)` on `size_t`.
unfoldable pub align_up : ℕ → ℕ → ℕ
align_up size alignment = bit_and (add64 size (sub64 alignment 1)) (2 ^ 64 - 1 - sub64 alignment 1)

-- The size of `k_max_entities` components, on `size_t`.
abbrev pub storage_size : ℕ → ℕ
storage_size aligned_size = aligned_size * max_entities % 2 ^ 64

pub record Registration (H : Type 0) : Type 0 where
  pub component_type : CInt
  pub ecs : Ecs
  pub heap : H
  pub memory : Memory

module _ {H : Type 0} (heap_alloc : H → ℕ → ℕ → Option ℕ × H) (strcpy_s : ℕ → List ℕ → List ℕ) where
  -- The body of the loop at the first free type; `none` where `memset` gets NULL.
  unfoldable pub register_at :
      ℕ → Ecs → H → Memory → List ℕ → ℕ → ℕ → Bool → Option (Registration H)
  register_at t e heap memory name size alignment save =
      let aligned_size = align_up size alignment in
      let (address, heap') = heap_alloc heap (storage_size aligned_size) alignment in
      elim address [
        | none ↦ none
        | some a ↦ some (record {
          component_type = t;
          ecs = record e {
            component_type_names = update e.component_type_names t (strcpy_s 32 name);
            component_type_sizes = update e.component_type_sizes t aligned_size;
            components = update e.components t (some a);
            save_component = update e.save_component t save;
          };
          heap = heap';
          memory = memset memory a 0 (storage_size aligned_size);
        })
      ]

  unfoldable pub register_component_type :
      Ecs → H → Memory → List ℕ → ℕ → ℕ → Bool → Option (Registration H)
  unfolding register_at
  register_component_type e heap memory name size alignment save =
      elim (find_first (λ t. is_null (e.components t)) max_component_types 0) [
        | none ↦ some (record { component_type = minus_one; ecs = e; heap = heap; memory = memory })
        | some t ↦ register_at t e heap memory name size alignment save
      ]

-- `ecs_get_component_type_size`
abbrev pub get_component_type_size : Ecs → CInt → ℕ
get_component_type_size e component_type = e.component_type_sizes component_type

-- For an alignment that is a power of two the rounded size is the least multiple of the alignment
-- that is not below the size.
pub align_up_lem :
    (k size : ℕ)
    → k < 64
    → size + 2 ^ k ≤ 2 ^ 64
    → let r = align_up size (2 ^ k) in ((q : ℕ) × (r ≡ q * 2 ^ k)) × (size ≤ r) × (r < size + 2 ^ k)
unfolding align_up
align_up_lem k size hk h = (
  (f.quotient, omega (arith, same, f.multiple)),
  omega (arith, same, f.upper, sum),
  omega (arith, same, f.lower, sum),
)
  where
    room : 2 ^ k ≤ 2 ^ 63
    room = pow-le-pow_right {n = 2} (omega arith) {i = k} {j = 63} (omega arith)

    sum : add64 size (sub64 (2 ^ k) 1) ≡ size + 2 ^ k - 1
    sum = omega (arith, pow-pos k)

    mask : 2 ^ 64 - 1 - sub64 (2 ^ k) 1 ≡ 2 ^ 64 - 2 ^ k
    mask = omega (arith, pow-pos k)

    f : IsFloor k (size + 2 ^ k - 1) (bit_and (size + 2 ^ k - 1) (2 ^ 64 - 2 ^ k))
    f = bit_and_high k 64 (size + 2 ^ k - 1) (omega arith) (omega (arith, pow-pos k))

    same :
        bit_and (add64 size (sub64 (2 ^ k) 1)) (2 ^ 64 - 1 - sub64 (2 ^ k) 1)
        ≡ bit_and (size + 2 ^ k - 1) (2 ^ 64 - 2 ^ k)
    same = ap₂ bit_and sum mask

mul_next : (size k m : ℕ) → k < m → size * k + size ≤ size * m
mul_next size k m lt = grind arith

lt_or_lt : (i j : ℕ) → i ≢ j → (i < j) ⊎ (j < i)
lt_or_lt i j ne = omega arith

-- The components of two entities of the table do not overlap, and lie inside the storage that was
-- allocated for their type, if that storage does not wrap round the address space.
pub component_disjoint :
    (base size i j : ℕ)
    → base + size * max_entities ≤ 2 ^ 64
    → 0 < size
    → i < max_entities
    → j < max_entities
    → i ≢ j
    → let a = component_address base size i in
      let b = component_address base size j in
      ((a + size ≤ b) ⊎ (b + size ≤ a)) × (base ≤ a) × (a + size ≤ base + size * max_entities)
unfolding component_address
component_disjoint base size i j fits pos hi hj ne = elim (lt_or_lt i j ne) [
  | inl lt ↦ (
    inl (omega (arith, next i j lt, next j max_entities hj)),
    omega (arith, next i j lt, next j max_entities hj),
    omega (arith, next i max_entities hi),
  )
  | inr lt ↦ (
    inr (omega (arith, next j i lt, next i max_entities hi)),
    omega (arith, next i max_entities hi),
    omega (arith, next i max_entities hi),
  )
]
  where
    next : (k m : ℕ) → k < m → size * k + size ≤ size * m
    next k m lt = mul_next size k m lt
