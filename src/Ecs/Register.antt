-- ===== src/Ecs/Register.antt =====
-- `ecs_register_component_type` of src/ecs.c: what a registration leaves behind.
use evil_engine.Base.{
  ℕ, ◌+◌, ◌≤◌, ◌<◌, ◌≡◌, ◌≢◌, ◌⊎◌, refl, Bool, true, false, Option, none, some, arith, List, inl,
  inr, Option-cases, minus_one, find_first, FoundAt, find_first-some, find_first-none, update,
}
use evil_engine.Ecs.{Ecs, max_component_types}
use evil_engine.Ecs.Component.{
  Memory, memset, is_null, align_up, storage_size, Registration, register_at,
  register_component_type,
}

-- What a successful registration leaves at type `t`, whose storage the heap gave at `a`.
pub record Registered (e : Ecs) (memory : Memory) (name : List ℕ) (size alignment : ℕ) (save : Bool)
    (t a : ℕ) (stored_name : List ℕ) (e' : Ecs) (memory' : Memory) : Type 0 where
  pub in_range : t < max_component_types
  pub was_free : e.components t ≡ none
  pub storage : e'.components t ≡ some a
  pub type_size : e'.component_type_sizes t ≡ align_up size alignment
  pub type_name : e'.component_type_names t ≡ stored_name
  pub saved : e'.save_component t ≡ save
  pub zeroed : (p : ℕ) → a ≤ p → p < a + storage_size (align_up size alignment) → memory' p ≡ 0
  pub kept :
      (p : ℕ) → (p < a) ⊎ (a + storage_size (align_up size alignment) ≤ p) → memory' p ≡ memory p
  pub others :
      (u : ℕ)
      → u ≢ t
      → (e'.components u ≡ e.components u)
        × (e'.component_type_sizes u ≡ e.component_type_sizes u)
        × (e'.component_type_names u ≡ e.component_type_names u)
        × (e'.save_component u ≡ e.save_component u)

taken : (e : Ecs) (u : ℕ) → is_null (e.components u) ≡ false → e.components u ≢ none
taken e u h z = ground arith

free : (e : Ecs) (u : ℕ) → is_null (e.components u) ≡ true → e.components u ≡ none
free e u h = ground arith

module _ {H : Type 0} (heap_alloc : H → ℕ → ℕ → Option ℕ × H) (strcpy_s : ℕ → List ℕ → List ℕ) where
  register_at-Registered :
      (e : Ecs) (heap : H) (memory : Memory) (name : List ℕ) (size alignment : ℕ) (save : Bool)
      (t a : ℕ)
      → t < max_component_types
      → e.components t ≡ none
      → (heap_alloc heap (storage_size (align_up size alignment)) alignment).0 ≡ some a
      → (r : Registration H) × (register_at heap_alloc strcpy_s t e heap memory name size alignment
            save
          ≡ some r)
        × (r.component_type ≡ t)
        × Registered e memory name size alignment save t a (strcpy_s 32 name) r.ecs r.memory
  unfolding register_at
  register_at-Registered e heap memory name size alignment save t a lt free got = (
    record {
      component_type = t;
      ecs = record e {
        component_type_names = update e.component_type_names t (strcpy_s 32 name);
        component_type_sizes = update e.component_type_sizes t (align_up size alignment);
        components = update e.components t (some a);
        save_component = update e.save_component t save;
      };
      heap = (heap_alloc heap (storage_size (align_up size alignment)) alignment).1;
      memory = memset memory a 0 (storage_size (align_up size alignment));
    },
    rw (got, register_at),
    refl,
    record {
      in_range = lt;
      was_free = free;
      storage = ground arith;
      type_size = ground arith;
      type_name = ground arith;
      saved = ground arith;
      zeroed = λ p lo hi. ground arith;
      kept = λ p out. ground arith;
      others = λ u ne. (ground arith, ground arith, ground arith, ground arith);
    },
  )

  register_at-none :
      (e : Ecs) (heap : H) (memory : Memory) (name : List ℕ) (size alignment : ℕ) (save : Bool)
      (t : ℕ)
      → (heap_alloc heap (storage_size (align_up size alignment)) alignment).0 ≡ none
      → register_at heap_alloc strcpy_s t e heap memory name size alignment save ≡ none
  unfolding register_at
  register_at-none e heap memory name size alignment save t no_room = rw (no_room, register_at)

  -- `ecs_register_component_type` takes the first free type. When the heap has room that type is
  -- returned, with its rounded size, its name and its storage set to zero, the sizes, names, storage and
  -- flags of the other types are as before, and no byte outside the storage is written; when the heap
  -- has none, the code writes through NULL. With all 64 types taken it returns -1 and changes nothing,
  -- whether the heap has room or not.
  pub register_component_type_lem :
      (e : Ecs) (heap : H) (memory : Memory) (name : List ℕ) (size alignment : ℕ) (save : Bool)
      → ((r : Registration H) × (register_component_type heap_alloc strcpy_s e heap memory name size
              alignment save
            ≡ some r)
          × (((t : ℕ) × (a : ℕ) × (r.component_type ≡ t)
                × ((heap_alloc heap (storage_size (align_up size alignment)) alignment).0 ≡ some a)
                × ((u : ℕ) → u < t → e.components u ≢ none)
                × Registered e memory name size alignment save t a
                    (strcpy_s 32 name)
                    r.ecs
                    r.memory)
              ⊎ (((u : ℕ) → u < max_component_types → e.components u ≢ none)
                  × (r.component_type ≡ minus_one)
                  × (r.ecs ≡ e)
                  × (r.heap ≡ heap)
                  × (r.memory ≡ memory))))
        ⊎ ((register_component_type heap_alloc strcpy_s e heap memory name size alignment save
              ≡ none)
            × ((heap_alloc heap (storage_size (align_up size alignment)) alignment).0 ≡ none)
            × ((t : ℕ) × (t < max_component_types) × (e.components t ≡ none)))
  unfolding register_component_type
  register_component_type_lem e heap memory name size alignment save =
      elim (Option-cases (find_first (λ t. is_null (e.components t)) max_component_types 0)) [
        | inl h ↦ inl (
          record { component_type = minus_one; ecs = e; heap = heap; memory = memory },
          rw (h, register_component_type),
          inr (
            λ u lt z. taken e u (find_first-none _ _ _ u h (omega arith) lt) z,
            refl,
            refl,
            refl,
            refl,
          ),
        )
        | inr (t, h) ↦
            let f : FoundAt (λ u. is_null (e.components u)) max_component_types 0 t =
              find_first-some _ _ _ h in
            elim (Option-cases
              (heap_alloc heap (storage_size (align_up size alignment)) alignment).0) [
                | inl no_room ↦ inr (
                  rw (h, register_component_type)
                      (register_at-none e heap memory name size alignment save t no_room),
                  no_room,
                  (t, f.below, free e t f.passes),
                )
                | inr (a, got) ↦
                    let (r, eq, ty, reg) =
                      register_at-Registered e heap memory name size alignment save t a f.below
                        (free e t f.passes) got in
                    inl (
                      r,
                      rw (h, register_component_type) eq,
                      inl (
                        t,
                        a,
                        ty,
                        got,
                        λ u lt z. taken e u (f.earliest u (omega arith) lt) z,
                        reg,
                      ),
                    )
              ]
      ]
