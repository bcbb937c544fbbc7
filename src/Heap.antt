-- ===== src/Heap.antt =====
-- src/heap.c: a heap that grows by arenas. TLSF is a record of its functions on a state of its own.
-- Windows answers the k-th call of VirtualAlloc by `grant k size`, an address or `none` for NULL, and
-- what is reserved and released is kept as lists, the last first.
pub mod Lifetime
pub mod Grow
mod Tests
use evil_engine.Base.{
  ℕ, ◌+◌, ◌-◌, ◌*◌, ◌%◌, ◌^◌, Option, none, some, List, [], ◌∷◌, ◌>>=◌, max, add64,
}

-- `src/tlsf/tlsf.h`, as far as it is called.
pub record Tlsf (T : Type 0) : Type 0 where
  pub tlsf_size : ℕ
  pub tlsf_pool_overhead : ℕ
  pub tlsf_create : (memory : ℕ) → T
  pub tlsf_add_pool : T → (memory size : ℕ) → T
  pub tlsf_memalign : T → (alignment size : ℕ) → Option ℕ × T
  pub tlsf_free : T → (address : ℕ) → T

pub record Windows : Type 0 where
  pub calls : ℕ
  pub reserved : List ℕ
  pub released : List ℕ

-- `heap_t` at its address. Of the list of arenas their addresses are kept, and of the mutex how many
-- times the thread holds it.
pub record Heap (T : Type 0) : Type 0 where
  pub address : ℕ
  pub tlsf : T
  pub grow_increment : ℕ
  pub arenas : List ℕ
  pub held : ℕ

abbrev pub heap_struct_size : ℕ
heap_struct_size = 32

abbrev pub arena_struct_size : ℕ
arena_struct_size = 16

abbrev pub mutex_lock : {T : Type 0} → Heap T → Heap T
mutex_lock h = record h { held = h.held + 1 }

abbrev pub mutex_unlock : {T : Type 0} → Heap T → Heap T
mutex_unlock h = record h { held = h.held - 1 }

-- On `size_t`.
unfoldable pub arena_size : (grow_increment size : ℕ) → ℕ
arena_size grow_increment size = add64 (max grow_increment (size * 2 % 2 ^ 64)) arena_struct_size

unfoldable pub virtual_free : ℕ → Windows → Windows
virtual_free a w = record w { released = a ∷ w.released }

-- The loop of `heap_destroy` over the arenas.
unfoldable pub free_arenas : List ℕ → Windows → Windows
free_arenas [] w = w
free_arenas (a ∷ arenas) w = free_arenas arenas (virtual_free a w)

unfoldable pub heap_destroy : {T : Type 0} → Heap T → Windows → Windows
heap_destroy h w = virtual_free h.address (free_arenas h.arenas w)

unfoldable pub virtual_alloc : (ℕ → ℕ → Option ℕ) → ℕ → Windows → Option ℕ × Windows
virtual_alloc grant size w = elim (grant w.calls size) [
  | none ↦ (none, record w { calls = w.calls + 1 })
  | some a ↦ (some a, record w { calls = w.calls + 1; reserved = a ∷ w.reserved })
]

module _ {T : Type 0} (lib : Tlsf T) (grant : ℕ → ℕ → Option ℕ) where
  -- The new heap in the memory that VirtualAlloc gives.
  unfoldable pub created : (grow_increment : ℕ) → Option ℕ × Windows → Option (Heap T) × Windows
  created grow_increment (none, w) = (none, w)
  created grow_increment (some a, w) = (
    some (record {
      address = a;
      tlsf = lib.tlsf_create (a + heap_struct_size);
      grow_increment = grow_increment;
      arenas = [];
      held = 0;
    }),
    w,
  )

  unfoldable pub heap_create : (grow_increment : ℕ) → Windows → Option (Heap T) × Windows
  heap_create grow_increment w =
      created grow_increment (virtual_alloc grant (add64 heap_struct_size lib.tlsf_size) w)

  -- The heap with the arena at `a`.
  unfoldable pub add_arena : ℕ → ℕ → Heap T → Heap T
  add_arena a size h = record h {
    tlsf = lib.tlsf_add_pool h.tlsf (a + arena_struct_size) (arena_size h.grow_increment size);
    arenas = a ∷ h.arenas;
  }

  -- The last call of `tlsf_memalign`, and the return behind it.
  unfoldable pub alloc_again : (size alignment : ℕ) → Heap T → Option ℕ × Heap T
  alloc_again size alignment h =
      let again = lib.tlsf_memalign h.tlsf alignment size in
      (again.0, mutex_unlock (record h { tlsf = again.1 }))

  -- The part of `heap_alloc` behind its VirtualAlloc: the mutex is held.
  unfoldable pub grow :
      (size alignment : ℕ) → Heap T → Option ℕ × Windows → Option ℕ × Heap T × Windows
  grow size alignment h (none, w) = (none, h, w)
  grow size alignment h (some a, w) =
      let done = alloc_again size alignment (add_arena a size h) in (done.0, done.1, w)

  unfoldable pub heap_alloc : (size alignment : ℕ) → Heap T → Windows → Option ℕ × Heap T × Windows
  heap_alloc size alignment h w =
      let locked = mutex_lock h in
      let first = lib.tlsf_memalign locked.tlsf alignment size in
      let tried = record locked { tlsf = first.1 } in
      elim first.0 [
        | some a ↦ (some a, mutex_unlock tried, w)
        | none ↦ grow size alignment tried (
            virtual_alloc grant (add64 (arena_size h.grow_increment size) lib.tlsf_pool_overhead) w)
      ]

  unfoldable pub heap_free : (address : ℕ) → Heap T → Heap T
  heap_free address h =
      let locked = mutex_lock h in
      mutex_unlock (record locked { tlsf = lib.tlsf_free locked.tlsf address })
