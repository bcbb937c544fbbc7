-- ===== src/Heap/Grow.antt =====
-- How large the arena is that src/heap.c reserves when its pools have no room.
use evil_engine.Base.{ℕ, ◌+◌, ◌*◌, ◌^◌, ◌≤◌, ◌<◌, arith, add64}
use evil_engine.Heap.{arena_size, arena_struct_size}

-- For sizes below 2^62: the pool that TLSF is given lies in the reserved bytes behind `arena_t`, if the
-- overhead of a pool is at least that struct, and has room for the request twice and for the increment.
pub arena_room :
    (grow_increment size overhead : ℕ)
    → grow_increment < 2 ^ 62
    → size < 2 ^ 62
    → arena_struct_size ≤ overhead
    → overhead < 2 ^ 62
    → (arena_struct_size + arena_size grow_increment size
        ≤ add64 (arena_size grow_increment size) overhead)
      × (size * 2 + arena_struct_size ≤ arena_size grow_increment size)
      × (grow_increment + arena_struct_size ≤ arena_size grow_increment size)
unfolding arena_size
arena_room grow_increment size overhead g s least most = (omega arith, omega arith, omega arith)
