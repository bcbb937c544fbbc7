-- ===== src/Heap/Tests.antt =====
-- A heap of src/heap.c on small inputs, over an allocator that hands out one pool from the front.
use evil_engine.Base.{
  ℕ, ◌+◌, ◌*◌, ◌≡◌, refl, Option, none, some, List, [], ◌∷◌, ◌++◌, length, leb, ◌==◌, if◌then◌else◌,
}
use evil_engine.Heap.{Tlsf, Windows, Heap, virtual_alloc, created, heap_create, heap_destroy}
use evil_engine.Heap.Lifetime.{Call, alloc, free, run_calls, reverse_append, heap_lifetime}

abbrev bump : Tlsf (ℕ × ℕ)
bump = record {
  tlsf_size = 64;
  tlsf_pool_overhead = 16;
  tlsf_create = λ memory. (0, 0);
  tlsf_add_pool = λ pool memory size. (memory, memory + size);
  tlsf_memalign = λ pool alignment size.
      if leb (pool.0 + size) pool.1 then (some pool.0, (pool.0 + size, pool.1)) else (none, pool);
  tlsf_free = λ pool address. pool;
}

-- Windows refuses the third request.
abbrev grant : ℕ → ℕ → Option ℕ
grant k size = if k == 2 then none else some (65536 * (k + 1))

abbrev nothing : Windows
nothing = record { calls = 0; reserved = []; released = [] }

abbrev some_calls : List Call
some_calls = alloc 100 8 ∷ alloc 5000 8 ∷ free 65536 ∷ alloc 20 8 ∷ alloc 9000 8 ∷ []

abbrev fresh : Heap (ℕ × ℕ)
fresh = record { address = 65536; tlsf = (0, 0); grow_increment = 4096; arenas = []; held = 0 }

abbrev once : Windows
once = record { calls = 1; reserved = 65536 ∷ []; released = [] }

fresh-once : heap_create bump grant 4096 nothing ≡ (some fresh, once)
unfolding heap_create created virtual_alloc
fresh-once = refl

heap_lifetime_example :
    let done = run_calls bump grant some_calls fresh once in
    let after = heap_destroy done.0 done.1 in
    (addresses : List ℕ) × (after.reserved ≡ addresses ++ [])
    × (after.released ≡ reverse_append addresses [])
    × (done.0.held + length addresses + 0 ≡ after.calls)
heap_lifetime_example = heap_lifetime bump grant 4096 nothing some_calls fresh once fresh-once
