-- ===== src/Heap/Lifetime.antt =====
-- The memory of a heap of src/heap.c from its creation to its end, and its mutex.
use mathlib.Core.List.{append_assoc}
use evil_engine.Base.{
  ℕ, ◌+◌, ◌≤◌, ◌≡◌, refl, sym, ap, ◌∙◌, arith, Option, none, some, List, [], ◌∷◌, ◌++◌, length,
  length-append, add64, inl, inr, Option-cases,
}
use evil_engine.Heap.{
  Tlsf, Windows, Heap, virtual_alloc, virtual_free, free_arenas, created, heap_create, grow,
  alloc_again, add_arena, heap_alloc, heap_free, heap_destroy, heap_struct_size,
}

-- A call of the owner of a heap.
pub data Call : Type 0 where
  alloc : (size alignment : ℕ) → Call
  free : (address : ℕ) → Call

abbrev pub reverse_append : List ℕ → List ℕ → List ℕ
reverse_append [] ys = ys
reverse_append (x ∷ xs) ys = reverse_append xs (x ∷ ys)

virtual_alloc-none :
    (grant : ℕ → ℕ → Option ℕ) (size : ℕ) (w : Windows)
    → grant w.calls size ≡ none
    → virtual_alloc grant size w ≡ (none, record w { calls = w.calls + 1 })
unfolding virtual_alloc
virtual_alloc-none grant size w h = rw (virtual_alloc, h) refl

virtual_alloc-some :
    (grant : ℕ → ℕ → Option ℕ) (size : ℕ) (w : Windows) (a : ℕ)
    → grant w.calls size ≡ some a
    → virtual_alloc grant size w
      ≡ (some a, record w { calls = w.calls + 1; reserved = a ∷ w.reserved })
unfolding virtual_alloc
virtual_alloc-some grant size w a h = rw (virtual_alloc, h) refl

free_arenas-reserved :
    (arenas : List ℕ) (w : Windows) → (free_arenas arenas w).reserved ≡ w.reserved
unfolding free_arenas virtual_free
free_arenas-reserved [] w = refl
free_arenas-reserved (a ∷ arenas) w = free_arenas-reserved arenas (virtual_free a w)

free_arenas-calls : (arenas : List ℕ) (w : Windows) → (free_arenas arenas w).calls ≡ w.calls
unfolding free_arenas virtual_free
free_arenas-calls [] w = refl
free_arenas-calls (a ∷ arenas) w = free_arenas-calls arenas (virtual_free a w)

free_arenas-released :
    (arenas : List ℕ) (w : Windows) (last : ℕ)
    → last ∷ (free_arenas arenas w).released ≡ reverse_append (arenas ++ (last ∷ [])) w.released
unfolding free_arenas virtual_free
free_arenas-released [] w last = refl
free_arenas-released (a ∷ arenas) w last = free_arenas-released arenas (virtual_free a w) last

module _ {T : Type 0} (lib : Tlsf T) (grant : ℕ → ℕ → Option ℕ) where
  unfoldable pub run_calls : List Call → Heap T → Windows → Heap T × Windows
  run_calls [] h w = (h, w)
  run_calls (alloc size alignment ∷ calls) h w =
      let done = heap_alloc lib grant size alignment h w in run_calls calls done.1 done.2
  run_calls (free address ∷ calls) h w = run_calls calls (heap_free lib grant address h) w

  -- The heap is what has been reserved and not released, and the mutex is held once for each
  -- reservation that failed.
  pub record IsOwner (before : Windows) (h : Heap T) (w : Windows) : Type 0 where
    pub owned : w.reserved ≡ h.arenas ++ (h.address ∷ before.reserved)
    pub released : w.released ≡ before.released
    pub failures : h.held + length w.reserved + before.calls ≡ w.calls + length before.reserved

  -- Memory that is given at the lock of the heap, and the arena that it becomes.
  grow-IsOwner :
      (before : Windows) (n size alignment : ℕ) (h : Heap T) (w : Windows)
      → w.reserved ≡ h.arenas ++ (h.address ∷ before.reserved)
      → w.released ≡ before.released
      → 1 ≤ h.held
      → h.held + length w.reserved + before.calls ≡ w.calls + 1 + length before.reserved
      → let done = grow lib grant size alignment h (virtual_alloc grant n w) in
        IsOwner before done.1 done.2
  unfolding grow add_arena alloc_again
  grow-IsOwner before n size alignment h w owned released held failures =
      elim (Option-cases (grant w.calls n)) [
        | inl refused ↦
            rw (virtual_alloc-none grant n w refused)
              (record { owned = owned; released = released; failures = failures })
        | inr (a, granted) ↦ rw (virtual_alloc-some grant n w a granted) (record {
          owned = ap (λ (l : List ℕ). a ∷ l) owned;
          released = released;
          failures = omega arith;
        })
      ]

  heap_alloc-IsOwner :
      (before : Windows) (size alignment : ℕ) (h : Heap T) (w : Windows)
      → IsOwner before h w
      → let done = heap_alloc lib grant size alignment h w in IsOwner before done.1 done.2
  unfolding heap_alloc
  heap_alloc-IsOwner before size alignment h w own =
      elim (Option-cases (lib.tlsf_memalign h.tlsf alignment size).0) [
        | inr (a, found) ↦
            rw (heap_alloc, found)
              (record {
                owned = own.owned;
                released = own.released;
                failures = omega (arith, own.failures);
              })
        | inl full ↦
            rw (heap_alloc, full)
              (grow-IsOwner before _ size alignment _ w own.owned own.released (omega arith)
                (omega (arith, own.failures)))
      ]

  run_calls-IsOwner :
      (before : Windows) (calls : List Call) (h : Heap T) (w : Windows)
      → IsOwner before h w
      → let done = run_calls calls h w in IsOwner before done.0 done.1
  unfolding run_calls heap_free
  run_calls-IsOwner before [] h w own = own
  run_calls-IsOwner before (alloc size alignment ∷ calls) h w own =
      run_calls-IsOwner before calls _ _ (heap_alloc-IsOwner before size alignment h w own)
  run_calls-IsOwner before (free address ∷ calls) h w own =
      run_calls-IsOwner before calls _ w (record {
        owned = own.owned;
        released = own.released;
        failures = omega (arith, own.failures);
      })

  -- What a creation gives is an owner, if it gives a heap.
  abbrev IsOwned : Windows → Option (Heap T) × Windows → Type 0
  IsOwned before (none, w) = Unit
  IsOwned before (some h, w) = IsOwner before h w

  heap_create-IsOwned :
      (grow_increment : ℕ) (w : Windows) → IsOwned w (heap_create lib grant grow_increment w)
  unfolding heap_create created
  heap_create-IsOwned grow_increment w =
      let size = add64 heap_struct_size lib.tlsf_size in
      elim (Option-cases (grant w.calls size)) [
        | inl refused ↦ rw (virtual_alloc-none grant size w refused) tt
        | inr (a, granted) ↦
            rw (virtual_alloc-some grant size w a granted)
              (record { owned = refl; released = refl; failures = omega arith })
      ]

  -- Whatever a thread asks of a heap that it has created: destroying it releases each address that
  -- was reserved for it, once. And the mutex is held as many times as a reservation has failed.
  pub heap_lifetime :
      (grow_increment : ℕ) (w : Windows) (calls : List Call) (h : Heap T) (w1 : Windows)
      → heap_create lib grant grow_increment w ≡ (some h, w1)
      → let done = run_calls calls h w1 in
        let after = heap_destroy done.0 done.1 in
        (addresses : List ℕ) × (after.reserved ≡ addresses ++ w.reserved)
        × (after.released ≡ reverse_append addresses w.released)
        × (done.0.held + length addresses + w.calls ≡ after.calls)
  unfolding heap_destroy virtual_free
  heap_lifetime grow_increment w calls h w1 e =
      let done = run_calls calls h w1 in
      let own = run_calls-IsOwner w calls h w1 (rw (e) at (heap_create-IsOwned grow_increment w)) in
      (
        done.0.arenas ++ (done.0.address ∷ []),
        free_arenas-reserved done.0.arenas done.1
            ∙ own.owned
            ∙ sym (append_assoc done.0.arenas (done.0.address ∷ []) w.reserved),
        free_arenas-released done.0.arenas done.1 done.0.address
            ∙ ap (reverse_append (done.0.arenas ++ (done.0.address ∷ []))) own.released,
        omega (
          arith,
          own.failures,
          ap length own.owned,
          free_arenas-calls done.0.arenas done.1,
          length-append done.0.arenas (done.0.address ∷ []),
          length-append done.0.arenas (done.0.address ∷ w.reserved),
        ),
      )
