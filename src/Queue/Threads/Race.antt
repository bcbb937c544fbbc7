-- ===== src/Queue/Threads/Race.antt =====
-- Two threads that push and one that pops, as for the file queue of src/fs.c, which both the callers
-- and the compression thread push on.
use native.Mathlib.Nat.{mod-eq_of_lt}
use evil_engine.Base.{◌==◌, if◌then◌else◌, ◌%◌, ℕ, ◌<◌, ◌≡◌, refl, arith, update}
use evil_engine.Queue.Threads.{
  Shared, Pc, idle, Move, acquire_free, next_tail, write_item, release_used, acquire_used,
  next_head, read_item, start,
}

pub record Threads {ℓ} (A : Type ℓ) : Type ℓ where
  pub shared : Shared A
  pub pc : ℕ → Pc A

pub data Step {ℓ} {A : Type ℓ} (s : Threads A) : Threads A → Type ℓ where
  pick :
      (i : ℕ) {m : Shared A} {p : Pc A}
      → Move s.shared (s.pc i) m p
      → Step s (record { shared = m; pc = update s.pc i p })

pub data Reach {ℓ} {A : Type ℓ} (s : Threads A) : Threads A → Type ℓ where
  here : Reach s s
  next : {t u : Threads A} → Reach s t → Step t u → Reach s u

abbrev pub created {ℓ} : {A : Type ℓ} → ℕ → (ℕ → A) → Threads A
created capacity fresh = record { shared = start capacity fresh; pc = λ i. idle }

-- Thread 0 takes the first slot for `x` and is held up before it writes; thread 1 pushes `y` whole;
-- thread 2 pops, and is given the first slot.
module _ {A : Type 0} (capacity : ℕ) (fresh : ℕ → A) (x y : A) (room : 1 < capacity) where
  -- A pop by a third thread can return what was in memory before anything was written, while a push
  -- that another thread has finished is not returned: this happens in every queue of capacity 2 or
  -- more that two threads push on.
  pub pop_race :
      (s : Threads A) × Reach (created capacity fresh) s
      × (s.shared.pushed 0 ≡ x)
      × (s.shared.pushed 1 ≡ y)
      × (s.pc 1 ≡ idle)
      × (s.shared.head_index ≡ 1)
      × (s.shared.popped 0 ≡ fresh 0)
  pop_race = (
    _,
    next
        (next
          (next
            (next
              (next
                (next
                  (next
                    (next (next here (pick 0 (acquire_free x (omega arith))))
                      (pick 0 (next_tail x (omega arith))))
                    (pick 1 (acquire_free y (omega arith))))
                  (pick 1 (next_tail y (omega arith))))
                (pick 1 (write_item y (1 % capacity))))
              (pick 1 release_used))
            (pick 2 (acquire_used (omega arith))))
          (pick 2 (next_head (omega arith))))
        (pick 2 (read_item (0 % capacity))),
    refl,
    refl,
    refl,
    refl,
    unwritten,
  )
    where
      unwritten : (if (1 % capacity) == (0 % capacity) then y else fresh (0 % capacity)) ≡ fresh 0
      unwritten = ground (
        arith,
        mod-eq_of_lt {n = 0} {m = capacity} (omega arith),
        mod-eq_of_lt {n = 1} {m = capacity} (omega arith),
      )
