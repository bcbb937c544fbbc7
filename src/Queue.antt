-- ===== src/Queue.antt =====
-- src/queue.c over src/semaphore.c and src/atomic.c: a bounded queue between threads.
-- A semaphore is its count; an operation that would wait is not enabled, or gives `none`.
pub mod Fifo
pub mod Run
pub mod Threads
mod Tests
use evil_engine.Base.{
  ℕ, ◌+◌, ◌-◌, ◌%◌, ◌^◌, ◌<◌, Bool, true, false, Option, none, some, ltb, ◌==◌, if◌then◌else◌, CInt,
  add32, mod_int, update,
}

-- `items` is read below `capacity`.
pub record Queue {ℓ} (A : Type ℓ) : Type ℓ where
  pub used_items : ℕ
  pub free_items : ℕ
  pub items : ℕ → A
  pub capacity : ℕ
  pub head_index : CInt
  pub tail_index : CInt

-- `WaitForSingleObject(semaphore, 0)`: takes one if there is one.
abbrev pub semaphore_try_acquire : ℕ → Option ℕ
semaphore_try_acquire count = if count == 0 then none else some (count - 1)

-- `ReleaseSemaphore(semaphore, 1, NULL)`: fails at the maximum and then changes nothing.
abbrev pub semaphore_release : ℕ → ℕ → ℕ
semaphore_release max_count count = if ltb count max_count then count + 1 else count

module _ {ℓ} {A : Type ℓ} where
  unfoldable pub queue_create : (ℕ → A) → ℕ → Queue A
  queue_create fresh capacity = record {
    used_items = 0;
    free_items = capacity;
    items = fresh;
    capacity = capacity;
    head_index = 0;
    tail_index = 0;
  }

  -- What `queue_push` does once `free_items` has been taken down to `free`.
  unfoldable pub push_acquired : Queue A → ℕ → A → Queue A
  push_acquired q free item = record q {
    free_items = free;
    tail_index = add32 q.tail_index 1;
    items = update q.items (mod_int q.tail_index q.capacity) item;
    used_items = semaphore_release q.capacity q.used_items;
  }

  -- What `queue_pop` does once `used_items` has been taken down to `used`.
  unfoldable pub pop_acquired : Queue A → ℕ → A × Queue A
  pop_acquired q used = (
    q.items (mod_int q.head_index q.capacity),
    record q {
      used_items = used;
      head_index = add32 q.head_index 1;
      free_items = semaphore_release q.capacity q.free_items;
    },
  )

  unfoldable pub queue_try_push : Queue A → A → Bool × Queue A
  unfolding push_acquired
  queue_try_push q item = elim (semaphore_try_acquire q.free_items) [
    | none ↦ (false, q)
    | some free ↦ (true, push_acquired q free item)
  ]

  unfoldable pub queue_try_pop : Queue A → Option A × Queue A
  unfolding pop_acquired
  queue_try_pop q = elim (semaphore_try_acquire q.used_items) [
    | none ↦ (none, q)
    | some used ↦ let (item, q') = pop_acquired q used in (some item, q')
  ]

  -- `none` while the call waits.
  unfoldable pub queue_push : Queue A → A → Option (Queue A)
  unfolding push_acquired
  queue_push q item = elim (semaphore_try_acquire q.free_items) [
    | none ↦ none
    | some free ↦ some (push_acquired q free item)
  ]

  unfoldable pub queue_pop : Queue A → Option (A × Queue A)
  unfolding pop_acquired
  queue_pop q = elim (semaphore_try_acquire q.used_items) [
    | none ↦ none
    | some used ↦ some (pop_acquired q used)
  ]
