-- ===== src/Queue/Threads.antt =====
-- `queue_push` and `queue_pop` of src/queue.c by threads that interleave. A step is one semaphore
-- operation, one atomic increment, or one access of an item; which thread steps next is free.
-- `pushed` and `popped` are no memory of the queue: they record what was pushed at each tail index
-- and popped at each head index.
pub mod Pair
pub mod Race
use evil_engine.Base.{ℕ, ◌+◌, ◌-◌, ◌%◌, ◌^◌, ◌<◌, update}

pub record Shared {ℓ} (A : Type ℓ) : Type ℓ where
  pub capacity : ℕ
  pub used_items : ℕ
  pub free_items : ℕ
  pub items : ℕ → A
  pub head_index : ℕ
  pub tail_index : ℕ
  pub pushed : ℕ → A
  pub popped : ℕ → A

-- Where a thread is: between calls, or behind a line of `queue_push` or `queue_pop`.
pub data Pc {ℓ} (A : Type ℓ) : Type ℓ where
  idle : Pc A
  push_acquired : A → Pc A
  push_indexed : A → ℕ → Pc A
  push_written : Pc A
  pop_acquired : Pc A
  pop_indexed : ℕ → Pc A
  pop_read : Pc A

-- One step of one thread. The indices are counted below 2^31, where they do not wrap.
pub data Move {ℓ} {A : Type ℓ} (s : Shared A) : Pc A → Shared A → Pc A → Type ℓ where
  acquire_free :
      (x : A)
      → 0 < s.free_items
      → Move s idle (record s { free_items = s.free_items - 1 }) (push_acquired x)
  next_tail :
      (x : A)
      → s.tail_index + 1 < 2 ^ 31
      → Move s
          (push_acquired x)
          (record s { tail_index = s.tail_index + 1; pushed = update s.pushed s.tail_index x })
          (push_indexed x (s.tail_index % s.capacity))
  write_item :
      (x : A) (i : ℕ)
      → Move s (push_indexed x i) (record s { items = update s.items i x }) push_written
  release_used : Move s push_written (record s { used_items = s.used_items + 1 }) idle
  acquire_used :
      0 < s.used_items → Move s idle (record s { used_items = s.used_items - 1 }) pop_acquired
  next_head :
      s.head_index + 1 < 2 ^ 31
      → Move s pop_acquired
          (record s { head_index = s.head_index + 1 })
          (pop_indexed (s.head_index % s.capacity))
  read_item :
      (i : ℕ)
      → Move s
          (pop_indexed i)
          (record s { popped = update s.popped (s.head_index - 1) (s.items i) })
          pop_read
  release_free : Move s pop_read (record s { free_items = s.free_items + 1 }) idle

-- `queue_create`
abbrev pub start {ℓ} : {A : Type ℓ} → ℕ → (ℕ → A) → Shared A
start capacity fresh = record {
  capacity = capacity;
  used_items = 0;
  free_items = capacity;
  items = fresh;
  head_index = 0;
  tail_index = 0;
  pushed = fresh;
  popped = fresh;
}
