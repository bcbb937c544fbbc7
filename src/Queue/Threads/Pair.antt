-- ===== src/Queue/Threads/Pair.antt =====
-- One thread that pushes and one that pops, as for the queues of src/render.c and of a connection's
-- receive side in src/net.c.
use evil_engine.Base.{ℕ, ◌+◌, ◌-◌, ◌%◌, ◌≤◌, ◌<◌, ◌≡◌}
use evil_engine.Queue.Threads.{
  Shared, Pc, idle, push_acquired, push_indexed, push_written, pop_acquired, pop_indexed, pop_read,
  Move, start,
}

-- Where a thread that only pushes, or only pops, can be.
abbrev pub IsPusher {ℓ} : {A : Type ℓ} → Pc A → Type 0
IsPusher idle = Unit
IsPusher (push_acquired x) = Unit
IsPusher (push_indexed x i) = Unit
IsPusher push_written = Unit
IsPusher pop_acquired = ⊥
IsPusher (pop_indexed i) = ⊥
IsPusher pop_read = ⊥

abbrev pub IsPopper {ℓ} : {A : Type ℓ} → Pc A → Type 0
IsPopper idle = Unit
IsPopper (push_acquired x) = ⊥
IsPopper (push_indexed x i) = ⊥
IsPopper push_written = ⊥
IsPopper pop_acquired = Unit
IsPopper (pop_indexed i) = Unit
IsPopper pop_read = Unit

pub record System {ℓ} (A : Type ℓ) : Type ℓ where
  pub shared : Shared A
  pub producer : Pc A
  pub consumer : Pc A

pub data Step {ℓ} {A : Type ℓ} (s : System A) : System A → Type ℓ where
  produce :
      {m : Shared A} {p : Pc A}
      → Move s.shared s.producer m p
      → IsPusher p
      → Step s (record s { shared = m; producer = p })
  consume :
      {m : Shared A} {p : Pc A}
      → Move s.shared s.consumer m p
      → IsPopper p
      → Step s (record s { shared = m; consumer = p })

pub data Reach {ℓ} {A : Type ℓ} (capacity : ℕ) (fresh : ℕ → A) : System A → Type ℓ where
  created :
      Reach capacity fresh
        (record { shared = start capacity fresh; producer = idle; consumer = idle })
  later : {s t : System A} → Reach capacity fresh s → Step s t → Reach capacity fresh t

-- A slot taken from a semaphore and not yet given to the other, an index taken and not yet released,
-- and an index taken whose access is still to come.
abbrev pub holds {ℓ} : {A : Type ℓ} → Pc A → ℕ
holds idle = 0
holds _ = 1

abbrev pub indexed {ℓ} : {A : Type ℓ} → Pc A → ℕ
indexed (push_indexed x i) = 1
indexed push_written = 1
indexed (pop_indexed i) = 1
indexed pop_read = 1
indexed _ = 0

abbrev pub waiting {ℓ} : {A : Type ℓ} → Pc A → ℕ
waiting (push_indexed x i) = 1
waiting (pop_indexed i) = 1
waiting _ = 0

-- What a thread in the middle of a call remembers.
abbrev pub Remembers {ℓ} : {A : Type ℓ} → Shared A → Pc A → Type ℓ
Remembers s (push_indexed x i) =
    (i ≡ (s.tail_index - 1) % s.capacity) × (s.pushed (s.tail_index - 1) ≡ x) × (0 < s.tail_index)
Remembers s (pop_indexed i) = (i ≡ (s.head_index - 1) % s.capacity) × (0 < s.head_index) × Unit {ℓ}
Remembers s _ = Unit {ℓ}

pub record Inv {ℓ} {A : Type ℓ} (m : Shared A) (p c : Pc A) : Type ℓ where
  pub pusher : IsPusher p
  pub popper : IsPopper c
  pub slots : m.free_items + holds p + m.used_items + holds c ≡ m.capacity
  pub indices : m.tail_index + indexed c ≡ m.head_index + m.used_items + holds c + indexed p
  pub producer_knows : Remembers m p
  pub consumer_knows : Remembers m c
  pub stored :
      (k : ℕ)
      → m.head_index ≤ k + waiting c
      → k + waiting p < m.tail_index
      → m.items (k % m.capacity) ≡ m.pushed k
  pub fifo : (k : ℕ) → k + waiting c < m.head_index → m.popped k ≡ m.pushed k
