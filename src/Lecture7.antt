-- ===== src/Lecture7.antt =====
-- src/lecture7.c: threads that count together, with and without synchronization.
-- A turn of a thread is one access of the counter, one atomic increment, or one call of the mutex. The
-- threads have been started, and the mutex knows its owner.
pub mod Mutex
pub mod Progress
mod Tests
use evil_engine.Base.{ℕ, zero, suc, ◌+◌, Option, none, some, List, [], ◌∷◌, CInt, add32, update}

-- `_countof(threads)` and the rounds of each.
abbrev pub thread_count : ℕ
thread_count = 8

abbrev pub round_count : ℕ
round_count = 100000

-- The function that the threads run.
pub data ThreadFunc : Type 0 where
  no_synchronization atomic_load_store atomic_increment mutex : ThreadFunc

-- Where a thread is, with the rounds left behind the one that it is in.
pub data Thread : Type 0 where
  between : (left : ℕ) → Thread
  locked : (left : ℕ) → Thread
  loaded : (counter : CInt) (left : ℕ) → Thread
  stored : (left : ℕ) → Thread

pub record State : Type 0 where
  pub counter : CInt
  pub owner : Option ℕ
  pub threads : ℕ → Thread

unfoldable pub timed_test : (rounds : ℕ) → State
timed_test rounds = record { counter = 0; owner = none; threads = λ t. between rounds }

abbrev pub at_place : ℕ → Thread → State → State
at_place t place s = record s { threads = update s.threads t place }

abbrev pub count : CInt → State → State
count n s = record s { counter = n }

abbrev pub owned_by : Option ℕ → State → State
owned_by owner s = record s { owner = owner }

abbrev pub lock : ℕ → (left : ℕ) → Option ℕ → State → Option State
lock t left none s = some (at_place t (locked left) (owned_by (some t) s))
lock t left (some other) s = none

-- What thread `t` does next, `none` where it waits or has returned.
unfoldable pub turn_at : ThreadFunc → ℕ → Thread → State → Option State
turn_at func t (between zero) s = none
turn_at no_synchronization t (between (suc left)) s = some (at_place t (loaded s.counter left) s)
turn_at no_synchronization t (loaded n left) s =
    some (at_place t (between left) (count (add32 n 1) s))
turn_at atomic_load_store t (between (suc left)) s = some (at_place t (loaded s.counter left) s)
turn_at atomic_load_store t (loaded n left) s =
    some (at_place t (between left) (count (add32 n 1) s))
turn_at atomic_increment t (between (suc left)) s =
    some (at_place t (between left) (count (add32 s.counter 1) s))
turn_at mutex t (between (suc left)) s = lock t left s.owner s
turn_at mutex t (locked left) s = some (at_place t (loaded s.counter left) s)
turn_at mutex t (loaded n left) s = some (at_place t (stored left) (count (add32 n 1) s))
turn_at mutex t (stored left) s = some (at_place t (between left) (owned_by none s))
turn_at func t place s = none

unfoldable pub turn : ThreadFunc → ℕ → State → Option State
turn func t s = turn_at func t (s.threads t) s

-- The threads in the order that the machine gives them turns; one that waits loses its turn.
unfoldable pub run : ThreadFunc → List ℕ → State → State
run func [] s = s
run func (t ∷ schedule) s = elim (turn func t s) [
  | none ↦ run func schedule s
  | some s' ↦ run func schedule s'
]
