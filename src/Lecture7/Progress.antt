-- ===== src/Lecture7/Progress.antt =====
-- No thread of src/lecture7.c waits for ever at the mutex.
use evil_engine.Base.{
  sum_below, sum_below-update, ℕ, zero, suc, ◌+◌, ◌*◌, ◌^◌, ◌<◌, ◌≡◌, ◌⊎◌, refl, ap, ◌∙◌, arith,
  true, false, ◌==◌, inl, inr, Bool-cases, Option-cases, none, some, List,
}
use evil_engine.Lecture7.{
  Thread, between, locked, loaded, stored, State, mutex, thread_count, timed_test, at_place, lock,
  turn_at, turn, run,
}
use evil_engine.Lecture7.Mutex.{
  is_between, AreThreads, IsCounting, run-IsCounting, timed_test-IsCounting,
}

-- How many turns a thread needs until it has returned.
abbrev pub turns : Thread → ℕ
turns (between left) = 4 * left
turns (locked left) = 4 * left + 3
turns (loaded n left) = 4 * left + 2
turns (stored left) = 4 * left + 1

abbrev pub turns_left : State → ℕ
turns_left s = sum_below turns thread_count s.threads

-- A thread that does not wait.
pub record CanMove (s : State) : Type 0 where
  pub thread : ℕ
  pub small : thread < thread_count
  pub after : State
  pub moved : turn mutex thread s ≡ some after
  pub closer : turns_left after + 1 ≡ turns_left s

owner-CanMove :
    (s : State) (t : ℕ) (place : Thread)
    → t < thread_count
    → s.threads t ≡ place
    → is_between place ≡ false
    → CanMove s
unfolding turn turn_at
owner-CanMove s t (between left) h at_t busy = absurd (ground arith)
owner-CanMove s t (locked left) h at_t busy = record {
  thread = t;
  small = h;
  after = at_place t (loaded s.counter left) s;
  moved = ap (λ (place : Thread). turn_at mutex t place s) at_t;
  closer = omega (
    arith,
    ap turns at_t,
    sum_below-update turns thread_count t s.threads (loaded s.counter left) h,
  );
}
owner-CanMove s t (loaded n left) h at_t busy = record {
  thread = t;
  small = h;
  after = _;
  moved = ap (λ (place : Thread). turn_at mutex t place s) at_t;
  closer =
      omega (arith, ap turns at_t, sum_below-update turns thread_count t s.threads (stored left) h);
}
owner-CanMove s t (stored left) h at_t busy = record {
  thread = t;
  small = h;
  after = _;
  moved = ap (λ (place : Thread). turn_at mutex t place s) at_t;
  closer =
      omega
        (arith, ap turns at_t, sum_below-update turns thread_count t s.threads (between left) h);
}

first-CanMove :
    (s : State) (t left : ℕ)
    → t < thread_count
    → s.owner ≡ none
    → s.threads t ≡ between (suc left)
    → CanMove s
unfolding turn turn_at
first-CanMove s t left h free at_t = record {
  thread = t;
  small = h;
  after = _;
  moved =
      ap (λ (place : Thread). turn_at mutex t place s) at_t
      ∙ ap (λ owner. lock t left owner s) free;
  closer =
      omega (arith, ap turns at_t, sum_below-update turns thread_count t s.threads (locked left) h);
}

-- Below `n` all threads have returned, or one of them has a round before it.
waiting :
    (n : ℕ) (threads : ℕ → Thread)
    → ((t : ℕ) → is_between (threads t) ≡ true)
    → ((t : ℕ) → t < n → threads t ≡ between 0)
      ⊎ ((t : ℕ) × (left : ℕ) × (t < n) × (threads t ≡ between (suc left)))
waiting zero threads idle = inl (λ t h. absurd (omega arith))
waiting (suc n) threads idle = elim (waiting n threads idle) [
  | inr (t, left, h, e) ↦ inr (t, left, omega arith, e)
  | inl done ↦ last done (threads n) refl
]
  where
    last :
        ((t : ℕ) → t < n → threads t ≡ between 0)
        → (place : Thread) → threads n ≡ place
        → ((t : ℕ) → t < suc n → threads t ≡ between 0)
          ⊎ ((t : ℕ) × (left : ℕ) × (t < suc n) × (threads t ≡ between (suc left)))
    last done (between zero) e = inl (λ t h. elim (Bool-cases (t == n)) [
      | inl same ↦ let t_n : t ≡ n = ground arith in ap threads t_n ∙ e
      | inr other ↦ done t (ground arith)
    ])
    last done (between (suc left)) e = inr (n, left, omega arith, e)
    last done (locked left) e = absurd (ground (arith, ap is_between e, idle n))
    last done (loaded m left) e = absurd (ground (arith, ap is_between e, idle n))
    last done (stored left) e = absurd (ground (arith, ap is_between e, idle n))

-- Whatever turns the eight threads have had: all of them have returned, or one of them does not wait,
-- and its turn leaves one turn less of those that are needed until all have returned.
pub mutex_progress :
    (rounds : ℕ) (schedule : List ℕ)
    → thread_count * rounds < 2 ^ 32
    → AreThreads schedule
    → ((t : ℕ) → t < thread_count → (run mutex schedule (timed_test rounds)).threads t ≡ between 0)
      ⊎ CanMove (run mutex schedule (timed_test rounds))
mutex_progress rounds schedule small threads =
    let s = run mutex schedule (timed_test rounds) in
    let c : IsCounting (thread_count * rounds) s =
      run-IsCounting (thread_count * rounds) schedule (timed_test rounds) small threads
        (timed_test-IsCounting rounds) in
    elim (Option-cases s.owner) [
      | inr (t, held) ↦
          let (busy, h) = c.owned t held in inr (owner-CanMove s t (s.threads t) h refl busy)
      | inl free ↦
          elim (waiting thread_count s.threads (λ t. c.alone t (λ e. ground (arith, free)))) [
            | inl done ↦ inl done
            | inr (t, left, h, e) ↦ inr (first-CanMove s t left h free e)
          ]
    ]
