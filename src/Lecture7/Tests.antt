-- ===== src/Lecture7/Tests.antt =====
-- The threads of src/lecture7.c with one round each, and with none.
use evil_engine.Base.{ℕ, zero, suc, ◌*◌, ◌<◌, ◌≡◌, ◌⊎◌, refl, arith, List, [], ◌∷◌}
use evil_engine.Lecture7.{
  between, mutex, no_synchronization, thread_count, round_count, timed_test, turn_at, turn, run,
}
use evil_engine.Lecture7.Mutex.{AreThreads, mutex_total}
use evil_engine.Lecture7.Progress.{CanMove, mutex_progress}

-- The first four threads wait for each other, and all come to their end.
abbrev turns_of_all : List ℕ
turns_of_all =
    0 ∷ 1 ∷ 0 ∷ 0 ∷ 1 ∷ 0 ∷ 1 ∷ 2 ∷ 1 ∷ 1 ∷ 1 ∷ 2 ∷ 2 ∷ 2 ∷ 2 ∷ 3 ∷ 3 ∷ 3 ∷ 3 ∷ 4 ∷ 4 ∷ 4 ∷ 4 ∷ 5
    ∷ 5 ∷ 5 ∷ 5 ∷ 6 ∷ 6 ∷ 6 ∷ 6 ∷ 7 ∷ 7 ∷ 7 ∷ 7 ∷ []

are_threads : AreThreads turns_of_all
are_threads = (
  omega arith,
  (
    omega arith,
    (
      omega arith,
      (
        omega arith,
        (
          omega arith,
          (
            omega arith,
            (
              omega arith,
              (
                omega arith,
                (
                  omega arith,
                  (
                    omega arith,
                    (
                      omega arith,
                      (
                        omega arith,
                        (
                          omega arith,
                          (
                            omega arith,
                            (
                              omega arith,
                              (
                                omega arith,
                                (
                                  omega arith,
                                  (
                                    omega arith,
                                    (
                                      omega arith,
                                      (
                                        omega arith,
                                        (
                                          omega arith,
                                          (
                                            omega arith,
                                            (
                                              omega arith,
                                              (
                                                omega arith,
                                                (
                                                  omega arith,
                                                  (
                                                    omega arith,
                                                    (
                                                      omega arith,
                                                      (
                                                        omega arith,
                                                        (
                                                          omega arith,
                                                          (
                                                            omega arith,
                                                            (
                                                            omega arith,
                                                            (
                                                            omega arith,
                                                            (
                                                            omega arith,
                                                            (omega arith, (omega arith, tt)),
                                                            ),
                                                            ),
                                                            ),
                                                          ),
                                                        ),
                                                      ),
                                                    ),
                                                  ),
                                                ),
                                              ),
                                            ),
                                          ),
                                        ),
                                      ),
                                    ),
                                  ),
                                ),
                              ),
                            ),
                          ),
                        ),
                      ),
                    ),
                  ),
                ),
              ),
            ),
          ),
        ),
      ),
    ),
  ),
)

returned :
    (t : ℕ) → t < thread_count → (run mutex turns_of_all (timed_test 1)).threads t ≡ between 0
unfolding run turn turn_at timed_test
returned zero h = refl
returned (suc zero) h = refl
returned (suc (suc zero)) h = refl
returned (suc (suc (suc zero))) h = refl
returned (suc (suc (suc (suc zero)))) h = refl
returned (suc (suc (suc (suc (suc zero))))) h = refl
returned (suc (suc (suc (suc (suc (suc zero)))))) h = refl
returned (suc (suc (suc (suc (suc (suc (suc zero))))))) h = refl
returned (suc (suc (suc (suc (suc (suc (suc (suc t)))))))) h = absurd (omega arith)

mutex_total_example : (run mutex turns_of_all (timed_test 1)).counter ≡ thread_count * 1
mutex_total_example = mutex_total 1 turns_of_all (omega arith) are_threads returned

mutex_progress_example :
    ((t : ℕ)
      → t < thread_count
      → (run mutex (0 ∷ 1 ∷ 0 ∷ []) (timed_test round_count)).threads t ≡ between 0)
    ⊎ CanMove (run mutex (0 ∷ 1 ∷ 0 ∷ []) (timed_test round_count))
mutex_progress_example =
    mutex_progress round_count (0 ∷ 1 ∷ 0 ∷ []) (omega arith)
      (omega arith, (omega arith, (omega arith, tt)))

-- Two threads without synchronization can lose a round.
lost_update : (run no_synchronization (0 ∷ 1 ∷ 0 ∷ 1 ∷ []) (timed_test 1)).counter ≡ 1
unfolding run turn turn_at timed_test
lost_update = refl
