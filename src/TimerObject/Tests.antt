-- ===== src/TimerObject/Tests.antt =====
-- The timer objects of src/timer_object.c on small inputs.
use evil_engine.Base.{map, ◌≡◌, ℕ, ◌+◌, ◌*◌, ◌≤◌, arith, List, [], ◌∷◌, none, false}
use evil_engine.TimerObject.{TimerObject, create}
use evil_engine.TimerObject.Elapsed.{
  Event, tick, pause_at, resume_at, run, run-le, run-exact, last_time,
}

-- Scales that are whole numbers.
abbrev scale_by : ℕ → ℕ → ℕ
scale_by ticks s = ticks * s

abbrev no_timers : ℕ → TimerObject ℕ
no_timers i = record {
  current_ticks = 0;
  delta_ticks = 0;
  parent = none;
  bias_ticks = 0;
  scale = 1;
  paused = false;
}

abbrev events : List Event
events = tick 15 ∷ pause_at 20 ∷ tick 30 ∷ resume_at 40 ∷ tick 47 ∷ []

run-le_example :
    (run 1 scale_by no_timers
        (λ t h. omega arith)
        (create 1 scale_by no_timers none 10)
        events).current_ticks
      + 10
    ≤ 50
run-le_example =
    run-le 1 scale_by no_timers (λ t h. omega arith) events 10 50
      (omega arith, (omega arith, (omega arith, (omega arith, (omega arith, omega arith)))))
      (omega arith)

run-exact_example :
    (run 1 scale_by no_timers
        (λ t h. omega arith)
        (create 1 scale_by no_timers none 10)
        (map tick (15 ∷ 30 ∷ []))).current_ticks
      + 10
    ≡ last_time 10 (15 ∷ 30 ∷ [])
run-exact_example =
    run-exact 1 scale_by no_timers (λ t h. omega arith) (15 ∷ 30 ∷ []) 10 50
      (omega arith, (omega arith, omega arith)) (omega arith)
