-- ===== src/Queue/Tests.antt =====
-- The queue of src/queue.c on small inputs.
use evil_engine.Base.{ℕ, ◌≡◌, arith, List, [], ◌∷◌, update}
use evil_engine.Queue.{Queue, queue_create}
use evil_engine.Queue.Fifo.{IsQueue, contents}
use evil_engine.Queue.Run.{Op, push, pop, run, fifo_run, run_refines}
use evil_engine.Queue.Threads.{idle, acquire_free, next_tail, write_item, release_used, start}
use evil_engine.Queue.Threads.Pair.{System, Reach, created, later, produce}
use evil_engine.Queue.Threads.Race.{pop_race, Threads}
use evil_engine.Queue.Threads.Race

abbrev two_slots : Queue ℕ
two_slots = queue_create (λ i. 0) 2

two_slots-IsQueue : IsQueue two_slots
unfolding queue_create
two_slots-IsQueue = record {
  some_room = omega arith;
  slots = omega arith;
  indices = omega arith;
  young = omega arith;
}

-- The third push finds the queue full.
abbrev calls : List (Op ℕ)
calls = push 7 ∷ push 8 ∷ push 9 ∷ pop ∷ pop ∷ pop ∷ []

run_refines_example : run two_slots calls ≡ fifo_run 2 (contents two_slots) calls
unfolding queue_create
run_refines_example = run_refines calls two_slots two_slots-IsQueue (omega arith)

-- One item pushed, by the four steps of a push.
abbrev after_push : System ℕ
after_push = record {
  shared = record (start 2 (λ i. 0)) {
    free_items = 1;
    tail_index = 1;
    pushed = update (λ i. 0) 0 7;
    items = update (λ i. 0) 0 7;
    used_items = 1;
  };
  producer = idle;
  consumer = idle;
}

pushed : Reach 2 (λ i. 0) after_push
pushed =
    later
      (later
        (later (later created (produce (acquire_free 7 (omega arith)) tt))
          (produce (next_tail 7 (omega arith)) tt))
        (produce (write_item 7 0) tt))
      (produce release_used tt)

pop_race_example :
    (s : Threads ℕ) × Race.Reach (Race.created 2 (λ i. 9)) s
    × (s.shared.pushed 0 ≡ 7)
    × (s.shared.pushed 1 ≡ 8)
    × (s.pc 1 ≡ idle)
    × (s.shared.head_index ≡ 1)
    × (s.shared.popped 0 ≡ 9)
pop_race_example = pop_race 2 (λ i. 9) 7 8 (omega arith)
