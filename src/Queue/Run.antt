-- ===== src/Queue/Run.antt =====
-- Sequences of calls of src/queue.c that do not overlap.
use evil_engine.Base.{
  ℕ, ◌+◌, ◌^◌, ◌≤◌, ◌<◌, ◌≡◌, refl, arith, ◌∙◌, ap, Bool, true, Option, none, length, List, [], ◌∷◌,
}
use evil_engine.Queue.{Queue, queue_try_push, queue_try_pop}
use evil_engine.Queue.Fifo.{
  IsQueue, contents, fifo_push, fifo_pop, queue_try_push-fifo, queue_try_pop-fifo,
}

pub data Op {ℓ} (A : Type ℓ) : Type ℓ where
  push : A → Op A
  pop : Op A

-- What each call of a sequence returns: whether a push was taken, or what was popped.
module _ {ℓ} {A : Type ℓ} where
  pub run : Queue A → List (Op A) → List (Bool × Option A)
  run q [] = []
  run q (push x ∷ ops) = let (done, q') = queue_try_push q x in (done, none) ∷ run q' ops
  run q (pop ∷ ops) = let (got, q') = queue_try_pop q in (true, got) ∷ run q' ops

  pub fifo_run : ℕ → List A → List (Op A) → List (Bool × Option A)
  fifo_run c l [] = []
  fifo_run c l (push x ∷ ops) = let (done, l') = fifo_push c l x in (done, none) ∷ fifo_run c l' ops
  fifo_run c l (pop ∷ ops) = let (got, l') = fifo_pop l in (true, got) ∷ fifo_run c l' ops

  try_push_bounds :
      (q : Queue A) (x : A)
      → q.tail_index + 1 < 2 ^ 31
      → ((queue_try_push q x).1.capacity ≡ q.capacity)
        × ((queue_try_push q x).1.tail_index ≤ q.tail_index + 1)
  unfolding queue_try_push
  try_push_bounds q x h = ground arith

  try_pop_bounds :
      (q : Queue A)
      → ((queue_try_pop q).1.capacity ≡ q.capacity)
        × ((queue_try_pop q).1.tail_index ≡ q.tail_index)
  unfolding queue_try_pop
  try_pop_bounds q = ground arith

  -- From any queue that meets the invariant, no sequence of calls that do not overlap tells the queue
  -- from a bounded first-in first-out list, while its tail index and the calls come to less than 2^31.
  pub run_refines :
      (ops : List (Op A)) (q : Queue A)
      → IsQueue q
      → q.tail_index + length ops < 2 ^ 31
      → run q ops ≡ fifo_run q.capacity (contents q) ops
  unfolding run fifo_run
  run_refines [] q v h = refl
  run_refines (push x ∷ ops) q v h =
      let (done, q') = queue_try_push q x in
      let (v', same) = queue_try_push-fifo q x v (omega arith) in
      let (cap, tail) = try_push_bounds q x (omega arith) in
      ap (λ r. (done, none) ∷ r) (run_refines ops q' v' (omega arith))
      ∙ ap (λ (c : ℕ). (done, none) ∷ fifo_run c (contents q') ops) cap
      ∙ ap (λ (p : Bool × List A). (p.0, none) ∷ fifo_run q.capacity p.1 ops) same
  run_refines (pop ∷ ops) q v h =
      let (got, q') = queue_try_pop q in
      let (v', same) = queue_try_pop-fifo q v in
      let (cap, tail) = try_pop_bounds q in
      ap (λ r. (true, got) ∷ r) (run_refines ops q' v' (omega arith))
      ∙ ap (λ (c : ℕ). (true, got) ∷ fifo_run c (contents q') ops) cap
      ∙ ap (λ (p : Option A × List A). (true, p.0) ∷ fifo_run q.capacity p.1 ops) same
