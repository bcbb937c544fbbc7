-- ===== src/Queue/Fifo.antt =====
-- Calls of src/queue.c that do not overlap: the queue is a bounded FIFO list.
use native.Mathlib.Nat.{div-add-mod}
use native.Mathlib.Numerals.{add-one}
use native.Mathlib.Decide.{dec_lt, ℕ_discrete}
use mathlib.Core.Path.{ap₂}
use evil_engine.Base.{
  ℕ, zero, suc, ◌+◌, ◌-◌, ◌*◌, ◌/◌, ◌%◌, ◌^◌, ◌≤◌, ◌<◌, ◌≡◌, ◌≢◌, refl, arith, ◌∙◌, ap, Bool, true,
  false, Option, none, some, length, List, [], ◌∷◌, ◌++◌, ◌==◌, if◌then◌else◌, update,
}
use evil_engine.Queue.{Queue, queue_try_push, queue_try_pop}

-- The invariant, while fewer than 2^31 items have gone through the queue: every slot is used or
-- free, and the tail is as far ahead of the head as there are items.
pub record IsQueue {ℓ} {A : Type ℓ} (q : Queue A) : Type 0 where
  pub some_room : 0 < q.capacity
  pub slots : q.used_items + q.free_items ≡ q.capacity
  pub indices : q.tail_index ≡ q.head_index + q.used_items
  pub young : q.tail_index < 2 ^ 31

-- The `n` items from count `h` on.
abbrev pub window {ℓ} : {A : Type ℓ} → (ℕ → A) → ℕ → ℕ → ℕ → List A
window items capacity h zero = []
window items capacity h (suc n) = items (h % capacity) ∷ window items capacity (h + 1) n

-- Two counts less than a round apart have different slots.
pub slots_differ : (c h m : ℕ) → h < m → m < h + c → h % c ≢ m % c
slots_differ c h m lt near e = elim (dec_lt (h / c) (m / c)) [
  | yes up ↦ omega (arith, div-add-mod h c, div-add-mod m c, mul_next c (h / c) (m / c) up)
  | no down ↦
      omega (arith, div-add-mod h c, div-add-mod m c, mul_le c (m / c) (h / c) (omega arith))
]
  where
    mul_next : (n a b : ℕ) → a < b → n * a + n ≤ n * b
    mul_next n a b p = grind arith

    mul_le : (n a b : ℕ) → a ≤ b → n * a ≤ n * b
    mul_le n a b p = grind arith

module _ {ℓ} {A : Type ℓ} where
  abbrev pub contents : Queue A → List A
  contents q = window q.items q.capacity q.head_index q.used_items

  length-window : (items : ℕ → A) (c h n : ℕ) → length (window items c h n) ≡ n
  length-window items c h zero = refl
  length-window items c h (suc n) = ap suc (length-window items c (h + 1) n)

  window-update :
      (items : ℕ → A) (c h n m : ℕ) (x : A)
      → h + n ≤ m
      → m < h + c
      → window (update items (m % c) x) c h n ≡ window items c h n
  window-update items c h zero m x le lt = refl
  window-update items c h (suc n) m x le lt =
      ap₂ ◌∷◌ (ground (arith, slots_differ c h m (omega arith) lt))
        (window-update items c (h + 1) n m x (omega arith) (omega arith))

  window-snoc :
      (items : ℕ → A) (c h n m : ℕ)
      → m ≡ h + n
      → window items c h (suc n) ≡ window items c h n ++ items (m % c) ∷ []
  window-snoc items c h zero m e = ap (λ (k : ℕ). items (k % c) ∷ []) (omega arith)
  window-snoc items c h (suc n) m e =
      ap (λ l. items (h % c) ∷ l) (window-snoc items c (h + 1) n m (omega arith))

  -- A bounded FIFO list.
  unfoldable pub fifo_push : ℕ → List A → A → Bool × List A
  fifo_push capacity l x = if length l == capacity then (false, l) else (true, l ++ x ∷ [])

  unfoldable pub fifo_pop : List A → Option A × List A
  fifo_pop [] = (none, [])
  fifo_pop (x ∷ l) = (some x, l)

  -- The queue after an item has been accepted, and after one has been handed out.
  abbrev pushed : Queue A → A → Queue A
  pushed q x = record q {
    used_items = q.used_items + 1;
    free_items = q.free_items - 1;
    tail_index = q.tail_index + 1;
    items = update q.items (q.tail_index % q.capacity) x;
  }

  abbrev popped : Queue A → Queue A
  popped q = record q {
    used_items = q.used_items - 1;
    free_items = q.free_items + 1;
    head_index = q.head_index + 1;
  }

  try_push-pushed :
      (q : Queue A) (x : A)
      → IsQueue q
      → q.tail_index + 1 < 2 ^ 31
      → q.free_items ≢ 0
      → queue_try_push q x ≡ (true, pushed q x)
  unfolding queue_try_push
  try_push-pushed q x v h room = ground arith

  try_push_full : (q : Queue A) (x : A) → q.free_items ≡ 0 → queue_try_push q x ≡ (false, q)
  unfolding queue_try_push
  try_push_full q x full = ground arith

  try_pop-popped :
      (q : Queue A)
      → IsQueue q
      → q.used_items ≢ 0
      → queue_try_pop q ≡ (some (q.items (q.head_index % q.capacity)), popped q)
  unfolding queue_try_pop
  try_pop-popped q v ne = ground arith

  try_pop_empty : (q : Queue A) → q.used_items ≡ 0 → queue_try_pop q ≡ (none, q)
  unfolding queue_try_pop
  try_pop_empty q none_used = ground arith

  contents-pushed :
      (q : Queue A) (x : A)
      → IsQueue q
      → q.free_items ≢ 0
      → contents (pushed q x) ≡ contents q ++ x ∷ []
  contents-pushed q x v room =
      ap (λ n. window (pushed q x).items q.capacity q.head_index n) (add-one q.used_items)
      ∙ window-snoc (pushed q x).items q.capacity q.head_index q.used_items q.tail_index v.indices
      ∙ ap₂ (λ l y. l ++ y ∷ [])
          (window-update q.items q.capacity q.head_index q.used_items q.tail_index x
            (omega (arith, v.indices)) (omega (arith, v.indices, v.slots)))
          (ground arith)

  window-pop :
      (items : ℕ → A) (c h n : ℕ)
      → n ≢ 0
      → window items c h n ≡ items (h % c) ∷ window items c (h + 1) (n - 1)
  window-pop items c h zero ne = absurd (ne refl)
  window-pop items c h (suc n) ne = ap (λ k. items (h % c) ∷ window items c (h + 1) k) (omega arith)

  -- One `queue_try_push` is one push on the list, and keeps the invariant.
  pub queue_try_push-fifo :
      (q : Queue A) (x : A)
      → IsQueue q
      → q.tail_index + 1 < 2 ^ 31
      → let (done, q') = queue_try_push q x in
        IsQueue q' × ((done, contents q') ≡ fifo_push q.capacity (contents q) x)
  unfolding fifo_push
  queue_try_push-fifo q x v h = elim (ℕ_discrete q.free_items 0) [
    | yes full ↦
        rw (try_push_full q x full)
          (v, ground (arith, length-window q.items q.capacity q.head_index q.used_items, v.slots))
    | no room ↦ rw (try_push-pushed q x v h room) (
      record {
        some_room = v.some_room;
        slots = omega (arith, v.slots);
        indices = omega (arith, v.indices);
        young = h;
      },
      ground (
        arith,
        contents-pushed q x v room,
        length-window q.items q.capacity q.head_index q.used_items,
        v.slots,
      ),
    )
  ]

  pub queue_try_pop-fifo :
      (q : Queue A)
      → IsQueue q
      → let (got, q') = queue_try_pop q in IsQueue q' × ((got, contents q') ≡ fifo_pop (contents q))
  unfolding fifo_pop
  queue_try_pop-fifo q v = elim (ℕ_discrete q.used_items 0) [
    | yes empty ↦ rw (try_pop_empty q empty) (v, rw empty)
    | no ne ↦ rw (try_pop-popped q v ne) (
      record {
        some_room = v.some_room;
        slots = omega (arith, v.slots);
        indices = omega (arith, v.indices);
        young = v.young;
      },
      rw (window-pop q.items q.capacity q.head_index q.used_items ne),
    )
  ]
