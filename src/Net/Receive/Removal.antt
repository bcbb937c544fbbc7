-- ===== src/Net/Receive/Removal.antt =====
-- The end of `packet_read_entities` of src/net.c: which entities of a connection it removes.
use evil_engine.Base.{
  ℕ, zero, suc, ◌+◌, ◌≤◌, ◌<◌, ◌≡◌, refl, ap, ◌∙◌, sym, arith, true, false, not, ◌&&◌, ◌==◌,
  if◌then◌else◌, inl, inr, Bool-cases, update, for_loop, for_loop-same,
}
use evil_engine.Ecs.{
  Ecs, EntityRef, EntityState, pending_remove, is_entity_ref_valid, entity_remove,
}
use evil_engine.Net.{Connection}
use evil_engine.Net.Packet.{Net, max_net_entities}
use evil_engine.Net.Receive.{Reader, is_live, set_world, remove_unseen}

-- An entry of the connection whose reference is good, which was not seen in this frame, and which is
-- about the entity with this number.
pub record Unseen (r : Reader) (number : ℕ) : Type 0 where
  pub entry : ℕ
  pub below : entry < max_net_entities
  pub live : is_live r.1 ((r.0.entities entry).ref) ≡ true
  pub old : ((r.0.entities entry).last_recved_sequence == r.1.sequence) ≡ false
  pub names : ((r.0.entities entry).ref.entity == number) ≡ true

-- Exactly the entities of such entries are marked to be removed, and no sequence number, set of
-- components or byte of memory changes.
pub record Removed (r : Reader) (after : Net) : Type 0 where
  pub marked :
      (number : ℕ) → Unseen r number → after.world.ecs.entity_states number ≡ pending_remove
  pub kept :
      (number : ℕ)
      → ¬ Unseen r number
      → after.world.ecs.entity_states number ≡ r.1.world.ecs.entity_states number
  pub sequences : after.world.ecs.sequences ≡ r.1.world.ecs.sequences
  pub masks : after.world.ecs.component_masks ≡ r.1.world.ecs.component_masks
  pub memory : after.world.memory ≡ r.1.world.memory

-- A round of the loop.
abbrev remove_round : Connection → ℕ → Net → Net
remove_round c i n =
    let d = c.entities i in
    if is_live n d.ref && not (d.last_recved_sequence == n.sequence)
    then set_world n (record n.world { ecs = entity_remove n.world.ecs d.ref true })
    else n

abbrev state_at : Net → ℕ → EntityState
state_at n k = n.world.ecs.entity_states k

-- Marking an entity leaves every good reference good.
entity_remove-live :
    (e : Ecs) (d ref : EntityRef)
    → is_entity_ref_valid (entity_remove e d true) ref true ≡ is_entity_ref_valid e ref true
unfolding entity_remove is_entity_ref_valid
entity_remove-live e d ref = elim (Bool-cases (is_entity_ref_valid e d true)) [
  | inr bad ↦ ground (arith, bad)
  | inl good ↦ elim (Bool-cases (d.entity == ref.entity)) [
    | inr other ↦ ground (arith, good, other)
    | inl same ↦ let e' : d.entity ≡ ref.entity = ground arith in ground (arith, good, same, e')
  ]
]

entity_remove-good :
    (e : Ecs) (d : EntityRef)
    → is_entity_ref_valid e d true ≡ true
    → entity_remove e d true
      ≡ record e { entity_states = update e.entity_states d.entity pending_remove }
unfolding entity_remove is_entity_ref_valid
entity_remove-good e d good = rw (good) refl

round-live :
    (c : Connection) (i : ℕ) (n : Net) (ref : EntityRef)
    → is_live (remove_round c i n) ref ≡ is_live n ref
round-live c i n ref =
    elim (Bool-cases
      (is_live n ((c.entities i).ref) && not ((c.entities i).last_recved_sequence == n.sequence))) [
        | inl hit ↦ rw (hit) (entity_remove-live n.world.ecs (c.entities i).ref ref)
        | inr miss ↦ rw (miss) refl
      ]

round-sequence : (c : Connection) (i : ℕ) (n : Net) → (remove_round c i n).sequence ≡ n.sequence
round-sequence c i n = ground arith

round-kept :
    (c : Connection) (i : ℕ) (n : Net) (k : ℕ)
    → state_at n k ≡ pending_remove
    → state_at (remove_round c i n) k ≡ pending_remove
unfolding entity_remove
round-kept c i n k marked = ground arith

round-marks :
    (c : Connection) (i : ℕ) (n : Net) (k : ℕ)
    → is_live n ((c.entities i).ref) ≡ true
    → ((c.entities i).last_recved_sequence == n.sequence) ≡ false
    → ((c.entities i).ref.entity == k) ≡ true
    → state_at (remove_round c i n) k ≡ pending_remove
round-marks c i n k live old names =
    rw (live, old)
      (ap (λ (e : Ecs). e.entity_states k) (entity_remove-good n.world.ecs (c.entities i).ref live)
        ∙ rw (names) refl)

round-other :
    (c : Connection) (i : ℕ) (n : Net) (k : ℕ)
    → ¬ (
        (is_live n ((c.entities i).ref) ≡ true)
        × (((c.entities i).last_recved_sequence == n.sequence) ≡ false)
        × (((c.entities i).ref.entity == k) ≡ true))
    → state_at (remove_round c i n) k ≡ state_at n k
round-other c i n k none_such = elim (Bool-cases (is_live n ((c.entities i).ref))) [
  | inr dead ↦ rw (dead) refl
  | inl live ↦ elim (Bool-cases ((c.entities i).last_recved_sequence == n.sequence)) [
    | inl seen ↦ rw (live, seen) refl
    | inr old ↦ elim (Bool-cases ((c.entities i).ref.entity == k)) [
      | inl names ↦ absurd (none_such (live, old, names))
      | inr other ↦
          rw (live, old)
            (ap (λ (e : Ecs). e.entity_states k)
                (entity_remove-good n.world.ecs (c.entities i).ref live)
              ∙ rw (other) refl)
    ]
  ]
]

loop-kept :
    (c : Connection) (rounds i : ℕ) (n : Net) (k : ℕ)
    → state_at n k ≡ pending_remove
    → state_at (for_loop rounds i (remove_round c) n) k ≡ pending_remove
unfolding for_loop
loop-kept c zero i n k marked = marked
loop-kept c (suc rounds) i n k marked =
    loop-kept c rounds (i + 1) (remove_round c i n) k (round-kept c i n k marked)

loop-marks :
    (c : Connection) (rounds i j : ℕ) (n : Net) (k : ℕ)
    → i ≤ j
    → j < i + rounds
    → is_live n ((c.entities j).ref) ≡ true
    → ((c.entities j).last_recved_sequence == n.sequence) ≡ false
    → ((c.entities j).ref.entity == k) ≡ true
    → state_at (for_loop rounds i (remove_round c) n) k ≡ pending_remove
unfolding for_loop
loop-marks c zero i j n k above below live old names = absurd (omega (arith, above, below))
loop-marks c (suc rounds) i j n k above below live old names = elim (Bool-cases (i == j)) [
  | inl here ↦
      let e : i ≡ j = ground arith in
      loop-kept c rounds (i + 1) (remove_round c i n) k (
        round-marks c i n k (ap (λ p. is_live n ((c.entities p).ref)) e ∙ live)
          (ap (λ p. (c.entities p).last_recved_sequence == n.sequence) e ∙ old)
          (ap (λ p. (c.entities p).ref.entity == k) e ∙ names))
  | inr later ↦
      loop-marks c rounds (i + 1) j (remove_round c i n) k (ground arith) (omega arith)
        (round-live c i n ((c.entities j).ref) ∙ live)
        (ap (λ s. (c.entities j).last_recved_sequence == s) (round-sequence c i n) ∙ old) names
]

loop-other :
    (c : Connection) (rounds i : ℕ) (n : Net) (k : ℕ)
    → ((j : ℕ)
        → j < i + rounds
        → ¬ (
            (is_live n ((c.entities j).ref) ≡ true)
            × (((c.entities j).last_recved_sequence == n.sequence) ≡ false)
            × (((c.entities j).ref.entity == k) ≡ true)))
    → state_at (for_loop rounds i (remove_round c) n) k ≡ state_at n k
unfolding for_loop
loop-other c zero i n k none_such = refl
loop-other c (suc rounds) i n k none_such =
    loop-other c rounds (i + 1) (remove_round c i n) k (λ j h (live, old, names).
      none_such j (omega arith) (
        sym (round-live c i n ((c.entities j).ref)) ∙ live,
        ap (λ s. (c.entities j).last_recved_sequence == s) (sym (round-sequence c i n)) ∙ old,
        names,
      ))
    ∙ round-other c i n k (none_such i (omega arith))

pub remove_unseen-Removed : (r : Reader) → Removed r (remove_unseen r)
unfolding remove_unseen entity_remove
remove_unseen-Removed r = record {
  marked = λ k u.
      loop-marks r.0 max_net_entities 0 u.entry r.1 k (omega arith) u.below u.live u.old u.names;
  kept = λ k none_such. loop-other r.0 max_net_entities 0 r.1 k (λ j h (live, old, names).
      none_such (record { entry = j; below = h; live = live; old = old; names = names }));
  sequences =
      for_loop-same (λ (n : Net). n.world.ecs.sequences) (remove_round r.0) (λ i n. ground arith)
        max_net_entities 0 r.1;
  masks =
      for_loop-same (λ (n : Net). n.world.ecs.component_masks) (remove_round r.0)
        (λ i n. ground arith) max_net_entities 0 r.1;
  memory =
      for_loop-same (λ (n : Net). n.world.memory) (remove_round r.0) (λ i n. ground arith)
        max_net_entities 0 r.1;
}
