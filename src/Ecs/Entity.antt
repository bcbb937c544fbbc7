-- ===== src/Ecs/Entity.antt =====
-- The operations of src/ecs.c on one entity: what each branch does to the table.
use evil_engine.Base.{
  ℕ, ◌<◌, ◌≡◌, ◌≢◌, refl, true, false, none, some, arith, ◌⊎◌, find_first, FoundAt, find_first-some,
  find_first-none, for_loop-pointwise, Option-cases, inl, inr, add32,
}
use evil_engine.Ecs.{
  Ecs, EntityRef, unused, pending_add, max_entities, advance, ecs_update, entity_add,
  is_entity_ref_valid, is_unused, no_entity,
}

-- `ecs_update` advances the state of every entity of the table once, and touches nothing else.
pub ecs_update_lem :
    (e : Ecs) (i : ℕ)
    → i < max_entities
    → ((ecs_update e).entity_states i ≡ advance (e.entity_states i))
      × ((ecs_update e).sequences i ≡ e.sequences i)
      × ((ecs_update e).component_masks i ≡ e.component_masks i)
      × ((ecs_update e).global_sequence ≡ e.global_sequence)
unfolding ecs_update
ecs_update_lem e i h =
    (ground (arith, for_loop-pointwise advance max_entities 0 e.entity_states i), refl, refl, refl)

-- The table after an entity has been spawned in slot `i`.
pub record Spawned (e : Ecs) (mask : ℕ) (i : ℕ) (ref : EntityRef) (e' : Ecs) : Type 0 where
  pub in_table : i < max_entities
  pub was_unused : e.entity_states i ≡ unused
  pub earlier_used : (k : ℕ) → k < i → is_unused (e.entity_states k) ≡ false
  pub ref_entity : ref.entity ≡ i
  pub ref_sequence : ref.sequence ≡ e.global_sequence
  pub state : e'.entity_states i ≡ pending_add
  pub sequence : e'.sequences i ≡ e.global_sequence
  pub mask_set : e'.component_masks i ≡ mask
  pub next_sequence : e'.global_sequence ≡ add32 e.global_sequence 1
  pub others :
      (k : ℕ)
      → k ≢ i
      → (e'.entity_states k ≡ e.entity_states k)
        × (e'.sequences k ≡ e.sequences k)
        × (e'.component_masks k ≡ e.component_masks k)

-- `ecs_entity_add` at the slot that its loop finds.
pub entity_add-Spawned :
    (e : Ecs) (mask i : ℕ)
    → find_first (λ k. is_unused (e.entity_states k)) max_entities 0 ≡ some i
    → let (ref, e') = entity_add e mask in Spawned e mask i ref e'
unfolding entity_add
entity_add-Spawned e mask i h =
    let f : FoundAt (λ k. is_unused (e.entity_states k)) max_entities 0 i =
      find_first-some _ _ _ h in
    rw (h, entity_add)
      record {
        in_table = f.below;
        was_unused = ground (arith, f.passes);
        earlier_used = λ k lt. f.earliest k (omega arith) lt;
        ref_entity = refl;
        ref_sequence = refl;
        state = ground arith;
        sequence = ground arith;
        mask_set = ground arith;
        next_sequence = refl;
        others = λ k ne. (ground arith, ground arith, ground arith);
      }

-- The table is full, and the call leaves it as it was.
pub record Refused (e : Ecs) (ref : EntityRef) (e' : Ecs) : Type 0 where
  pub full : (k : ℕ) → k < max_entities → e.entity_states k ≢ unused
  pub bad_ref : ref ≡ no_entity
  pub same : e' ≡ e

entity_add-Refused :
    (e : Ecs) (mask : ℕ)
    → find_first (λ k. is_unused (e.entity_states k)) max_entities 0 ≡ none
    → let (ref, e') = entity_add e mask in Refused e ref e'
unfolding entity_add
entity_add-Refused e mask h =
    rw (h, entity_add)
      record {
        full = λ k lt u.
            let used : is_unused (e.entity_states k) ≡ false =
              find_first-none _ _ _ k h (omega arith) lt in
            ground arith;
        bad_ref = refl;
        same = refl;
      }

-- `ecs_entity_add` takes the first unused slot of the table, makes it pending, gives it the global
-- sequence number and the mask, and touches no other slot; only if no slot is unused it returns
-- the reference -1 and changes nothing.
pub entity_add_lem :
    (e : Ecs) (mask : ℕ)
    → let (ref, e') = entity_add e mask in ((i : ℕ) × Spawned e mask i ref e') ⊎ Refused e ref e'
entity_add_lem e mask =
    elim (Option-cases (find_first (λ k. is_unused (e.entity_states k)) max_entities 0)) [
      | inl h ↦ inr (entity_add-Refused e mask h)
      | inr (i, h) ↦ inl (i, entity_add-Spawned e mask i h)
    ]

-- A reference just handed out is good for a caller that allows pending entities, bad for one that
-- does not, and good for both after the next `ecs_update`; the reference -1 is never good.
pub entity_add-valid :
    (e : Ecs) (mask : ℕ)
    → let (ref, e') = entity_add e mask in
      (is_entity_ref_valid e' ref false ≡ false)
      × ((ref ≡ no_entity)
          ⊎ ((is_entity_ref_valid e' ref true ≡ true)
              × (is_entity_ref_valid (ecs_update e') ref false ≡ true)))
unfolding is_entity_ref_valid
entity_add-valid e mask = elim (entity_add_lem e mask) [
  | inl (i, s) ↦ ground (
    arith,
    s.in_table,
    s.state,
    s.sequence,
    s.ref_entity,
    s.ref_sequence,
    ecs_update_lem (entity_add e mask).1 i,
  )
  | inr r ↦ ground (arith, r.bad_ref)
]
