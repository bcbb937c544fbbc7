-- ===== src/Ecs/Tests.antt =====
-- The entity table of src/ecs.c on small inputs.
use evil_engine.Base.{
  ℕ, ◌+◌, ◌^◌, ◌<◌, ◌≡◌, ◌≢◌, ◌⊎◌, refl, arith, false, true, Option, none, some, List, [], ◌∷◌, inl,
  minus_one, find_first, for_loop,
}
use evil_engine.Ecs.{
  Ecs, EntityRef, max_entities, max_component_types, create, ecs_update, entity_add, entity_remove,
  is_entity_ref_valid, query_create,
}
use evil_engine.Ecs.Reach.{
  Reach, here, next, spawn, despawn, tick, IsTable, Reach-IsStale, Reach-IsTable, valid_refs,
}
use evil_engine.Ecs.Query.{visit, matching, query_visits}
use evil_engine.Ecs.Component.{Registration, align_up, storage_size, register_component_type}
use evil_engine.Ecs.Register.{Registered, register_component_type_lem}

-- A table with one entity, which is removed.
abbrev one : Ecs
one = (entity_add create 3).1

abbrev first : EntityRef
first = record { entity = 0; sequence = 1 }

abbrev dying : Ecs
dying = entity_remove one first true

abbrev dead : Ecs
dead = ecs_update dying

created_room : create.global_sequence + 1 < 2 ^ 32
unfolding create
created_room = omega arith

to_dead : Reach create dead
to_dead =
    next (next (next here (spawn 3 created_room)) (despawn first true (inl (omega arith)))) tick

first_ref_dead : is_entity_ref_valid dead first true ≡ false
unfolding is_entity_ref_valid ecs_update entity_add entity_remove create find_first for_loop
first_ref_dead = refl

first_number : first.sequence < dead.global_sequence
unfolding ecs_update entity_add entity_remove create find_first
first_number = omega arith

dead_room : dead.global_sequence + 1 < 2 ^ 32
unfolding ecs_update entity_add entity_remove create find_first
dead_room = omega arith

-- The slot is taken again.
Reach-IsStale_example : is_entity_ref_valid (entity_add dead 5).1 first true ≡ false
Reach-IsStale_example =
    Reach-IsStale {e = dead} {f = (entity_add dead 5).1} first (next here (spawn 5 dead_room))
      (inl (omega arith)) first_number first_ref_dead

Reach-IsTable_example : IsTable dead
Reach-IsTable_example = Reach-IsTable {e = dead} to_dead

first_valid : is_entity_ref_valid one first true ≡ true
unfolding is_entity_ref_valid entity_add create find_first
first_valid = refl

valid_refs_example :
    (0 < first.sequence)
    × (first.sequence < one.global_sequence)
    × (first.sequence ≡ first.sequence → first ≡ first)
valid_refs_example =
    valid_refs {e = one} first first (next here (spawn 3 created_room)) (inl (omega arith))
      (inl (omega arith)) first_valid first_valid

query_visits_example :
    visit (ecs_update one) 600 (query_create (ecs_update one) 1)
    ≡ matching (ecs_update one) 1 max_entities 0
query_visits_example = query_visits (ecs_update one) 1 600 (omega arith)

-- A heap whose state is the next free address.
abbrev bump : ℕ → ℕ → ℕ → Option ℕ × ℕ
bump heap size alignment = (some heap, heap + size)

abbrev copy_name : ℕ → List ℕ → List ℕ
copy_name room name = name

register_component_type_lem_example :
    ((r : Registration ℕ) × (register_component_type bump copy_name create 4096
          (λ p. 7)
          (65 ∷ [])
          12
          8
          true
        ≡ some r)
      × (((t : ℕ) × (a : ℕ) × (r.component_type ≡ t)
            × ((bump 4096 (storage_size (align_up 12 8)) 8).0 ≡ some a)
            × ((u : ℕ) → u < t → create.components u ≢ none)
            × Registered create (λ p. 7) (65 ∷ []) 12 8 true t a (65 ∷ []) r.ecs r.memory)
          ⊎ (((u : ℕ) → u < max_component_types → create.components u ≢ none)
              × (r.component_type ≡ minus_one)
              × (r.ecs ≡ create)
              × (r.heap ≡ 4096)
              × (r.memory ≡ (λ p. 7)))))
    ⊎ ((register_component_type bump copy_name create 4096 (λ p. 7) (65 ∷ []) 12 8 true ≡ none)
        × ((bump 4096 (storage_size (align_up 12 8)) 8).0 ≡ none)
        × ((t : ℕ) × (t < max_component_types) × (create.components t ≡ none)))
register_component_type_lem_example =
    register_component_type_lem bump copy_name create 4096 (λ p. 7) (65 ∷ []) 12 8 true
