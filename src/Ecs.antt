-- ===== src/Ecs.antt =====
-- src/ecs.c and src/ecs.h: the entity table, weak references, and queries.
-- The three per-entity arrays of `ecs_t` are functions of the index, read below `max_entities`.
pub mod Entity
pub mod Reach
mod Tests
pub mod Query
pub mod Component
pub mod Register
pub mod Save
use evil_engine.Base.{
  ℕ, ◌+◌, ◌-◌, ◌*◌, ◌%◌, ◌^◌, Bool, true, false, ◌&&◌, Option, none, some, List, [], leb, ◌==◌,
  if◌then◌else◌, CInt, minus_one, add32, is_nonneg, update, find_first, for_loop, bit_and,
}

abbrev pub max_component_types : ℕ
max_component_types = 64

abbrev pub max_entities : ℕ
max_entities = 512

pub data EntityState : Type 0 where
  unused pending_add active pending_remove : EntityState

-- The value of an enumerator, by which `>=` compares two states.
abbrev pub state_value : EntityState → ℕ
state_value unused = 0
state_value pending_add = 1
state_value active = 2
state_value pending_remove = 3

-- A weak reference to an entity.
pub record EntityRef : Type 0 where
  pub entity : CInt
  pub sequence : CInt

-- Working data of an active query.
pub record QueryState : Type 0 where
  pub component_mask : ℕ
  pub entity : CInt

-- `components[t]` is the address of a type's storage, `none` for NULL.
pub record Ecs : Type 0 where
  pub global_sequence : CInt
  pub sequences : ℕ → CInt
  pub entity_states : ℕ → EntityState
  pub component_masks : ℕ → ℕ
  pub components : ℕ → Option ℕ
  pub component_type_sizes : ℕ → ℕ
  pub component_type_names : ℕ → List ℕ
  pub save_component : ℕ → Bool

-- The state that `ecs_create` leaves: all zero, and the sequences start at 1.
unfoldable pub create : Ecs
create = record {
  global_sequence = 1;
  sequences = λ i. 0;
  entity_states = λ i. unused;
  component_masks = λ i. 0;
  components = λ t. none;
  component_type_sizes = λ t. 0;
  component_type_names = λ t. [];
  save_component = λ t. false;
}

-- The body of the loop of `ecs_update`.
abbrev pub advance : EntityState → EntityState
advance pending_add = active
advance pending_remove = unused
advance unused = unused
advance active = active

unfoldable pub ecs_update : Ecs → Ecs
ecs_update e = record e {
  entity_states = for_loop max_entities 0 (λ i a. update a i (advance (a i))) e.entity_states;
}

abbrev pub is_unused : EntityState → Bool
is_unused s = state_value s == 0

-- The reference that means "no entity".
abbrev pub no_entity : EntityRef
no_entity = record { entity = minus_one; sequence = minus_one }

unfoldable pub entity_add : Ecs → ℕ → EntityRef × Ecs
entity_add e component_mask =
    elim (find_first (λ i. is_unused (e.entity_states i)) max_entities 0) [
      | none ↦ (no_entity, e)
      | some i ↦ (
        record { entity = i; sequence = e.global_sequence },
        record e {
          entity_states = update e.entity_states i pending_add;
          sequences = update e.sequences i e.global_sequence;
          global_sequence = add32 e.global_sequence 1;
          component_masks = update e.component_masks i component_mask;
        },
      )
    ]

-- The code tests no upper bound: for an index that is not negative and not in the table it reads behind
-- its arrays, and what this gives there stands for nothing. The theorems are about the other indices.
unfoldable pub is_entity_ref_valid : Ecs → EntityRef → Bool → Bool
is_entity_ref_valid e ref allow_pending_add =
    is_nonneg ref.entity
    && (e.sequences ref.entity == ref.sequence)
    && leb (state_value (if allow_pending_add then pending_add else active))
        (state_value (e.entity_states ref.entity))

unfoldable pub entity_remove : Ecs → EntityRef → Bool → Ecs
unfolding is_entity_ref_valid
entity_remove e ref allow_pending_add =
    if is_entity_ref_valid e ref allow_pending_add
    then record e { entity_states = update e.entity_states ref.entity pending_remove }
    else e

-- Addresses are `size_t`: the arithmetic of `&components[size * entity]` is modulo 2^64.
unfoldable pub component_address : ℕ → ℕ → CInt → ℕ
component_address base size entity = (base + size * entity) % 2 ^ 64

unfoldable pub entity_get_component : Ecs → EntityRef → CInt → Bool → Option ℕ
unfolding is_entity_ref_valid component_address
entity_get_component e ref component_type allow_pending_add = elim (e.components component_type) [
  | none ↦ none
  | some base ↦
      if is_entity_ref_valid e ref allow_pending_add
      then some (component_address base (e.component_type_sizes component_type) ref.entity)
      else none
]

-- The test of the loop of `ecs_query_next`.
abbrev pub query_matches : Ecs → ℕ → ℕ → Bool
query_matches e mask i =
    (bit_and (e.component_masks i) mask == mask)
    && leb (state_value active) (state_value (e.entity_states i))

unfoldable pub query_next : Ecs → QueryState → QueryState
query_next e query =
    let start = add32 query.entity 1 in
    elim (find_first (query_matches e query.component_mask) (max_entities - start) start) [
      | none ↦ record query { entity = minus_one }
      | some i ↦ record query { entity = i }
    ]

unfoldable pub query_create : Ecs → ℕ → QueryState
unfolding query_next
query_create e mask = query_next e (record { component_mask = mask; entity = minus_one })

unfoldable pub query_is_valid : QueryState → Bool
query_is_valid query = is_nonneg query.entity

unfoldable pub query_get_entity : Ecs → QueryState → EntityRef
query_get_entity e query = record { entity = query.entity; sequence = e.sequences query.entity }

-- The caller asks only for a type whose storage exists; `none` is a null dereference.
unfoldable pub query_get_component : Ecs → QueryState → CInt → Option ℕ
unfolding component_address
query_get_component e query component_type = elim (e.components component_type) [
  | none ↦ none
  | some base ↦ some (component_address base (e.component_type_sizes component_type) query.entity)
]
