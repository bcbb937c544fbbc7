-- ===== src/Ecs/Save/Tables.antt =====
-- The table that `ecs_load_game` of src/ecs.c leaves, in terms of the bytes that it reads.
use evil_engine.Base.{ℕ, ◌+◌, ◌<◌, ◌≡◌, refl, arith, ◌∙◌, ap, true, some, for_loop}
use evil_engine.Ecs.{Ecs, EntityState, max_entities, max_component_types}
use evil_engine.Ecs.Component.{Memory}
use evil_engine.Ecs.Save.{
  state_of_value, Loading, load_data, load_component, load_state, load_mask, read_le,
}
use evil_engine.Ecs.Save.Components.{total_span, total_span-cong}
use evil_engine.Ecs.Save.Fields.{read_section}
use evil_engine.Ecs.Save.Load.{
  load_sequences_lem, load_states_lem, load_masks_lem, load_components_lem, load_components-at,
}

module _ (other_state : ℕ → EntityState) (base : ℕ) (bytes : Memory) (e : Ecs) where
  abbrev pub decode : ℕ → EntityState
  decode = state_of_value other_state

  -- The state before each loop of `load_data`, as the loops' lemmas write it.
  abbrev s0 : Loading
  s0 = record { ecs = record e { global_sequence = read_le bytes 4 0 }; ctr = 4 }

  abbrev s1 : Loading
  s1 = record {
    ecs = record (s0.ecs) {
      sequences = read_section 4 (read_le bytes 4) max_entities 0 4 e.sequences;
    };
    ctr = 2052;
  }

  abbrev s2 : Loading
  s2 = record {
    ecs = record (s1.ecs) {
      entity_states =
          read_section 4 (λ p. decode (read_le bytes 4 p)) max_entities 0 2052 e.entity_states;
    };
    ctr = 4100;
  }

  abbrev s3 : Loading
  s3 = record {
    ecs = record (s2.ecs) {
      component_masks = read_section 8 (read_le bytes 8) max_entities 0 4100 e.component_masks;
    };
    ctr = 8196;
  }

  load_data-eq :
      load_data other_state base bytes e ≡ for_loop max_component_types 0 (load_component base) s3
  unfolding load_data
  load_data-eq =
      ap
        (λ (s : Loading). for_loop max_component_types 0 (load_component base) (
          for_loop max_entities 0 (load_mask bytes)
            (for_loop max_entities 0 (load_state decode bytes) s)))
        (load_sequences_lem bytes max_entities 0 s0)
      ∙ ap
          (λ (s : Loading).
            for_loop max_component_types 0 (load_component base)
              (for_loop max_entities 0 (load_mask bytes) s))
          (load_states_lem decode bytes max_entities 0 s1)
      ∙ ap (for_loop max_component_types 0 (load_component base))
          (load_masks_lem bytes max_entities 0 s2)

  abbrev pub loaded : Ecs
  loaded = (load_data other_state base bytes e).ecs

  -- Everything but the addresses of the storage.
  pub loaded-tables :
      (loaded.global_sequence ≡ read_le bytes 4 0)
      × (loaded.sequences ≡ read_section 4 (read_le bytes 4) max_entities 0 4 e.sequences)
      × (loaded.entity_states
          ≡ read_section 4 (λ p. decode (read_le bytes 4 p)) max_entities 0 2052 e.entity_states)
      × (loaded.component_masks
          ≡ read_section 8 (read_le bytes 8) max_entities 0 4100 e.component_masks)
  loaded-tables = (
    ap (λ (f : Ecs). f.global_sequence) same,
    ap (λ (f : Ecs). f.sequences) same,
    ap (λ (f : Ecs). f.entity_states) same,
    ap (λ (f : Ecs). f.component_masks) same,
  )
    where
      same : loaded ≡ record (s3.ecs) {
        components = (for_loop max_component_types 0 (load_component base) s3).ecs.components;
      }
      same =
          ap (λ (s : Loading). s.ecs) load_data-eq
          ∙ load_components_lem base max_component_types 0 s3

  pub loaded-components :
      (t : ℕ)
      → t < max_component_types
      → e.save_component t ≡ true
      → loaded.components t ≡ some (base + (8196 + total_span e t 0))
  loaded-components t lt saved =
      ap (λ (s : Loading). s.ecs.components t) load_data-eq
      ∙ load_components-at base max_component_types 0 t t s3 (omega arith) lt saved
      ∙ ap (λ (n : ℕ). some (base + (8196 + n)))
          (total_span-cong e s3.ecs (λ u. refl) (λ u. refl) t 0)
