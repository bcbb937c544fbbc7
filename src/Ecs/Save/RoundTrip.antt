-- ===== src/Ecs/Save/RoundTrip.antt =====
-- `ecs_load_game` after `ecs_save_game` of src/ecs.c.
use native.Mathlib.Decide.{ℕ_discrete}
use evil_engine.Base.{
  List, inl, inr, ◌⊎◌, ℕ, zero, suc, ◌+◌, ◌*◌, ◌^◌, ◌≤◌, ◌<◌, ◌≡◌, ◌≢◌, refl, arith, ◌∙◌, ap, true,
  some,
}
use evil_engine.Ecs.{Ecs, EntityState, max_entities, max_component_types, state_value}
use evil_engine.Ecs.Component.{Memory}
use evil_engine.Ecs.Save.{
  ReadResult, load_game, component_byte, save_data, save_size, state_of_value, load_data, read_le,
}
use evil_engine.Ecs.Save.Components.{span, total_span, total_span-cong}
use evil_engine.Ecs.Save.Fields.{
  read_le_int, read_le_mask, state_of_value-state_value, read_section-at,
}
use evil_engine.Ecs.Save.Image.{
  save_size_lem, Stores-global, Stores-sequence, Stores-state, Stores-mask, Stores-component,
}
use evil_engine.Ecs.Save.Tables.{loaded-tables, loaded-components}

-- The words of the table fit their C types.
pub record Fits (e : Ecs) : Type 0 where
  pub global : e.global_sequence < 2 ^ 32
  pub sequences : (i : ℕ) → e.sequences i < 2 ^ 32
  pub masks : (i : ℕ) → e.component_masks i < 2 ^ 64

state_value-lt : (s : EntityState) → state_value s < 2 ^ 32
state_value-lt s = ground arith

-- What a save file that was written from `e` restores in a table `f'`, whose saved storage then lies
-- in the buffer at `base` with the contents `bytes`.
pub record Restored (e : Ecs) (memory : Memory) (base : ℕ) (bytes : Memory) (f' : Ecs)
    : Type 0 where
  pub global : f'.global_sequence ≡ e.global_sequence
  pub sequences : (i : ℕ) → i < max_entities → f'.sequences i ≡ e.sequences i
  pub states : (i : ℕ) → i < max_entities → f'.entity_states i ≡ e.entity_states i
  pub masks : (i : ℕ) → i < max_entities → f'.component_masks i ≡ e.component_masks i
  pub components :
      (t j k : ℕ)
      → t < max_component_types
      → e.save_component t ≡ true
      → j < max_entities
      → k < e.component_type_sizes t
      → (a : ℕ) × (f'.components t ≡ some (base + a))
        × (bytes (a + (j * e.component_type_sizes t + k)) ≡ component_byte e memory t j k)

-- The loops of `ecs_load_game`, up to where it gives the buffer of the file back to the heap, on a
-- buffer that `ecs_save_game` filled from a table whose numbers fit their C types, in a table with the
-- same component types: they restore the sequence numbers, the states and the masks of all entities,
-- and point each saved component type at its section of that buffer, whose bytes are those of the saved
-- components, whatever the table held before. Nothing is said of the time after the buffer is given back.
pub load_data-save_data :
    (other_state : ℕ → EntityState) (e f : Ecs) (memory fresh : Memory) (base : ℕ)
    → Fits e
    → ((t : ℕ) → f.save_component t ≡ e.save_component t)
    → ((t : ℕ) → f.component_type_sizes t ≡ e.component_type_sizes t)
    → let bytes = (save_data e memory fresh).bytes in
      Restored e memory base bytes (load_data other_state base bytes f).ecs
load_data-save_data other_state e f memory fresh base fits flags sizes =
    let bytes = (save_data e memory fresh).bytes in
    let (global', sequences', states', masks') = loaded-tables other_state base bytes f in
    record {
      global = global' ∙ read_le_int _ _ _ fits.global (Stores-global e memory fresh);
      sequences = λ i h.
          ap (λ (a : ℕ → ℕ). a i) sequences'
          ∙ read_section-at 4 (read_le bytes 4) max_entities 0 i i 4 f.sequences (omega arith) h
          ∙ read_le_int _ _ _ (fits.sequences i) (Stores-sequence e memory fresh i h);
      states = λ i h.
          ap (λ (a : ℕ → EntityState). a i) states'
          ∙ read_section-at 4 (λ p. state_of_value other_state (read_le bytes 4 p)) max_entities 0 i
              i 2052 f.entity_states (omega arith) h
          ∙ ap (state_of_value other_state) (
              read_le_int _ _ _ (state_value-lt (e.entity_states i))
                (Stores-state e memory fresh i h))
          ∙ state_of_value-state_value other_state (e.entity_states i);
      masks = λ i h.
          ap (λ (a : ℕ → ℕ). a i) masks'
          ∙ read_section-at 8 (read_le bytes 8) max_entities 0 i i 4100 f.component_masks
              (omega arith) h
          ∙ read_le_mask _ _ _ (fits.masks i) (Stores-mask e memory fresh i h);
      components = λ t j k ht saved hj hk. (
        8196 + total_span e t 0,
        loaded-components other_state base bytes f t ht (flags t ∙ saved)
            ∙ ap (λ (n : ℕ). some (base + (8196 + n))) (total_span-cong e f flags sizes t 0),
        Stores-component e memory fresh t j k _ ht saved hj hk refl,
      );
    }

-- The section of a saved type lies inside the part of the buffer that its successors share.
span-total_span :
    (e : Ecs) (n u v t : ℕ) → v ≡ t + u → u < n → total_span e u t + span e v ≤ total_span e n t
unfolding total_span
span-total_span e zero u v t h lt = absurd (omega arith)
span-total_span e (suc n) zero v t h lt =
    let same : v ≡ t = omega arith in omega (arith, ap (span e) same)
span-total_span e (suc n) (suc u) v t h lt =
    omega (arith, span-total_span e n u v (t + 1) (omega arith) (omega arith))

module _ {H F : Type 0} (heap_free : H → ℕ → H) (fs_read : F → List ℕ → H → ReadResult H)
    (savegame : List ℕ) (other_state : ℕ → EntityState) where
  -- A load whose read succeeds gives the buffer back to the heap, and yet leaves the storage of every
  -- saved component type in that buffer: within its size, unless the file is shorter than what a save of
  -- this table takes, which the code does not test. A load whose read fails changes nothing.
  pub load_game_lem :
      (heap : H) (e : Ecs) (fs : F)
      → let r = fs_read fs savegame heap in
        let (heap', f) = load_game heap_free fs_read savegame other_state heap e fs in
        ((r.result ≢ 0) × (f ≡ e) × (heap' ≡ r.heap))
        ⊎ ((r.result ≡ 0)
            × (heap' ≡ heap_free r.heap r.buffer)
            × ((t : ℕ)
                → t < max_component_types
                → e.save_component t ≡ true
                → (a : ℕ) × (f.components t ≡ some (r.buffer + a))
                  × ((r.size < save_size e)
                      ⊎ (a + max_entities * e.component_type_sizes t ≤ r.size))))
  unfolding load_game
  load_game_lem heap e fs =
      let r = fs_read fs savegame heap in
      elim (ℕ_discrete r.result 0) [
        | yes good ↦ inr (
          good,
          ground (arith, good),
          λ t lt saved. (
            8196 + total_span e t 0,
            ground (arith, good) ∙ loaded-components other_state r.buffer r.bytes e t lt saved,
            in_buffer r.size _ (omega (arith, save_size_lem e, room t lt saved)),
          ),
        )
        | no bad ↦ inl (bad, ground arith, ground arith)
      ]
    where
      in_buffer : (size end : ℕ) → end ≤ save_size e → (size < save_size e) ⊎ (end ≤ size)
      in_buffer size end inside = ground (arith, inside)

      room :
          (t : ℕ)
          → t < max_component_types
          → e.save_component t ≡ true
          → total_span e t 0 + max_entities * e.component_type_sizes t
            ≤ total_span e max_component_types 0
      room t lt saved = ground (arith, span-total_span e max_component_types t t 0 (omega arith) lt)
