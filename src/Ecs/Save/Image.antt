-- ===== src/Ecs/Save/Image.antt =====
-- What stands where in the buffer that `ecs_save_game` of src/ecs.c fills.
use evil_engine.Base.{
  ℕ, zero, suc, ◌+◌, ◌*◌, ◌<◌, ◌≡◌, arith, ◌∙◌, ap, true, if◌then◌else◌, for_loop,
}
use evil_engine.Ecs.{Ecs, max_entities, max_component_types, state_value}
use evil_engine.Ecs.Component.{Memory}
use evil_engine.Ecs.Save.{
  Cursor, write_field, write_section, component_byte, byte_of, save_data, save_size,
}
use evil_engine.Ecs.Save.Sections.{
  write_field-ctr, write_field-at, write_section-ctr, write_section-at, write_section-below,
}
use evil_engine.Ecs.Save.Components.{
  total_span, write_components-ctr, write_components-below, write_components-at,
}
use evil_engine.Ecs.Save.Fields.{Stores}

save_size_from :
    (e : Ecs) (n t s : ℕ)
    → for_loop n t
        (λ u size.
          if e.save_component u then size + max_entities * e.component_type_sizes u else size)
        s
      ≡ s + total_span e n t
unfolding for_loop total_span
save_size_from e zero t s = omega arith
save_size_from e (suc n) t s = ground (
  arith,
  save_size_from e n (t + 1) s,
  save_size_from e n (t + 1) (s + max_entities * e.component_type_sizes t),
)

pub save_size_lem : (e : Ecs) → save_size e ≡ 8196 + total_span e max_component_types 0
unfolding save_size
save_size_lem e = save_size_from e max_component_types 0 8196

module _ (e : Ecs) (memory fresh : Memory) where
  -- The cursor after each section of `save_data` before the components.
  abbrev c0 : Cursor
  c0 = write_field 4 (byte_of e.global_sequence) (record { bytes = fresh; ctr = 0 })

  abbrev c1 : Cursor
  c1 = write_section 4 (λ i. byte_of (e.sequences i)) max_entities 0 c0

  abbrev c2 : Cursor
  c2 = write_section 4 (λ i. byte_of (state_value (e.entity_states i))) max_entities 0 c1

  abbrev c3 : Cursor
  c3 = write_section 8 (λ i. byte_of (e.component_masks i)) max_entities 0 c2

  c0-ctr : c0.ctr ≡ 4
  c0-ctr =
      omega
        (arith, write_field-ctr 4 (byte_of e.global_sequence) (record { bytes = fresh; ctr = 0 }))

  c1-ctr : c1.ctr ≡ 2052
  c1-ctr =
      omega (arith, c0-ctr, write_section-ctr 4 (λ i. byte_of (e.sequences i)) max_entities 0 c0)

  c2-ctr : c2.ctr ≡ 4100
  c2-ctr = omega (
    arith,
    c1-ctr,
    write_section-ctr 4 (λ i. byte_of (state_value (e.entity_states i))) max_entities 0 c1,
  )

  c3-ctr : c3.ctr ≡ 8196
  c3-ctr =
      omega
        (arith, c2-ctr, write_section-ctr 8 (λ i. byte_of (e.component_masks i)) max_entities 0 c2)

  -- `ecs_save_game` fills exactly the buffer that it allocates.
  pub save_data-ctr : (save_data e memory fresh).ctr ≡ save_size e
  unfolding save_data
  save_data-ctr =
      omega (arith, c3-ctr, save_size_lem e, write_components-ctr e memory max_component_types 0 c3)

  abbrev file : Memory
  file = (save_data e memory fresh).bytes

  after_c3 : (p : ℕ) → p < 8196 → file p ≡ c3.bytes p
  unfolding save_data
  after_c3 p h = write_components-below e memory max_component_types 0 p c3 (omega (arith, c3-ctr))

  after_c2 : (p : ℕ) → p < 4100 → file p ≡ c2.bytes p
  after_c2 p h =
      after_c3 p (omega arith)
      ∙ write_section-below 8 (λ i. byte_of (e.component_masks i)) max_entities 0 p c2
          (omega (arith, c2-ctr))

  after_c1 : (p : ℕ) → p < 2052 → file p ≡ c1.bytes p
  after_c1 p h =
      after_c2 p (omega arith)
      ∙ write_section-below 4 (λ i. byte_of (state_value (e.entity_states i))) max_entities 0 p c1
          (omega (arith, c1-ctr))

  after_c0 : (p : ℕ) → p < 4 → file p ≡ c0.bytes p
  after_c0 p h =
      after_c1 p (omega arith)
      ∙ write_section-below 4 (λ i. byte_of (e.sequences i)) max_entities 0 p c0
          (omega (arith, c0-ctr))

  zero_add : (i : ℕ) → 0 + i ≡ i
  zero_add i = omega arith

  pub Stores-global : Stores file 4 0 e.global_sequence
  Stores-global k q h at =
      after_c0 q (omega arith)
      ∙ ap c0.bytes at
      ∙ write_field-at 4 k (byte_of e.global_sequence) (record { bytes = fresh; ctr = 0 }) h

  pub Stores-sequence : (i : ℕ) → i < max_entities → Stores file 4 (4 + i * 4) (e.sequences i)
  Stores-sequence i lt k q h at =
      after_c1 q (omega arith)
      ∙ write_section-at 4 (λ j. byte_of (e.sequences j)) max_entities 0 i k q c0 lt h
          (omega (arith, c0-ctr))
      ∙ ap (λ (j : ℕ). byte_of (e.sequences j) k) (zero_add i)

  pub Stores-state :
      (i : ℕ) → i < max_entities → Stores file 4 (2052 + i * 4) (state_value (e.entity_states i))
  Stores-state i lt k q h at =
      after_c2 q (omega arith)
      ∙ write_section-at 4 (λ j. byte_of (state_value (e.entity_states j))) max_entities 0 i k q c1
          lt h (omega (arith, c1-ctr))
      ∙ ap (λ (j : ℕ). byte_of (state_value (e.entity_states j)) k) (zero_add i)

  pub Stores-mask : (i : ℕ) → i < max_entities → Stores file 8 (4100 + i * 8) (e.component_masks i)
  Stores-mask i lt k q h at =
      after_c3 q (omega arith)
      ∙ write_section-at 8 (λ j. byte_of (e.component_masks j)) max_entities 0 i k q c2 lt h
          (omega (arith, c2-ctr))
      ∙ ap (λ (j : ℕ). byte_of (e.component_masks j) k) (zero_add i)

  pub Stores-component :
      (t j k p : ℕ)
      → t < max_component_types
      → e.save_component t ≡ true
      → j < max_entities
      → k < e.component_type_sizes t
      → p ≡ 8196 + total_span e t 0 + (j * e.component_type_sizes t + k)
      → file p ≡ component_byte e memory t j k
  unfolding save_data
  Stores-component t j k p ht saved hj hk at =
      write_components-at e memory max_component_types 0 t t j k p c3 (omega arith) ht saved hj hk
        (omega (arith, c3-ctr))
