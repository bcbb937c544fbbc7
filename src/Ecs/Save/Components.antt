-- ===== src/Ecs/Save/Components.antt =====
-- The component sections of the save file: where each starts, and that they fill the buffer.
use mathlib.Core.Path.{ap₂}
use evil_engine.Base.{
  ℕ, zero, suc, ◌+◌, ◌*◌, ◌<◌, ◌≡◌, refl, arith, ◌∙◌, ap, true, if◌then◌else◌, for_loop,
}
use evil_engine.Ecs.{Ecs, max_entities}
use evil_engine.Ecs.Component.{Memory}
use evil_engine.Ecs.Save.{Cursor, write_component, write_components, component_byte}
use evil_engine.Ecs.Save.Sections.{write_section-ctr, write_section-below, write_section-at}

-- The bytes that type `t` takes in the file.
abbrev pub span : Ecs → ℕ → ℕ
span e t = if e.save_component t then max_entities * e.component_type_sizes t else 0

-- The bytes that `n` types from `t` on take.
unfoldable pub total_span : Ecs → ℕ → ℕ → ℕ
total_span e zero t = 0
total_span e (suc n) t = span e t + total_span e n (t + 1)

-- It depends on the flags and the sizes alone.
pub total_span-cong :
    (e f : Ecs)
    → ((u : ℕ) → f.save_component u ≡ e.save_component u)
    → ((u : ℕ) → f.component_type_sizes u ≡ e.component_type_sizes u)
    → (n t : ℕ) → total_span f n t ≡ total_span e n t
unfolding total_span
total_span-cong e f flags sizes zero t = refl
total_span-cong e f flags sizes (suc n) t =
    ap₂ ◌+◌ (ground (arith, flags t, sizes t)) (total_span-cong e f flags sizes n (t + 1))

module _ (e : Ecs) (memory : Memory) where
  write_component-ctr : (t : ℕ) (c : Cursor) → (write_component e memory t c).ctr ≡ c.ctr + span e t
  unfolding write_component
  write_component-ctr t c = ground (
    arith,
    write_section-ctr (e.component_type_sizes t) (component_byte e memory t) max_entities 0 c,
  )

  write_component-below :
      (t p : ℕ) (c : Cursor) → p < c.ctr → (write_component e memory t c).bytes p ≡ c.bytes p
  unfolding write_component
  write_component-below t p c h = ground (
    arith,
    write_section-below (e.component_type_sizes t) (component_byte e memory t) max_entities 0 p c,
  )

  write_component-at :
      (t j k p : ℕ) (c : Cursor)
      → e.save_component t ≡ true
      → j < max_entities
      → k < e.component_type_sizes t
      → p ≡ c.ctr + (j * e.component_type_sizes t + k)
      → (write_component e memory t c).bytes p ≡ component_byte e memory t j k
  unfolding write_component
  write_component-at t j k p c saved hj hk h =
      rw (saved, write_component)
        (write_section-at (e.component_type_sizes t) (component_byte e memory t) max_entities 0 j k
            p c hj hk h
          ∙ ap (λ (i : ℕ). component_byte e memory t i k) (zero-add j))
    where
      zero-add : (i : ℕ) → 0 + i ≡ i
      zero-add i = omega arith

  pub write_components-ctr :
      (n t : ℕ) (c : Cursor) → (write_components e memory n t c).ctr ≡ c.ctr + total_span e n t
  unfolding write_components for_loop total_span
  write_components-ctr zero t c = omega arith
  write_components-ctr (suc n) t c = omega (
    arith,
    write_components-ctr n (t + 1) (write_component e memory t c),
    write_component-ctr t c,
  )

  pub write_components-below :
      (n t p : ℕ) (c : Cursor) → p < c.ctr → (write_components e memory n t c).bytes p ≡ c.bytes p
  unfolding write_components for_loop
  write_components-below zero t p c h = refl
  write_components-below (suc n) t p c h =
      write_components-below n (t + 1) p (write_component e memory t c)
        (omega (arith, write_component-ctr t c))
      ∙ write_component-below t p c h

  -- Byte `k` of the component of type `v` of entity `j`, where `v` is `u` types on.
  pub write_components-at :
      (n t u v j k p : ℕ) (c : Cursor)
      → v ≡ t + u
      → u < n
      → e.save_component v ≡ true
      → j < max_entities
      → k < e.component_type_sizes v
      → p ≡ c.ctr + total_span e u t + (j * e.component_type_sizes v + k)
      → (write_components e memory n t c).bytes p ≡ component_byte e memory v j k
  unfolding write_components for_loop total_span
  write_components-at zero t u v j k p c at hu saved hj hk h = absurd (omega arith)
  write_components-at (suc n) t zero v j k p c at hu saved hj hk h =
      let same : t ≡ v = omega arith in
      write_components-below n (t + 1) p (write_component e memory t c)
        (omega (arith, fits, write_component-ctr t c, ap (span e) same))
      ∙ ap (λ (i : ℕ). (write_component e memory i c).bytes p) same
      ∙ write_component-at v j k p c saved hj hk (omega arith)
    where
      fits : j * e.component_type_sizes v + k < span e v
      fits = rw saved (grind arith)
  write_components-at (suc n) t (suc u) v j k p c at hu saved hj hk h =
      write_components-at n (t + 1) u v j k p (write_component e memory t c) (omega arith)
        (omega arith) saved hj hk (omega (arith, write_component-ctr t c))
