-- ===== src/Ecs/Save/Load.antt =====
-- What the reading loops of `ecs_load_game` leave in the table.
use evil_engine.Base.{ℕ, zero, suc, ◌+◌, ◌*◌, ◌<◌, ◌≡◌, refl, arith, ◌∙◌, ap, true, some, for_loop}
use evil_engine.Ecs.{Ecs, EntityState}
use evil_engine.Ecs.Component.{Memory}
use evil_engine.Ecs.Save.{Loading, load_sequence, load_state, load_mask, load_component, read_le}
use evil_engine.Ecs.Save.Fields.{read_section}
use evil_engine.Ecs.Save.Components.{span, total_span, total_span-cong}

abbrev at_ctr : Ecs → ℕ → Loading
at_ctr e c = record { ecs = e; ctr = c }

pub load_sequences_lem :
    (bytes : Memory) (n i : ℕ) (s : Loading)
    → for_loop n i (load_sequence bytes) s ≡ record {
      ecs = record (s.ecs) {
        sequences = read_section 4 (read_le bytes 4) n i s.ctr s.ecs.sequences;
      };
      ctr = s.ctr + n * 4;
    }
unfolding for_loop read_section
load_sequences_lem bytes zero i s = ap (at_ctr s.ecs) (omega arith)
load_sequences_lem bytes (suc n) i s =
    load_sequences_lem bytes n (i + 1) (load_sequence bytes i s) ∙ ap (at_ctr _) (omega arith)

pub load_states_lem :
    (decode : ℕ → EntityState) (bytes : Memory) (n i : ℕ) (s : Loading)
    → for_loop n i (load_state decode bytes) s ≡ record {
      ecs = record (s.ecs) {
        entity_states =
            read_section 4 (λ p. decode (read_le bytes 4 p)) n i s.ctr s.ecs.entity_states;
      };
      ctr = s.ctr + n * 4;
    }
unfolding for_loop read_section
load_states_lem decode bytes zero i s = ap (at_ctr s.ecs) (omega arith)
load_states_lem decode bytes (suc n) i s =
    load_states_lem decode bytes n (i + 1) (load_state decode bytes i s)
    ∙ ap (at_ctr _) (omega arith)

pub load_masks_lem :
    (bytes : Memory) (n i : ℕ) (s : Loading)
    → for_loop n i (load_mask bytes) s ≡ record {
      ecs = record (s.ecs) {
        component_masks = read_section 8 (read_le bytes 8) n i s.ctr s.ecs.component_masks;
      };
      ctr = s.ctr + n * 8;
    }
unfolding for_loop read_section
load_masks_lem bytes zero i s = ap (at_ctr s.ecs) (omega arith)
load_masks_lem bytes (suc n) i s =
    load_masks_lem bytes n (i + 1) (load_mask bytes i s) ∙ ap (at_ctr _) (omega arith)

load_component_lem :
    (base t : ℕ) (s : Loading)
    → (load_component base t s).ecs
      ≡ record (s.ecs) { components = (load_component base t s).ecs.components }
load_component_lem base t s = ground arith

load_component-ctr :
    (base t : ℕ) (s : Loading) → (load_component base t s).ctr ≡ s.ctr + span s.ecs t
load_component-ctr base t s = ground arith

load_component-total_span :
    (base n t u : ℕ) (s : Loading)
    → total_span (load_component base t s).ecs n u ≡ total_span s.ecs n u
load_component-total_span base n t u s =
    ap (λ (e : Ecs). total_span e n u) (load_component_lem base t s)
    ∙ total_span-cong s.ecs _ (λ v. refl) (λ v. refl) n u

-- The loop over the component types changes only the addresses.
pub load_components_lem :
    (base n t : ℕ) (s : Loading)
    → (for_loop n t (load_component base) s).ecs
      ≡ record (s.ecs) { components = (for_loop n t (load_component base) s).ecs.components }
unfolding for_loop
load_components_lem base zero t s = refl
load_components_lem base (suc n) t s =
    load_components_lem base n (t + 1) (load_component base t s)
    ∙ ap
        (λ (e : Ecs). record e {
          components =
              (for_loop n (t + 1) (load_component base) (load_component base t s)).ecs.components;
        })
        (load_component_lem base t s)

load_components-before :
    (base n t v : ℕ) (s : Loading)
    → v < t
    → (for_loop n t (load_component base) s).ecs.components v ≡ s.ecs.components v
unfolding for_loop
load_components-before base zero t v s h = refl
load_components-before base (suc n) t v s h =
    ground (arith, load_components-before base n (t + 1) v (load_component base t s))

-- A saved type's address is that of its section in the buffer.
pub load_components-at :
    (base n t u v : ℕ) (s : Loading)
    → v ≡ t + u
    → u < n
    → s.ecs.save_component v ≡ true
    → (for_loop n t (load_component base) s).ecs.components v
      ≡ some (base + (s.ctr + total_span s.ecs u t))
unfolding for_loop total_span
load_components-at base zero t u v s e h saved = absurd (omega arith)
load_components-at base (suc n) t zero v s e h saved =
    load_components-before base n (t + 1) v (load_component base t s) (omega arith)
    ∙ here v same saved
  where
    same : t ≡ v
    same = omega arith

    here :
        (w : ℕ)
        → t ≡ w
        → s.ecs.save_component w ≡ true
        → (load_component base t s).ecs.components w ≡ some (base + (s.ctr + 0))
    here w at sv = ground arith
load_components-at base (suc n) t (suc u) v s e h saved =
    load_components-at base n (t + 1) u v (load_component base t s) (omega arith) (omega arith)
      (ap (λ (f : Ecs). f.save_component v) (load_component_lem base t s) ∙ saved)
    ∙ ap (λ (p : ℕ). some (base + p)) place
  where
    place :
        (load_component base t s).ctr + total_span (load_component base t s).ecs u (t + 1)
        ≡ s.ctr + (span s.ecs t + total_span s.ecs u (t + 1))
    place = omega (arith, load_component-ctr base t s, load_component-total_span base u t (t + 1) s)
