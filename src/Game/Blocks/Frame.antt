-- ===== src/Game/Blocks/Frame.antt =====
-- What a frame does to each block of src/frogger_game.c.
use evil_engine.Base.{
  ℕ, ◌<◌, ◌≡◌, ◌≢◌, ◌⊎◌, refl, ap, ◌∙◌, arith, true, false, ◌==◌, inl, inr, Bool-cases,
}
use evil_engine.Math.{Floats, Transform}
use evil_engine.Ecs.{max_entities, query_matches}
use evil_engine.Ecs.Query.{matching}
use evil_engine.Game.{Game, block_mask, speed_of}
use evil_engine.Game.Loops.{fold, for_query-fold, fold-miss, fold-hit}
use evil_engine.Game.Blocks.{Block, block_of, block_step, update_block, update_blocks}

-- The parts of the game that belong to an entity and that the loop writes.
abbrev pub parts : {F : Type 0} → ℕ → Game F → Transform F × F
parts k g = (g.transforms k, g.blocks k)

module _ {F : Type 0} (fl : Floats F) (of_ms : ℕ → F) (random : ℕ → F) (delta_ms : ℕ)
    (g : Game F) where
  abbrev speed : F
  speed = speed_of fl of_ms random delta_ms

  abbrev mask : ℕ
  mask = block_mask fl of_ms random g

  abbrev after : Game F
  after = update_blocks fl of_ms random delta_ms g

  abbrev step : ℕ → Game F → Game F
  step = update_block fl of_ms random speed

  -- The block of an entity before the frame, at the call `r` of `rand`.
  abbrev pub block_at : (r k : ℕ) → Block F
  block_at r k = record { transform = g.transforms k; scale = g.blocks k; rand_calls = r }

  step-parts :
      (k : ℕ) (s : Game F)
      → let b = block_step fl of_ms random speed (block_of fl of_ms random s k) in
        parts k (step k s) ≡ (b.transform, b.scale)
  unfolding update_block
  step-parts k s =
      let b = block_step fl of_ms random speed (block_of fl of_ms random s k) in
      let same : (k == k) ≡ true = ground arith in rw (same) refl

  step-apart : (k i : ℕ) (s : Game F) → i ≢ k → parts k (step i s) ≡ parts k s
  unfolding update_block
  step-apart k i s differs = elim (Bool-cases (i == k)) [
    | inl same ↦ absurd (differs (ground arith))
    | inr other ↦ rw (other) refl
  ]

  after-fold : after ≡ fold step (matching g.ecs mask max_entities 0) g
  unfolding update_blocks update_block
  after-fold = for_query-fold (λ (s : Game F). s.ecs) mask step g (λ i s. refl)

  -- A frame steps the block of each entity that has a transform and a block, once, with some numbers
  -- of `rand`; it changes the transform and the block of no other entity.
  pub update_blocks_lem :
      (k : ℕ)
      → k < max_entities
      → ((query_matches g.ecs mask k ≡ true)
          × (r : ℕ) × (let b = block_step fl of_ms random speed (block_at r k) in
              parts k after ≡ (b.transform, b.scale)))
        ⊎ ((query_matches g.ecs mask k ≡ false) × (parts k after ≡ parts k g))
  update_blocks_lem k small = elim (Bool-cases (query_matches g.ecs mask k)) [
    | inr miss ↦ inr (
      miss,
      ap (parts k) after-fold
          ∙ fold-miss g.ecs mask k (parts k) step (step-apart k) max_entities 0 g miss,
    )
    | inl hit ↦
        let (s, kept, done) =
          fold-hit g.ecs mask k (parts k) step (step-apart k) max_entities 0 g hit (omega arith)
            (omega arith) in
        inl (
          hit,
          s.rand_calls,
          ap (parts k) after-fold
              ∙ done
              ∙ step-parts k s
              ∙ ap
                  (λ (p : Transform F × F).
                    let b =
                      block_step fl of_ms random speed
                        (record { transform = p.0; scale = p.1; rand_calls = s.rand_calls }) in
                    (b.transform, b.scale))
                  kept,
        )
  ]
