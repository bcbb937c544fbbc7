-- ===== src/Game/Tests.antt =====
-- The game of src/frogger_game.c on small inputs.
use evil_engine.Base.{
  ℕ, ◌+◌, ◌-◌, ◌*◌, ◌/◌, ◌≡◌, ◌⊎◌, refl, arith, false, true, Option, none, [], ◌∷◌, map, ◌++◌, ◌==◌,
  leb, ltb, if◌then◌else◌,
}
use evil_engine.Math.{Floats, transform_identity}
use evil_engine.Ecs.{Ecs, create, active, unused, no_entity, max_entities, query_matches}
use evil_engine.Ecs.Query.{matching}
use evil_engine.Render.{frame_done}
use evil_engine.Game.{Game, block_mask, speed_of}
use evil_engine.Game.Blocks.{block_step, update_blocks}
use evil_engine.Game.Blocks.Frame.{parts, block_at, update_blocks_lem}
use evil_engine.Game.Players.{collide}
use evil_engine.Game.Players.Collide.{any, hits, restart, collide_lem}
use evil_engine.Game.Draw.{
  concat_map, camera_mask, model_mask, model_push, draw_models, draw_models_lem,
}

-- Thousandths for floats.
abbrev fixed : Floats ℕ
fixed = record {
  literal = λ n. n;
  epsilon = 0;
  half_pi = 1571;
  add = λ a b. a + b;
  sub = λ a b. a - b;
  mul = λ a b. a * b / 1000;
  div = λ a b. a * 1000 / b;
  neg = λ a. 0;
  sqrt = λ a. a;
  sin = λ a. 0;
  cos = λ a. 1000;
  tan = λ a. 0;
  asin = λ a. 0;
  abs = λ a. a;
  atan2 = λ a b. a;
  copysign = λ a b. a;
  equal = λ a b. a == b;
  less = λ a b. ltb a b;
  less_or_equal = λ a b. leb a b;
}

-- A table with a block at 0 and a player at 1.
abbrev table : Ecs
table = record create {
  entity_states = λ i. if ltb i 2 then active else unused;
  component_masks = λ i. if i == 0 then 17 else 9;
}

abbrev board : Game ℕ
board = record {
  types = record {
    transform_type = 0;
    camera_type = 1;
    model_type = 2;
    player_type = 3;
    block_type = 4;
    name_type = 5;
  };
  ecs = table;
  transforms = λ i. transform_identity fixed;
  cameras = λ i. record { projection = λ a b. 0; view = λ a b. 0 };
  models = λ i. record { mesh_info = 7; shader_info = 8 };
  players = λ i. 0;
  blocks = λ i. 4000;
  names = λ i. [];
  player_ent = no_entity;
  camera_ent = no_entity;
  block_ents = λ i. no_entity;
  cube_mesh = 7;
  block_mesh = 9;
  cube_shader = 8;
  rand_calls = 0;
}

abbrev half : ℕ → ℕ
half k = 500

abbrev block_types : ℕ
block_types = block_mask fixed (λ ms. ms * 1000) half board

update_blocks_lem_example :
    ((query_matches table block_types 0 ≡ true)
      × (r : ℕ) × (let b =
            block_step fixed
              (λ ms. ms * 1000)
              half
              (speed_of fixed (λ ms. ms * 1000) half 16)
              (block_at fixed (λ ms. ms * 1000) half 16 board r 0) in
          parts 0 (update_blocks fixed (λ ms. ms * 1000) half 16 board) ≡ (b.transform, b.scale)))
    ⊎ ((query_matches table block_types 0 ≡ false)
        × (parts 0 (update_blocks fixed (λ ms. ms * 1000) half 16 board) ≡ parts 0 board))
update_blocks_lem_example = update_blocks_lem fixed (λ ms. ms * 1000) half 16 board 0 (omega arith)

abbrev as_it_was : Game ℕ → Game ℕ
as_it_was g = g

abbrev no_file : Game ℕ → Option (Game ℕ)
no_file g = none

player_differs : query_matches table block_types 1 ≡ false
unfolding create
player_differs = refl

collide_lem_example :
    collide fixed (λ ms. ms * 1000) half fixed (λ a. a) as_it_was no_file 1 board ≡ (
      if any
        (hits fixed (λ ms. ms * 1000) half fixed (λ a. a) as_it_was no_file board 1)
        (matching table block_types max_entities 0)
      then restart fixed (λ ms. ms * 1000) half fixed (λ a. a) as_it_was no_file board 1 board
      else board)
collide_lem_example =
    collide_lem fixed (λ ms. ms * 1000) half fixed (λ a. a) as_it_was no_file board 1 player_differs

draw_models_lem_example :
    draw_models fixed (λ ms. ms * 1000) half board (frame_done ∷ [])
    ≡ (frame_done ∷ [])
      ++ concat_map
          (λ camera.
            map
              (model_push fixed (λ ms. ms * 1000) half board camera)
              (matching table (model_mask fixed (λ ms. ms * 1000) half board) max_entities 0))
          (matching table (camera_mask fixed (λ ms. ms * 1000) half board) max_entities 0)
draw_models_lem_example = draw_models_lem fixed (λ ms. ms * 1000) half board (frame_done ∷ [])
