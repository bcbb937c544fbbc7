-- ===== src/Game/Players.antt =====
-- The players of src/frogger_game.c: collisions, keys, and the mouse buttons that save and load.
-- Collisions are computed in doubles, given as a second set of floats. `save` and `load` are what
-- `ecs_save_game` and `ecs_load_game` do to the game: `none` where the file cannot be read.
pub mod Collide
use evil_engine.Base.{
  ℕ, ◌+◌, Bool, true, false, ◌&&◌, Option, none, some, List, [], ◌∷◌, if◌then◌else◌, test_bit,
  update,
}
use evil_engine.Math.{
  Floats, Vec3, Transform, vec3f_add, vec3f_scale, vec3f_up, vec3f_right, transform_identity,
  transform_multiply,
}
use evil_engine.Game.{
  Game, for_query, game_mask, block_mask, moved_by, start_transform, speed_of, set_transform,
}

pub record Input : Type 0 where
  pub delta_ms : ℕ
  pub key_mask : ℕ
  pub mouse_mask : ℕ

module _ {F D : Type 0} (fl : Floats F) (of_ms : ℕ → F) (random : ℕ → F) (dl : Floats D)
    (widen : F → D) (save : Game F → Game F) (load : Game F → Option (Game F)) where
  abbrev pub player_mask : Game F → ℕ
  player_mask g = game_mask fl of_ms random g (λ t. t.transform_type ∷ t.player_type ∷ [])

  abbrev pub start : Transform F
  start = start_transform fl of_ms random

  abbrev pub fifth : D
  fifth = dl.literal 200

  -- `a - r <= b + 0.2 && a + r >= b - 0.2`
  abbrev pub is_near : (a r b : D) → Bool
  is_near a r b =
      dl.less_or_equal (dl.sub a r) (dl.add b fifth)
      && dl.less_or_equal (dl.sub b fifth) (dl.add a r)

  unfoldable pub overlaps : (player block : Vec3 F) → (block_width : F) → Bool
  overlaps player block block_width =
      is_near (widen block.y) (dl.mul fifth (widen block_width)) (widen player.y)
      && is_near (widen block.z) fifth (widen player.z)

  -- The body of the loop over the blocks, for the player `p` that stood at `place` before it.
  unfoldable pub collide_block : (p : ℕ) → (place : Vec3 F) → ℕ → Game F → Game F
  collide_block p place i g =
      if overlaps place ((g.transforms i).translation) (g.blocks i)
      then set_transform fl of_ms random p start g
      else g

  unfoldable pub collide : (p : ℕ) → Game F → Game F
  collide p g =
      for_query (λ (s : Game F). s.ecs) (block_mask fl of_ms random g)
        (collide_block p ((g.transforms p).translation)) g

  abbrev pub move_key : (key_mask bit : ℕ) → Vec3 F → Transform F → Transform F
  move_key key_mask bit v move =
      if test_bit key_mask bit then moved_by fl of_ms random move v else move

  -- The move that the keys up, down, left and right add up to.
  unfoldable pub key_move : (speed : F) → (key_mask : ℕ) → Transform F
  key_move speed key_mask =
      let up =
        move_key key_mask 0 (vec3f_scale fl (vec3f_up fl) (fl.neg speed)) (transform_identity fl) in
      let down = move_key key_mask 1 (vec3f_scale fl (vec3f_up fl) speed) up in
      let left = move_key key_mask 2 (vec3f_scale fl (vec3f_right fl) (fl.neg speed)) down in
      move_key key_mask 3 (vec3f_scale fl (vec3f_right fl) speed) left

  -- The start of the round: a player behind the last row starts again.
  unfoldable pub finish_line : (p : ℕ) → Game F → Game F
  finish_line p g =
      if fl.less (g.transforms p).translation.z (fl.neg (fl.literal 4000))
      then set_transform fl of_ms random p start g
      else g

  unfoldable pub move_player : (p : ℕ) → (move : Transform F) → Game F → Game F
  move_player p move g =
      set_transform fl of_ms random p (transform_multiply fl (g.transforms p) move) g

  -- The body of the loop over the players. `transform_comp` points to the storage from before a load,
  -- so behind a load that succeeds the move is written where nothing reads it.
  unfoldable pub update_player : Input → (p : ℕ) → Game F → Game F
  update_player input p g =
      let collided = collide p (finish_line p g) in
      let move = key_move (speed_of fl of_ms random input.delta_ms) input.key_mask in
      let saved = if test_bit input.mouse_mask 0 then save collided else collided in
      let loaded = if test_bit input.mouse_mask 1 then load saved else none in
      elim loaded [ some g' ↦ g' | none ↦ move_player p move saved ]

  unfoldable pub update_players : Input → Game F → Game F
  update_players input g = for_query (λ (s : Game F). s.ecs) (player_mask g) (update_player input) g
