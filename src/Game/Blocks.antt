-- ===== src/Game/Blocks.antt =====
-- The blocks of src/frogger_game.c: what `update_blocks` does to them in a frame.
pub mod Frame
use evil_engine.Base.{
  ℕ, zero, suc, ◌+◌, ◌<◌, ◌≡◌, ◌≢◌, refl, ap, ◌∙◌, arith, Bool, true, false, ◌&&◌, ◌||◌, ◌==◌,
  if◌then◌else◌, inl, inr, Bool-cases, List, [], ◌∷◌, update,
}
use evil_engine.Math.{
  Floats, Vec3, Transform, vec3f_add, vec3f_scale, vec3f_right, transform_identity,
  transform_multiply,
}
use evil_engine.Ecs.{Ecs, max_entities, query_matches}
use evil_engine.Ecs.Query.{matching}
use evil_engine.Game.{Game, for_query, block_mask, random_scale, moved_by, speed_of}
use evil_engine.Game.Loops.{fold, for_query-fold, fold-miss, fold-hit}

-- What `update_blocks` reads and writes of an entity, and how often `rand` has been called.
pub record Block (F : Type 0) : Type 0 where
  pub transform : Transform F
  pub scale : F
  pub rand_calls : ℕ

module _ {F : Type 0} (fl : Floats F) (of_ms : ℕ → F) (random : ℕ → F) where
  -- The middle row, and the others.
  abbrev pub is_middle : Vec3 F → Bool
  is_middle v = fl.less v.z (fl.literal 1000) && fl.less (fl.neg (fl.literal 1000)) v.z

  abbrev pub is_outer : Vec3 F → Bool
  is_outer v = fl.less (fl.literal 1000) v.z || fl.less v.z (fl.neg (fl.literal 1000))

  -- The block at the other side, with a new width.
  abbrev pub reset_to : F → Block F → Block F
  reset_to y b = record {
    transform = record (b.transform) { translation = record (b.transform.translation) { y = y } };
    scale = random_scale fl of_ms random b.rand_calls;
    rand_calls = b.rand_calls + 1;
  }

  unfoldable pub wrap_right : Block F → Block F
  wrap_right b =
      if fl.less (fl.literal 12000) b.transform.translation.y && is_middle b.transform.translation
      then reset_to (fl.neg (fl.literal 12000)) b
      else b

  unfoldable pub wrap_left : Block F → Block F
  wrap_left b =
      if fl.less b.transform.translation.y (fl.neg (fl.literal 12000))
        && is_outer b.transform.translation
      then reset_to (fl.literal 12000) b
      else b

  -- How a row moves in a frame.
  unfoldable pub row_move : (speed : F) → Vec3 F → Vec3 F
  row_move speed v =
      if fl.less (fl.literal 1000) v.z
      then vec3f_scale fl (vec3f_right fl) (fl.neg speed)
      else if fl.less v.z (fl.neg (fl.literal 1000))
      then vec3f_scale fl (vec3f_right fl) (fl.mul (fl.neg speed) (fl.literal 2000))
      else vec3f_scale fl (vec3f_right fl) (fl.mul speed (fl.literal 1500))

  -- The body of the loop on an entity.
  unfoldable pub block_step : (speed : F) → Block F → Block F
  block_step speed b =
      let w = wrap_left (wrap_right b) in
      let wide = record (w.transform) { scale = record (w.transform.scale) { y = w.scale } } in
      let move =
        moved_by fl of_ms random (transform_identity fl) (row_move speed wide.translation) in
      record w { transform = transform_multiply fl wide move }

  abbrev pub block_of : Game F → ℕ → Block F
  block_of g i = record {
    transform = g.transforms i;
    scale = g.blocks i;
    rand_calls = g.rand_calls;
  }

  abbrev pub with_block : Game F → ℕ → Block F → Game F
  with_block g i b = record g {
    transforms = update g.transforms i b.transform;
    blocks = update g.blocks i b.scale;
    rand_calls = b.rand_calls;
  }

  unfoldable pub update_block : (speed : F) → ℕ → Game F → Game F
  update_block speed i g = with_block g i (block_step speed (block_of g i))

  unfoldable pub update_blocks : (delta_ms : ℕ) → Game F → Game F
  update_blocks delta_ms g =
      for_query (λ (s : Game F). s.ecs) (block_mask fl of_ms random g)
        (update_block (speed_of fl of_ms random delta_ms)) g
