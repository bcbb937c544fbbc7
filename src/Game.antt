-- ===== src/Game.antt =====
-- src/frogger_game.c: the entities of the game and what a frame does to them.
-- The components are kept as values by the index of their entity: that they lie apart in memory is
-- about src/ecs.c. Floats are a parameter, with `of_ms` for `(float)` of a number of milliseconds, and
-- `random k` for what the k-th call of `rand` gives divided by RAND_MAX. The addresses of the meshes
-- and of the shader are numbers, and a `name` is what strcpy_s leaves in the array.
pub mod Loops
pub mod Blocks
pub mod Players
pub mod Draw
mod Tests
use evil_engine.Base.{
  ℕ, zero, suc, ◌+◌, ◌-◌, ◌*◌, ◌%◌, ◌^◌, bit_or, Bool, true, false, Option, none, some, List, [],
  ◌∷◌, ◌++◌, ltb, leb, ◌==◌, if◌then◌else◌, test_bit, update, for_loop,
}
use evil_engine.Math.{
  Floats, Vec3, Mat4, Transform, vec3f_add, vec3f_scale, vec3f_up, vec3f_right, vec3f_forward,
  transform_identity, transform_multiply, transform_to_matrix,
}
use evil_engine.Math.Camera.{mat4f_make_orthographic, mat4f_make_lookat}
use evil_engine.Ecs.{
  Ecs, EntityRef, QueryState, max_entities, entity_add, ecs_update, query_create, query_next,
  query_is_valid, query_get_entity,
}

pub record Camera (F : Type 0) : Type 0 where
  pub projection : Mat4 F
  pub view : Mat4 F

pub record Model : Type 0 where
  pub mesh_info : ℕ
  pub shader_info : ℕ

-- The types that `ecs_register_component_type` gave.
pub record Types : Type 0 where
  pub transform_type : ℕ
  pub camera_type : ℕ
  pub model_type : ℕ
  pub player_type : ℕ
  pub block_type : ℕ
  pub name_type : ℕ

-- The contents of a uniform buffer.
pub record Uniforms (F : Type 0) : Type 0 where
  pub projection : Mat4 F
  pub model : Mat4 F
  pub view : Mat4 F

pub record Game (F : Type 0) : Type 0 where
  pub types : Types
  pub ecs : Ecs
  pub transforms : ℕ → Transform F
  pub cameras : ℕ → Camera F
  pub models : ℕ → Model
  pub players : ℕ → ℕ
  pub blocks : ℕ → F
  pub names : ℕ → List ℕ
  pub player_ent : EntityRef
  pub camera_ent : EntityRef
  pub block_ents : ℕ → EntityRef
  pub cube_mesh : ℕ
  pub block_mesh : ℕ
  pub cube_shader : ℕ
  pub rand_calls : ℕ

-- The loop `for (q = create(mask); is_valid(q); next(q)) body(q)`, over a state whose entity table the
-- body may change. The fuel bounds the rounds.
unfoldable pub query_rounds :
    {S : Type 0} → (S → Ecs) → (ℕ → S → S) → (fuel : ℕ) → QueryState → S → S
query_rounds ecs body zero q s = s
query_rounds ecs body (suc fuel) q s = elim (query_is_valid q) [
  | true ↦ let s' = body q.entity s in query_rounds ecs body fuel (query_next (ecs s') q) s'
  | false ↦ s
]

unfoldable pub for_query : {S : Type 0} → (S → Ecs) → (mask : ℕ) → (ℕ → S → S) → S → S
for_query ecs mask body s = query_rounds ecs body (max_entities + 1) (query_create (ecs s) mask) s

abbrev pub mask_of : List ℕ → ℕ
mask_of [] = 0
mask_of (t ∷ ts) = bit_or (2 ^ t) (mask_of ts)

module _ {F : Type 0} (fl : Floats F) (of_ms : ℕ → F) (random : ℕ → F) where
  infixl 40 ◌⊕◌
  infixl 50 ◌⊗◌
  abbrev ◌⊕◌ : F → F → F
  a ⊕ b = fl.add a b

  abbrev ◌⊗◌ : F → F → F
  a ⊗ b = fl.mul a b

  -- `((((float)rand() / RAND_MAX) * 2) + 1) * 4`
  abbrev pub random_scale : ℕ → F
  random_scale k = (random k ⊗ fl.literal 2000 ⊕ fl.literal 1000) ⊗ fl.literal 4000

  abbrev pub moved_by : Transform F → Vec3 F → Transform F
  moved_by t v = record t { translation = vec3f_add fl t.translation v }

  -- The transform that a player starts from.
  abbrev pub start_transform : Transform F
  start_transform =
      moved_by (transform_identity fl) (vec3f_scale fl (vec3f_up fl) (fl.literal 4000))

  abbrev pub game_mask : Game F → (Types → List ℕ) → ℕ
  game_mask g pick = mask_of (pick g.types)

  unfoldable pub spawn_player : (name : List ℕ) → (index : ℕ) → Game F → Game F
  spawn_player name index g =
      let added =
        entity_add g.ecs
          (game_mask g (λ t. t.transform_type ∷ t.model_type ∷ t.player_type ∷ t.name_type ∷ [])) in
      let e = added.0.entity in
      record g {
        ecs = added.1;
        player_ent = added.0;
        transforms = update g.transforms e start_transform;
        names = update g.names e name;
        players = update g.players e index;
        models =
            update g.models e (record { mesh_info = g.cube_mesh; shader_info = g.cube_shader });
      }

  -- Where block `i` starts: its row, and its place in the row.
  abbrev pub row_height : ℕ → F
  row_height i =
      if leb i 3
      then fl.literal 2000
      else if leb i 7
      then fl.literal 0
      else fl.neg (fl.literal 2000)

  abbrev pub block_place : ℕ → F
  block_place i = fl.sub (fl.literal 1500) (fl.literal (i % 4 * 1000)) ⊗ fl.literal 6000

  unfoldable pub spawn_block : (name : List ℕ) → ℕ → Game F → Game F
  spawn_block name i g =
      let added =
        entity_add g.ecs
          (game_mask g (λ t. t.transform_type ∷ t.model_type ∷ t.block_type ∷ t.name_type ∷ [])) in
      let e = added.0.entity in
      let in_row = moved_by (transform_identity fl) (vec3f_scale fl (vec3f_up fl) (row_height i)) in
      let placed = moved_by in_row (vec3f_scale fl (vec3f_right fl) (block_place i)) in
      let width = random_scale g.rand_calls in
      record g {
        ecs = added.1;
        block_ents = update g.block_ents i added.0;
        transforms =
            update g.transforms e (record placed { scale = record (placed.scale) { y = width } });
        names = update g.names e name;
        blocks = update g.blocks e width;
        models =
            update g.models e (record { mesh_info = g.block_mesh; shader_info = g.cube_shader });
        rand_calls = g.rand_calls + 1;
      }

  unfoldable pub spawn_blocks : (name : List ℕ) → Game F → Game F
  spawn_blocks name = for_loop 12 0 (spawn_block name)

  -- The angle is `(float)M_PI / 2.0f`.
  unfoldable pub spawn_camera : (name : List ℕ) → Game F → Game F
  spawn_camera name g =
      let added = entity_add g.ecs (game_mask g (λ t. t.camera_type ∷ t.name_type ∷ [])) in
      let e = added.0.entity in
      let eye = vec3f_scale fl (vec3f_forward fl) (fl.neg (fl.literal 5000)) in
      record g {
        ecs = added.1;
        camera_ent = added.0;
        names = update g.names e name;
        cameras = update g.cameras e (record {
          projection =
              mat4f_make_orthographic fl fl.half_pi (fl.div (fl.literal 16000) (fl.literal 9000))
                (fl.literal 100) (fl.literal 100000);
          view = mat4f_make_lookat fl eye (vec3f_forward fl) (vec3f_up fl);
        });
      }

  -- `dt * 2` of `update_blocks` and `update_players`.
  abbrev pub speed_of : (delta_ms : ℕ) → F
  speed_of delta_ms = (of_ms delta_ms ⊗ fl.literal 1) ⊗ fl.literal 2000

  abbrev pub block_mask : Game F → ℕ
  block_mask g = game_mask g (λ t. t.transform_type ∷ t.block_type ∷ [])

  abbrev pub set_transform : ℕ → Transform F → Game F → Game F
  set_transform i t g = record g { transforms = update g.transforms i t }
