-- ===== src/Game/Draw.antt =====
-- The drawing of src/frogger_game.c, and a whole frame.
use evil_engine.Base.{ℕ, ◌≡◌, refl, sym, ap, ◌∙◌, fun_ext, Option, List, [], ◌∷◌, ◌++◌, map}
use mathlib.Core.List.{append_assoc, append-nil}
use evil_engine.Math.{Floats, transform_to_matrix}
use evil_engine.Ecs.{max_entities, ecs_update, query_get_entity}
use evil_engine.Ecs.Query.{matching}
use evil_engine.Game.{Game, Uniforms, for_query, game_mask}
use evil_engine.Render.{Command, model, render_push_model, render_push_done}
use evil_engine.Game.Loops.{fold, for_query-fold}
use evil_engine.Game.Blocks.{update_blocks}
use evil_engine.Game.Players.{Input, update_players}

-- Lists that a loop appends to.
unfoldable pub concat_map : {A : Type 0} → (ℕ → List A) → List ℕ → List A
concat_map f [] = []
concat_map f (i ∷ is) = f i ++ concat_map f is

fold-append :
    {A : Type 0} (f : ℕ → List A) (is : List ℕ) (done : List A)
    → fold (λ i l. l ++ f i) is done ≡ done ++ concat_map f is
unfolding fold concat_map
fold-append f [] done = sym (append-nil done)
fold-append f (i ∷ is) done =
    fold-append f is (done ++ f i) ∙ append_assoc done (f i) (concat_map f is)

concat_map-single :
    {A : Type 0} (f : ℕ → A) (is : List ℕ) → concat_map (λ i. f i ∷ []) is ≡ map f is
unfolding concat_map
concat_map-single f [] = refl
concat_map-single f (i ∷ is) = ap (λ l. f i ∷ l) (concat_map-single f is)

module _ {F : Type 0} (fl : Floats F) (of_ms : ℕ → F) (random : ℕ → F) where
  abbrev pub camera_mask : Game F → ℕ
  camera_mask g = game_mask fl of_ms random g (λ t. t.camera_type ∷ [])

  abbrev pub model_mask : Game F → ℕ
  model_mask g = game_mask fl of_ms random g (λ t. t.transform_type ∷ t.model_type ∷ [])

  abbrev pub uniforms_of : Game F → (camera model : ℕ) → Uniforms F
  uniforms_of g camera i = record {
    projection = (g.cameras camera).projection;
    model = transform_to_matrix fl (g.transforms i);
    view = (g.cameras camera).view;
  }

  -- The command for an entity that a camera sees.
  unfoldable pub model_push : Game F → (camera model : ℕ) → Command (Uniforms F)
  model_push g camera i = model (record {
    entity = query_get_entity g.ecs (record { component_mask = model_mask g; entity = i });
    mesh = (g.models i).mesh_info;
    shader = (g.models i).shader_info;
    uniform_buffer = uniforms_of g camera i;
  })

  -- The body of the inner loop.
  unfoldable pub push_model :
      Game F → (camera i : ℕ) → List (Command (Uniforms F)) → List (Command (Uniforms F))
  push_model g camera i =
      render_push_model
        (query_get_entity g.ecs (record { component_mask = model_mask g; entity = i }))
        (g.models i).mesh_info (g.models i).shader_info (uniforms_of g camera i)

  unfoldable pub draw_camera :
      Game F → (camera : ℕ) → List (Command (Uniforms F)) → List (Command (Uniforms F))
  draw_camera g camera =
      for_query (λ (l : List (Command (Uniforms F))). g.ecs) (model_mask g) (push_model g camera)

  unfoldable pub draw_models : Game F → List (Command (Uniforms F)) → List (Command (Uniforms F))
  draw_models g =
      for_query (λ (l : List (Command (Uniforms F))). g.ecs) (camera_mask g) (draw_camera g)

  draw_camera_lem :
      (g : Game F) (camera : ℕ) (l : List (Command (Uniforms F)))
      → draw_camera g camera l
        ≡ l ++ map (model_push g camera) (matching g.ecs (model_mask g) max_entities 0)
  unfolding draw_camera push_model model_push
  draw_camera_lem g camera l =
      let models = matching g.ecs (model_mask g) max_entities 0 in
      for_query-fold (λ (l : List (Command (Uniforms F))). g.ecs) (model_mask g) _ l (λ i l. refl)
      ∙ fold-append (λ i. model_push g camera i ∷ []) models l
      ∙ ap (λ (r : List (Command (Uniforms F))). l ++ r)
          (concat_map-single (model_push g camera) models)

  -- What `draw_models` puts behind the commands that wait for the renderer: each entity that has a
  -- transform and a model is pushed once for each camera, for the cameras by increasing index, and for
  -- each of them all those entities by increasing index.
  pub draw_models_lem :
      (g : Game F) (commands : List (Command (Uniforms F)))
      → draw_models g commands
        ≡ commands
          ++ concat_map
              (λ camera. map (model_push g camera) (matching g.ecs (model_mask g) max_entities 0))
              (matching g.ecs (camera_mask g) max_entities 0)
  unfolding draw_models
  draw_models_lem g commands =
      let each : draw_camera g ≡ (λ camera l.
        l ++ map (model_push g camera) (matching g.ecs (model_mask g) max_entities 0)) =
        fun_ext (λ camera. fun_ext (draw_camera_lem g camera)) in
      ap
        (λ (body : ℕ → List (Command (Uniforms F)) → List (Command (Uniforms F))).
          for_query (λ (l : List (Command (Uniforms F))). g.ecs) (camera_mask g) body commands)
        each
      ∙ for_query-fold (λ (l : List (Command (Uniforms F))). g.ecs) (camera_mask g) _ commands
          (λ i l. refl)
      ∙ fold-append _ (matching g.ecs (camera_mask g) max_entities 0) commands

  module _ {D : Type 0} (dl : Floats D) (widen : F → D) (save : Game F → Game F)
      (load : Game F → Option (Game F)) where
    -- A frame, with the time that the timer gives and what the window has seen.
    unfoldable pub frogger_game_update :
        Input → Game F → List (Command (Uniforms F)) → Game F × List (Command (Uniforms F))
    frogger_game_update input g commands =
        let ticked = record g { ecs = ecs_update g.ecs } in
        let moved = update_blocks fl of_ms random input.delta_ms ticked in
        let played = update_players fl of_ms random dl widen save load input moved in
        (played, render_push_done (draw_models played commands))
