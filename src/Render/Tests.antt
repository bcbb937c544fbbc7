-- ===== src/Render/Tests.antt =====
-- The tables of src/render.c on small inputs.
use evil_engine.Base.{ℕ, ◌+◌, ◌%◌, ◌<◌, ◌≡◌, refl, arith, Bool, ◌==◌, some}
use evil_engine.Render.{
  Table, Gpu, Render, DrawInstance, DrawMesh, ModelCommand, destroy_loop, destroy_stale_data,
  create_or_get_mesh,
}
use evil_engine.Render.Stale.{Swept, destroy_loop-Swept}
use evil_engine.Render.Meshes.{new_mesh-stale}

-- Four entries, of which the odd ones are stale; the world counts what is destroyed.
abbrev four : Table ℕ
four = record { count = 4; slots = λ i. i }

abbrev is_odd : ℕ → Bool
is_odd n = n % 2 == 1

abbrev tally : ℕ → ℕ → ℕ
tally n w = w + 1

destroy_loop-Swept_example : Swept is_odd four (destroy_loop is_odd tally 4 (four, 0)).0
destroy_loop-Swept_example = destroy_loop-Swept is_odd tally four 0

-- A GPU that counts the meshes that it gets.
abbrev gpu : Gpu ℕ ℕ
gpu = record {
  frame_begin = λ w. (1, w);
  frame_end = λ w. w;
  wait_until_idle = λ w. w;
  shader_create = λ info w. (info, w);
  shader_destroy = λ s w. w;
  pipeline_create = λ s l w. (s, w);
  pipeline_destroy = λ p w. w;
  mesh_create = λ info w. (info, w + 1);
  mesh_destroy = λ m w. w;
  mesh_layout = λ info. 0;
  uniform_buffer_create = λ u w. (1, w);
  uniform_buffer_update = λ b u w. w;
  uniform_buffer_destroy = λ b w. w;
  descriptor_create = λ s b w. (1, w);
  descriptor_destroy = λ d w. w;
  pipeline_bind = λ c p w. w;
  mesh_bind = λ c m w. w;
  descriptor_bind = λ c d w. w;
  draw = λ c w. w;
}

abbrev no_instance : DrawInstance
no_instance = record {
  entity = record { entity = 0; sequence = 0 };
  uniform_buffers = λ i. 0;
  descriptors = λ i. 0;
  frame_counter = 0;
}

-- One mesh, last drawn in frame 0; this is frame 9, and the GPU has 3 frames.
abbrev old_frame : Render
old_frame = record {
  frame_counter = 9;
  gpu_frame_count = 3;
  instances = record { count = 0; slots = λ i. no_instance };
  meshes = record { count = 1; slots = λ i. record { info = 11; mesh = 77; frame_counter = 0 } };
  shaders = record {
    count = 0;
    slots = λ i. record { info = 0; shader = 0; pipeline = 0; frame_counter = 0 };
  };
}

abbrev other_mesh : ModelCommand ℕ
other_mesh = record {
  entity = record { entity = 0; sequence = 1 };
  mesh = 22;
  shader = 33;
  uniform_buffer = 0;
}

swept_away : (destroy_stale_data gpu old_frame 0).0.meshes.count < 1
unfolding destroy_stale_data destroy_loop
swept_away = omega arith

new_mesh-stale_example :
    (s : DrawMesh × (Render × ℕ)) × (i : ℕ) × (create_or_get_mesh gpu other_mesh
        (destroy_stale_data gpu old_frame 0).0
        0
      ≡ some s)
    × (i < 1)
    × (s.0.info ≡ 22)
    × (s.0.mesh ≡ 77)
    × (s.1.1 ≡ 0)
new_mesh-stale_example =
    new_mesh-stale gpu other_mesh old_frame 0 0 (omega arith) (λ i h. refl) swept_away (λ j h. refl)
