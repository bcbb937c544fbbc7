-- ===== src/Gpu/Tests.antt =====
-- The objects and the frames of src/gpu.c with a Vulkan that numbers what it creates, and one that refuses.
use evil_engine.Base.{
  ℕ, ◌+◌, ◌%◌, ◌≡◌, refl, arith, true, false, Option, none, some, List, [], ◌∷◌, ltb, if◌then◌else◌,
}
use evil_engine.Gpu.{Driver, Vulkan, Gpu, Frame, finish, heap_alloc, create_into, check_call, each}
use evil_engine.Gpu.Owns.{IsDriver, IsBalanced}
use evil_engine.Gpu.Objects.{
  Requirements, find_memory_type, get_memory_type_index, Mesh, MeshInfo, Shader, ShaderInfo,
  UniformBuffer, gpu_mesh_create, gpu_mesh_destroy, gpu_shader_create, gpu_shader_destroy,
  gpu_pipeline_create, gpu_pipeline_destroy, gpu_uniform_buffer_create, gpu_uniform_buffer_destroy,
  gpu_descriptor_create, gpu_descriptor_destroy,
}
use evil_engine.Gpu.Objects.Balance.{creations-IsBalanced}
use evil_engine.Gpu.Device.{
  Machine, no_gpu, no_frame, no_commands, gpu_destroy, gpu_create, open_device, create_instance,
  pick_physical_device, create_device, graphics_family, create_surface, create_swap_chain,
  create_targets, create_view, create_depth_buffer, create_frame_buffer, create_pools,
  create_commands, create_layout, create_mesh_layouts, family_index,
}
use evil_engine.Gpu.Device.Create.{gpu_create-IsBalanced}
use evil_engine.Gpu.Frames.{Host, gpu_frame_begin, gpu_get_frame_count}
use evil_engine.Gpu.Frames.Order.{Drawing, with_mesh, draw, run_frames}
use evil_engine.Gpu.Frames.Ring.{frame_ring}
use evil_engine.Render
use evil_engine.Render.{Render, end_frame}
use evil_engine.Gpu.Frames.Running.{fences_free}
use evil_engine.Gpu.Frames.Waits.{BeginsEarly, submits_wait, begins_too_soon}

-- It numbers what it creates, and creates at most so many objects.
abbrev numbering : (limit : ℕ) → Driver
numbering limit = record {
  create_result = λ n k arguments. if ltb n limit then 0 else 7;
  new_handle = λ n k arguments. n + 1;
  call_result = λ n c arguments. 0;
}

numbering-IsDriver : (limit : ℕ) → IsDriver (numbering limit)
numbering-IsDriver limit = record { not_null = λ n k arguments. ground arith }

abbrev fresh : Vulkan
fresh = record { calls = 0; live = λ o. 0; faults = 0; contents = λ m. [] }

abbrev required : ℕ → Requirements
required h = record { size = 64; type_bits = 7 }

abbrev machine : Machine
machine = record {
  use_validation = false;
  physical_devices = 5 ∷ [];
  queue_families = record { queue_count = 1; queue_flags = 1 } ∷ [];
  memory_flags = 1 ∷ 6 ∷ [];
  device_queue = λ family. 9;
  window = 3;
  width = 640;
  height = 480;
  min_image_count = 2;
  image_count = 3;
  images = λ i. 100 + i;
}

-- It has three frames, and 100 calls are enough to create it, but 20 are not.
abbrev frames_of : Option Gpu → ℕ
frames_of none = 0
frames_of (some g) = g.frame_count

has_frames : frames_of (gpu_create (numbering 100) required machine fresh).0 ≡ 3
unfolding gpu_create finish heap_alloc create_into check_call each open_device create_instance
    pick_physical_device create_device graphics_family create_surface create_swap_chain
    create_targets create_view create_depth_buffer create_frame_buffer create_pools create_commands
    create_layout create_mesh_layouts family_index find_memory_type get_memory_type_index
has_frames = refl

is_refused : frames_of (gpu_create (numbering 20) required machine fresh).0 ≡ 0
unfolding gpu_create finish heap_alloc create_into check_call each open_device create_instance
    pick_physical_device create_device graphics_family create_surface create_swap_chain
    create_targets create_view create_depth_buffer create_frame_buffer
is_refused = refl

gpu_create-IsBalanced_example :
    IsBalanced gpu_destroy fresh (gpu_create (numbering 20) required machine fresh)
gpu_create-IsBalanced_example =
    gpu_create-IsBalanced (numbering 20) (numbering-IsDriver 20) required machine fresh

abbrev info : MeshInfo
info = record { layout = 0; vertex_data = 1 ∷ 2 ∷ 3 ∷ []; index_data = 0 ∷ 1 ∷ [] }

abbrev shader_info : ShaderInfo
shader_info = record {
  vertex_shader_size = 16;
  vertex_shader_data = 200;
  fragment_shader_size = 32;
  fragment_shader_data = 300;
  uniform_buffer_count = 1;
}

abbrev shader : Shader
shader = record { address = 40; vertex_module = 41; fragment_module = 42; set_layout = 43 }

abbrev uniform : UniformBuffer
uniform = record { address = 50; handle = 51; memory = 52; descriptor_buffer = 51; range = 3 }

-- The second call fails to create.
creations-IsBalanced_example :
    IsBalanced gpu_mesh_destroy fresh (gpu_mesh_create (numbering 2) required no_gpu info fresh)
    × IsBalanced gpu_shader_destroy fresh
        (gpu_shader_create (numbering 2) required no_gpu shader_info fresh)
    × IsBalanced gpu_pipeline_destroy fresh
        (gpu_pipeline_create (numbering 2) required no_gpu shader 0 fresh)
    × IsBalanced gpu_uniform_buffer_destroy fresh
        (gpu_uniform_buffer_create (numbering 2) required no_gpu (7 ∷ []) fresh)
    × IsBalanced gpu_descriptor_destroy fresh
        (gpu_descriptor_create (numbering 2) required no_gpu shader (uniform ∷ []) fresh)
creations-IsBalanced_example =
    creations-IsBalanced (numbering 2) (numbering-IsDriver 2) required no_gpu info shader_info
      shader 0 (7 ∷ []) (uniform ∷ []) fresh

-- A device of two frames, with a mesh that each frame draws.
abbrev frame_at : ℕ → Frame
frame_at i = record no_frame {
  frame_buffer = 10 + i;
  fence = 20 + i;
  cmd_buffer = 30 + i;
  cmd = record no_commands { buffer = 40 + i };
}

abbrev host : Host
host = record { gpu = record no_gpu { frames = frame_at; frame_count = 2 }; calls = 0; trace = [] }

abbrev cube : Mesh
cube = record {
  address = 60;
  index_buffer = 61;
  index_memory = 62;
  index_count = 36;
  vertex_buffer = 63;
  vertex_memory = 64;
  vertex_count = 8;
}

abbrev drawings : List Drawing
drawings = with_mesh cube ∷ draw ∷ []

abbrev image_of : ℕ → ℕ
image_of call = call % 2

-- What src/render.c calls, with results that do not matter.
abbrev render_gpu : Render.Gpu ℕ ℕ
render_gpu = record {
  frame_begin = λ w. (1, w);
  frame_end = λ w. w;
  wait_until_idle = λ w. w;
  shader_create = λ info w. (info, w);
  shader_destroy = λ s w. w;
  pipeline_create = λ s l w. (s, w);
  pipeline_destroy = λ p w. w;
  mesh_create = λ info w. (info, w);
  mesh_destroy = λ m w. w;
  mesh_layout = λ info. 0;
  uniform_buffer_create = λ u w. (1, w);
  uniform_buffer_update = λ b u w. w;
  uniform_buffer_destroy = λ b w. w;
  descriptor_create = λ s b w. (1, w);
  descriptor_destroy = λ d w. w;
  pipeline_bind = λ c p w. w;
  mesh_bind = λ c m w. w;
  descriptor_bind = λ c d w. w;
  draw = λ c w. w;
}

-- The renderer in its third frame.
abbrev third_frame : Render
third_frame = record {
  frame_counter = 2;
  gpu_frame_count = 2;
  instances = record {
    count = 0;
    slots = λ i. record {
      entity = record { entity = 0; sequence = 0 };
      uniform_buffers = λ f. 0;
      descriptors = λ f. 0;
      frame_counter = 0;
    };
  };
  meshes = record { count = 0; slots = λ i. record { info = 0; mesh = 0; frame_counter = 0 } };
  shaders = record {
    count = 0;
    slots = λ i. record { info = 0; shader = 0; pipeline = 0; frame_counter = 0 };
  };
}

frame_ring_example :
    ((end_frame render_gpu third_frame 0).0.frame_index
      ≡ (run_frames
          (numbering 9)
          image_of
          (drawings ∷ drawings ∷ drawings ∷ [])
          host).gpu.frame_index)
    × ((end_frame render_gpu third_frame 0).1.0.frame_counter ≡ 3)
    × ((end_frame render_gpu third_frame 0).1.0.gpu_frame_count ≡ gpu_get_frame_count host.gpu)
unfolding gpu_get_frame_count
frame_ring_example =
    frame_ring render_gpu (numbering 9) image_of (drawings ∷ drawings ∷ drawings ∷ []) host
      third_frame 0 (λ n a. refl) refl (omega arith) (omega arith) refl refl

submits_wait_example :
    fences_free (run_frames (numbering 9) image_of (drawings ∷ drawings ∷ drawings ∷ []) host).trace
    ≡ true
unfolding fences_free
submits_wait_example =
    submits_wait (numbering 9) image_of (drawings ∷ drawings ∷ drawings ∷ []) host (λ n a. refl)
      refl

begins_too_soon_example :
    ((run_frames (numbering 9) image_of (drawings ∷ drawings ∷ []) host).gpu.frame_index ≡ 0)
    × BeginsEarly (run_frames (numbering 9) image_of (drawings ∷ drawings ∷ []) host) (
        gpu_frame_begin
          (numbering 9)
          image_of
          (run_frames (numbering 9) image_of (drawings ∷ drawings ∷ []) host))
begins_too_soon_example =
    begins_too_soon (numbering 9) image_of (drawings ∷ drawings ∷ []) host (omega arith) refl
      (λ n a. refl) (λ n a. refl)
