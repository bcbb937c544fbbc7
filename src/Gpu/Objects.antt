-- ===== src/Gpu/Objects.antt =====
-- The objects of src/gpu.c that the renderer makes: meshes, pipelines, shaders, uniform buffers and
-- descriptors. The requirements of a buffer or an image, its size and the bits of its types of memory,
-- are a parameter by its handle.
pub mod Balance
use evil_engine.Base.{
  ℕ, zero, suc, ◌+◌, ◌%◌, ◌^◌, Bool, true, false, Option, none, some, List, [], ◌∷◌, length, ◌==◌,
  bit_and, if◌then◌else◌, div_int, test_bit, update, map,
}
use evil_engine.Gpu.{
  Kind, Driver, Vulkan, CmdBuffer, Gpu, MeshLayout, Call, Try, going, failed, ◌>>=◌, finish,
  destroy_if, create_into, check_call, heap_alloc, device_memory, buffer, pipeline_layout, pipeline,
  shader_module, descriptor_set_layout, descriptor_set, memory_block, map_memory, bind_memory,
}

pub record Requirements : Type 0 where
  pub size : ℕ
  pub type_bits : ℕ

-- The loop of `get_memory_type_index` over the types from `i` on.
unfoldable pub find_memory_type : (bits properties : ℕ) → (types : List ℕ) → ℕ → Option ℕ
find_memory_type bits properties [] i = none
find_memory_type bits properties (flags ∷ types) i =
    let rest = find_memory_type bits properties types (i + 1) in
    if test_bit bits i
    then if bit_and flags properties == properties then some i else rest
    else rest

unfoldable pub get_memory_type_index : Gpu → (bits properties : ℕ) → ℕ
get_memory_type_index gpu bits properties =
    elim (find_memory_type bits properties gpu.memory_types 0) [ none ↦ 0 | some i ↦ i ]

-- The flags that memory has which the host writes, and memory of the device.
abbrev pub host_memory : ℕ
host_memory = 6

abbrev pub device_local : ℕ
device_local = 1

-- The usages of a buffer.
abbrev pub uniform_usage : ℕ
uniform_usage = 16

abbrev pub index_usage : ℕ
index_usage = 64

abbrev pub vertex_usage : ℕ
vertex_usage = 128

pub record Mesh : Type 0 where
  pub address : ℕ
  pub index_buffer : ℕ
  pub index_memory : ℕ
  pub index_count : ℕ
  pub vertex_buffer : ℕ
  pub vertex_memory : ℕ
  pub vertex_count : ℕ

pub record MeshInfo : Type 0 where
  pub layout : ℕ
  pub vertex_data : List ℕ
  pub index_data : List ℕ

unfoldable pub gpu_mesh_destroy : Mesh → Vulkan → Vulkan
gpu_mesh_destroy m s =
    let s1 = destroy_if buffer m.index_buffer s in
    let s2 = destroy_if device_memory m.index_memory s1 in
    let s3 = destroy_if buffer m.vertex_buffer s2 in
    let s4 = destroy_if device_memory m.vertex_memory s3 in destroy_if memory_block m.address s4

pub record Pipeline : Type 0 where
  pub address : ℕ
  pub layout : ℕ
  pub pipe : ℕ

unfoldable pub gpu_pipeline_destroy : Pipeline → Vulkan → Vulkan
gpu_pipeline_destroy p s =
    let s1 = destroy_if pipeline_layout p.layout s in
    let s2 = destroy_if pipeline p.pipe s1 in destroy_if memory_block p.address s2

pub record Shader : Type 0 where
  pub address : ℕ
  pub vertex_module : ℕ
  pub fragment_module : ℕ
  pub set_layout : ℕ

pub record ShaderInfo : Type 0 where
  pub vertex_shader_size : ℕ
  pub vertex_shader_data : ℕ
  pub fragment_shader_size : ℕ
  pub fragment_shader_data : ℕ
  pub uniform_buffer_count : ℕ

unfoldable pub gpu_shader_destroy : Shader → Vulkan → Vulkan
gpu_shader_destroy x s =
    let s1 = destroy_if shader_module x.vertex_module s in
    let s2 = destroy_if shader_module x.fragment_module s1 in
    let s3 = destroy_if descriptor_set_layout x.set_layout s2 in
    destroy_if memory_block x.address s3

-- `range` is that of its descriptor, whose buffer is `descriptor_buffer`.
pub record UniformBuffer : Type 0 where
  pub address : ℕ
  pub handle : ℕ
  pub memory : ℕ
  pub descriptor_buffer : ℕ
  pub range : ℕ

unfoldable pub gpu_uniform_buffer_destroy : UniformBuffer → Vulkan → Vulkan
gpu_uniform_buffer_destroy u s =
    let s1 = destroy_if buffer u.handle s in
    let s2 = destroy_if device_memory u.memory s1 in destroy_if memory_block u.address s2

-- `writes` are the buffers that `vkUpdateDescriptorSets` binds to the set.
pub record Descriptor : Type 0 where
  pub address : ℕ
  pub set : ℕ
  pub writes : List ℕ

unfoldable pub gpu_descriptor_destroy : Descriptor → Vulkan → Vulkan
gpu_descriptor_destroy d s = destroy_if memory_block d.address (destroy_if descriptor_set d.set s)

module _ (driver : Driver) (requirements : ℕ → Requirements) (gpu : Gpu) where
  -- `memcpy` to mapped memory.
  abbrev pub copy_to : {X : Type 0} → (memory : ℕ) → List ℕ → X × Vulkan → X × Vulkan
  copy_to memory bytes (x, s) = (x, record s { contents = update s.contents memory bytes })

  -- `vkAllocateMemory` as large as a buffer requires it.
  abbrev pub allocate_for :
      {X : Type 0} → (handle : ℕ) → (set : ℕ → X → X) → X × Vulkan → Try (X × Vulkan)
  allocate_for handle set p =
      let r = requirements handle in
      create_into driver device_memory
        (r.size ∷ get_memory_type_index gpu r.type_bits host_memory ∷ []) set p

  -- The two blocks of `gpu_mesh_create`.
  unfoldable pub fill_vertices : List ℕ → Mesh × Vulkan → Try (Mesh × Vulkan)
  fill_vertices bytes p = do
    p1 ←
        create_into driver buffer (length bytes ∷ vertex_usage ∷ [])
          (λ h (m : Mesh). record m { vertex_buffer = h }) p
    p2 ← allocate_for p1.0.vertex_buffer (λ h (m : Mesh). record m { vertex_memory = h }) p1
    p3 ←
        check_call driver map_memory
          (p2.0.vertex_memory ∷ (requirements p2.0.vertex_buffer).size ∷ []) p2
    check_call driver bind_memory (p3.0.vertex_buffer ∷ p3.0.vertex_memory ∷ [])
        (copy_to p3.0.vertex_memory bytes p3)

  unfoldable pub fill_indices : List ℕ → Mesh × Vulkan → Try (Mesh × Vulkan)
  fill_indices bytes p = do
    p1 ←
        create_into driver buffer (length bytes ∷ index_usage ∷ [])
          (λ h (m : Mesh). record m { index_buffer = h }) p
    p2 ← allocate_for p1.0.index_buffer (λ h (m : Mesh). record m { index_memory = h }) p1
    p3 ←
        check_call driver map_memory
          (p2.0.index_memory ∷ (requirements p2.0.index_buffer).size ∷ []) p2
    check_call driver bind_memory (p3.0.index_buffer ∷ p3.0.index_memory ∷ [])
        (copy_to p3.0.index_memory bytes p3)

  -- The count of elements of a size, of `(int)` of a number of bytes.
  abbrev pub element_count : List ℕ → ℕ → ℕ
  element_count bytes size = div_int (length bytes % 2 ^ 32) size

  abbrev pub new_mesh : MeshInfo → Mesh
  new_mesh info =
      let l = gpu.layouts info.layout in
      record {
        address = 0;
        index_buffer = 0;
        index_memory = 0;
        index_count = element_count info.index_data l.mesh_index_size;
        vertex_buffer = 0;
        vertex_memory = 0;
        vertex_count = element_count info.vertex_data l.mesh_vertex_size;
      }

  unfoldable pub gpu_mesh_create : MeshInfo → Vulkan → Option Mesh × Vulkan
  gpu_mesh_create info s = finish gpu_mesh_destroy (do
    p1 ← heap_alloc driver (λ h (m : Mesh). record m { address = h }) (new_mesh info, s)
    p2 ← fill_vertices info.vertex_data p1
    fill_indices info.index_data p2)

  -- The info of the graphics pipeline is its layout, the pass, the two stages and the layout of
  -- meshes.
  unfoldable pub gpu_pipeline_create :
      Shader → (mesh_layout : ℕ) → Vulkan → Option Pipeline × Vulkan
  gpu_pipeline_create shader mesh_layout s = finish gpu_pipeline_destroy (do
    p1 ←
        heap_alloc driver (λ h (p : Pipeline). record p { address = h })
          (record { address = 0; layout = 0; pipe = 0 }, s)
    p2 ←
        create_into driver pipeline_layout (shader.set_layout ∷ [])
          (λ h (p : Pipeline). record p { layout = h }) p1
    create_into driver pipeline
        (p2.0.layout ∷ gpu.pass ∷ shader.vertex_module ∷ shader.fragment_module ∷ mesh_layout ∷ [])
        (λ h (p : Pipeline). record p { pipe = h }) p2)

  unfoldable pub gpu_shader_create : ShaderInfo → Vulkan → Option Shader × Vulkan
  gpu_shader_create info s = finish gpu_shader_destroy (do
    p1 ←
        heap_alloc driver (λ h (x : Shader). record x { address = h })
          (record { address = 0; vertex_module = 0; fragment_module = 0; set_layout = 0 }, s)
    p2 ←
        create_into driver shader_module (info.vertex_shader_size ∷ info.vertex_shader_data ∷ [])
          (λ h (x : Shader). record x { vertex_module = h }) p1
    p3 ←
        create_into driver shader_module
          (info.fragment_shader_size ∷ info.fragment_shader_data ∷ [])
          (λ h (x : Shader). record x { fragment_module = h }) p2
    create_into driver descriptor_set_layout (info.uniform_buffer_count ∷ [])
        (λ h (x : Shader). record x { set_layout = h }) p3)

  -- It maps the memory, and does nothing where that fails.
  unfoldable pub gpu_uniform_buffer_update : UniformBuffer → List ℕ → Vulkan → Vulkan
  gpu_uniform_buffer_update u bytes s =
      elim (check_call driver map_memory (u.memory ∷ length bytes ∷ []) (u, s)) [
        | going p ↦ (copy_to u.memory bytes p).1
        | failed p ↦ p.1
      ]

  -- The two assignments to the descriptor, and the update, which leaves the object as it is.
  unfoldable pub described : List ℕ → UniformBuffer × Vulkan → Try (UniformBuffer × Vulkan)
  described bytes (u, s) =
      let u' = record u { descriptor_buffer = u.handle; range = length bytes } in
      going (u', gpu_uniform_buffer_update u' bytes s)

  unfoldable pub gpu_uniform_buffer_create : List ℕ → Vulkan → Option UniformBuffer × Vulkan
  gpu_uniform_buffer_create bytes s = finish gpu_uniform_buffer_destroy (do
    p1 ←
        heap_alloc driver (λ h (u : UniformBuffer). record u { address = h })
          (record { address = 0; handle = 0; memory = 0; descriptor_buffer = 0; range = 0 }, s)
    p2 ←
        create_into driver buffer (length bytes ∷ uniform_usage ∷ [])
          (λ h (u : UniformBuffer). record u { handle = h }) p1
    p3 ← allocate_for p2.0.handle (λ h (u : UniformBuffer). record u { memory = h }) p2
    p4 ← check_call driver bind_memory (p3.0.handle ∷ p3.0.memory ∷ []) p3
    described bytes p4)

  -- `vkUpdateDescriptorSets` with the descriptors of the uniform buffers.
  unfoldable pub gpu_descriptor_create :
      Shader → (uniform_buffers : List UniformBuffer) → Vulkan → Option Descriptor × Vulkan
  gpu_descriptor_create shader uniform_buffers s = finish gpu_descriptor_destroy (do
    p1 ←
        heap_alloc driver (λ h (d : Descriptor). record d { address = h })
          (record { address = 0; set = 0; writes = [] }, s)
    p2 ←
        create_into driver descriptor_set (gpu.set_pool ∷ shader.set_layout ∷ [])
          (λ h (d : Descriptor). record d { set = h }) p1
    going (
      record (p2.0) { writes = map (λ (u : UniformBuffer). u.descriptor_buffer) uniform_buffers },
      p2.1,
    ))
