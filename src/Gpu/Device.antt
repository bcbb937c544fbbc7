-- ===== src/Gpu/Device.antt =====
-- The device of src/gpu.c: gpu_create, in the order of its parts, and gpu_destroy.
-- What the machine says of itself is a record: its devices, their queues, the surface and the images
-- of the swap chain, whose number stays the same between the two calls that ask for it. No family has
-- UINT32_MAX queues, which the code takes for none.
pub mod Held
pub mod Open
pub mod Arrays
pub mod Targets
pub mod Commands
pub mod Layouts
pub mod Create
use evil_engine.Base.{
  ℕ, zero, suc, ◌+◌, Bool, true, false, ◌&&◌, Option, none, some, List, [], ◌∷◌, length, ◌==◌, ltb,
  bit_and, if◌then◌else◌, max, update, for_loop,
}
use evil_engine.Gpu.{
  Kind, Driver, Vulkan, CmdBuffer, Frame, Gpu, MeshLayout, Try, going, failed, each, ◌>>=◌, finish,
  destroy_if, create_into, check_call, heap_alloc, enumerate_devices, get_surface_capabilities,
  get_swapchain_images, bind_memory, instance_object, device, surface, swapchain, image_view, image,
  device_memory, render_pass, framebuffer, semaphore, descriptor_pool, command_pool, command_buffer,
  fence, memory_block,
}
use evil_engine.Gpu.Objects.{Requirements, get_memory_type_index, device_local}

pub record QueueFamily : Type 0 where
  pub queue_count : ℕ
  pub queue_flags : ℕ

pub record Machine : Type 0 where
  pub use_validation : Bool
  pub physical_devices : List ℕ
  pub queue_families : List QueueFamily
  pub memory_flags : List ℕ
  pub device_queue : (queue_family : ℕ) → ℕ
  pub window : ℕ
  pub width : ℕ
  pub height : ℕ
  pub min_image_count : ℕ
  pub image_count : ℕ
  pub images : ℕ → ℕ

abbrev pub layout_count : ℕ
layout_count = 2

abbrev pub free_layout : MeshLayout → Vulkan → Vulkan
free_layout l s =
    if l.vertex_binding == 0
    then s
    else destroy_if memory_block l.vertex_attributes (destroy_if memory_block l.vertex_binding s)

-- The two layouts in order.
unfoldable pub destroy_mesh_layouts : (ℕ → MeshLayout) → Vulkan → Vulkan
destroy_mesh_layouts layouts s = free_layout (layouts 1) (free_layout (layouts 0) s)

-- Vulkan ignores a command buffer that is null.
unfoldable pub free_frame : Frame → Vulkan → Vulkan
free_frame f s =
    let s1 = destroy_if fence f.fence s in
    let s2 =
      if f.cmd_buffer == 0
      then s1
      else destroy_if memory_block f.cmd_buffer (destroy_if command_buffer f.cmd.buffer s1) in
    let s3 = destroy_if framebuffer f.frame_buffer s2 in destroy_if image_view f.view s3

unfoldable pub free_frames : Gpu → Vulkan → Vulkan
free_frames gpu s =
    if gpu.frames_address == 0
    then s
    else destroy_if memory_block gpu.frames_address
        (for_loop gpu.frame_count 0 (λ i. free_frame (gpu.frames i)) s)

-- `vkQueueWaitIdle` comes before it, and changes nothing that is counted here.
unfoldable pub gpu_destroy : Gpu → Vulkan → Vulkan
gpu_destroy gpu s =
    let s1 = destroy_mesh_layouts gpu.layouts s in
    let s2 = destroy_if semaphore gpu.render_complete_sema s1 in
    let s3 = destroy_if semaphore gpu.present_complete_sema s2 in
    let s4 = destroy_if image_view gpu.depth_stencil_view s3 in
    let s5 = destroy_if image gpu.depth_stencil_image s4 in
    let s6 = destroy_if device_memory gpu.depth_stencil_memory s5 in
    let s7 = free_frames gpu s6 in
    let s8 = destroy_if descriptor_pool gpu.set_pool s7 in
    let s9 = destroy_if command_pool gpu.cmd_pool s8 in
    let s10 = destroy_if render_pass gpu.pass s9 in
    let s11 = destroy_if swapchain gpu.swap_chain s10 in
    let s12 = destroy_if surface gpu.surface_khr s11 in
    let s13 = destroy_if device gpu.logical_device s12 in
    let s14 = destroy_if instance_object gpu.vk_instance s13 in
    destroy_if memory_block gpu.address s14

abbrev pub no_commands : CmdBuffer
no_commands = record { buffer = 0; pipeline_layout = 0; index_count = 0; vertex_count = 0 }

-- Memory that `memset` has cleared.
abbrev pub no_frame : Frame
no_frame = record {
  image = 0;
  view = 0;
  frame_buffer = 0;
  fence = 0;
  cmd_buffer = 0;
  cmd = no_commands;
}

abbrev pub no_gpu : Gpu
no_gpu = record {
  address = 0;
  vk_instance = 0;
  physical_device = 0;
  logical_device = 0;
  memory_types = [];
  queue = 0;
  surface_khr = 0;
  swap_chain = 0;
  pass = 0;
  depth_stencil_image = 0;
  depth_stencil_memory = 0;
  depth_stencil_view = 0;
  cmd_pool = 0;
  set_pool = 0;
  present_complete_sema = 0;
  render_complete_sema = 0;
  layouts = λ i. record {
    vertex_binding = 0;
    vertex_attributes = 0;
    mesh_vertex_size = 0;
    mesh_index_size = 0;
  };
  frame_width = 0;
  frame_height = 0;
  frames_address = 0;
  frames = λ i. no_frame;
  frame_count = 0;
  frame_index = 0;
}

-- The first family with queues for graphics, from the `i`-th on, and how many it has.
unfoldable pub graphics_family : List QueueFamily → ℕ → Option (ℕ × ℕ)
graphics_family [] i = none
graphics_family (q ∷ families) i =
    let rest = graphics_family families (i + 1) in
    if ltb 0 q.queue_count && ltb 0 (bit_and q.queue_flags 1) then some (i, q.queue_count) else rest

-- The index of the family that is used.
unfoldable pub family_index : Machine → ℕ
family_index machine = elim (graphics_family machine.queue_families 0) [ none ↦ 0 | some q ↦ q.0 ]

abbrev pub set_frame : ℕ → (Frame → Frame) → Gpu → Gpu
set_frame i change gpu = record gpu { frames = update gpu.frames i (change (gpu.frames i)) }

abbrev pub set_layout : ℕ → (MeshLayout → MeshLayout) → Gpu → Gpu
set_layout i change gpu = record gpu { layouts = update gpu.layouts i (change (gpu.layouts i)) }

abbrev pub Step : Type 0
Step = Gpu × Vulkan → Try (Gpu × Vulkan)

module _ (driver : Driver) (requirements : ℕ → Requirements) (machine : Machine) where
  unfoldable pub create_instance : Step
  create_instance =
      create_into driver instance_object ((if machine.use_validation then 1 else 0) ∷ [])
        (λ h (g : Gpu). record g { vk_instance = h })

  -- The first of the devices, if there is one.
  unfoldable pub pick_physical_device : Step
  pick_physical_device p = do
    (gpu, s) ← check_call driver enumerate_devices (p.0.vk_instance ∷ []) p
    elim machine.physical_devices [
      | [] ↦ failed (gpu, s)
      | first ∷ others ↦ do
        (gpu', s') ← check_call driver enumerate_devices (gpu.vk_instance ∷ []) (gpu, s)
        going (record gpu' { physical_device = first }, s')
    ]

  unfoldable pub create_device : Step
  create_device (gpu, s) = elim (graphics_family machine.queue_families 0) [
    | none ↦ failed (gpu, s)
    | some (family, count) ↦ do
      (gpu', s') ←
          create_into driver device (gpu.physical_device ∷ family ∷ count ∷ [])
            (λ h (g : Gpu). record g { logical_device = h }) (gpu, s)
      going (
        record gpu' { memory_types = machine.memory_flags; queue = machine.device_queue family },
        s',
      )
  ]

  unfoldable pub create_surface : Step
  create_surface p = do
    p1 ←
        create_into driver surface (p.0.vk_instance ∷ machine.window ∷ [])
          (λ h (g : Gpu). record g { surface_khr = h }) p
    (gpu, s) ←
        check_call driver get_surface_capabilities (p1.0.physical_device ∷ p1.0.surface_khr ∷ []) p1
    going (record gpu { frame_width = machine.width; frame_height = machine.height }, s)

  -- The swap chain, and the array of its frames.
  unfoldable pub create_swap_chain : Step
  create_swap_chain p = do
    p1 ←
        create_into driver swapchain
          (p.0.surface_khr
            ∷ max (machine.min_image_count + 1) 3
            ∷ machine.width
            ∷ machine.height
            ∷ [])
          (λ h (g : Gpu). record g { swap_chain = h }) p
    (gpu, s) ← check_call driver get_swapchain_images (p1.0.swap_chain ∷ []) p1
    p3 ←
        heap_alloc driver (λ h (g : Gpu). record g { frames_address = h; frames = λ i. no_frame })
          (record gpu { frame_count = machine.image_count }, s)
    check_call driver get_swapchain_images (p3.0.swap_chain ∷ []) p3

  unfoldable pub create_view : ℕ → Step
  create_view i (gpu, s) =
      create_into driver image_view (machine.images i ∷ [])
        (λ h. set_frame i (λ f. record f { view = h }))
        (set_frame i (λ f. record f { image = machine.images i }) gpu, s)

  unfoldable pub create_depth_buffer : Step
  create_depth_buffer p = do
    p1 ←
        create_into driver image (machine.width ∷ machine.height ∷ [])
          (λ h (g : Gpu). record g { depth_stencil_image = h }) p
    p2 ←
        create_into driver device_memory
          ((requirements p1.0.depth_stencil_image).size
            ∷ get_memory_type_index p1.0 (requirements p1.0.depth_stencil_image).type_bits
                device_local
            ∷ [])
          (λ h (g : Gpu). record g { depth_stencil_memory = h }) p1
    p3 ←
        check_call driver bind_memory (p2.0.depth_stencil_image ∷ p2.0.depth_stencil_memory ∷ []) p2
    create_into driver image_view (p3.0.depth_stencil_image ∷ [])
        (λ h (g : Gpu). record g { depth_stencil_view = h }) p3

  unfoldable pub create_frame_buffer : ℕ → Step
  create_frame_buffer i (gpu, s) =
      create_into driver framebuffer
        (gpu.pass
          ∷ (gpu.frames i).view
          ∷ gpu.depth_stencil_view
          ∷ machine.width
          ∷ machine.height
          ∷ [])
        (λ h. set_frame i (λ f. record f { frame_buffer = h })) (gpu, s)

  -- The semaphores and the two pools.
  unfoldable pub create_pools : Step
  create_pools p = do
    p1 ← create_into driver semaphore [] (λ h (g : Gpu). record g { present_complete_sema = h }) p
    p2 ← create_into driver semaphore [] (λ h (g : Gpu). record g { render_complete_sema = h }) p1
    p3 ←
        create_into driver descriptor_pool (512 ∷ 512 ∷ [])
          (λ h (g : Gpu). record g { set_pool = h }) p2
    create_into driver command_pool (family_index machine ∷ [])
        (λ h (g : Gpu). record g { cmd_pool = h }) p3

  unfoldable pub create_commands : ℕ → Step
  create_commands i p = do
    p1 ←
        heap_alloc driver (λ h. set_frame i (λ f. record f { cmd_buffer = h; cmd = no_commands })) p
    p2 ←
        create_into driver command_buffer (p1.0.cmd_pool ∷ [])
          (λ h. set_frame i (λ f. record f { cmd = record no_commands { buffer = h } })) p1
    create_into driver fence [] (λ h. set_frame i (λ f. record f { fence = h })) p2

  -- One of the two layouts of `create_mesh_layouts`, with indices of two bytes.
  unfoldable pub create_layout : (i vertex_size : ℕ) → Step
  create_layout i vertex_size p = do
    p1 ← heap_alloc driver (λ h. set_layout i (λ l. record l { vertex_binding = h })) p
    p2 ← heap_alloc driver (λ h. set_layout i (λ l. record l { vertex_attributes = h })) p1
    going (
      set_layout i (λ l. record l { mesh_index_size = 2; mesh_vertex_size = vertex_size }) p2.0,
      p2.1,
    )

  unfoldable pub create_mesh_layouts : Step
  create_mesh_layouts p = do p1 ← create_layout 0 12 p; create_layout 1 24 p1

  -- The device with its window, up to the frames.
  unfoldable pub open_device : Step
  open_device p = do
    p1 ← create_instance p
    p2 ← pick_physical_device p1
    p3 ← create_device p2
    p4 ← create_surface p3
    create_swap_chain p4

  -- What is drawn to.
  unfoldable pub create_targets : Step
  create_targets p = do
    p1 ← each create_view p.0.frame_count 0 p
    p2 ← create_depth_buffer p1
    p3 ← create_into driver render_pass [] (λ h (g : Gpu). record g { pass = h }) p2
    each create_frame_buffer p3.0.frame_count 0 p3

  unfoldable pub gpu_create : Vulkan → Option Gpu × Vulkan
  gpu_create s = finish gpu_destroy (do
    p1 ← heap_alloc driver (λ h (g : Gpu). record g { address = h }) (no_gpu, s)
    p2 ← open_device p1
    p3 ← create_targets p2
    p4 ← create_pools p3
    p5 ← each create_commands p4.0.frame_count 0 p4
    create_mesh_layouts p5)
