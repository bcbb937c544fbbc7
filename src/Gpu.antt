-- ===== src/Gpu.antt =====
-- src/gpu.c: the objects of Vulkan that the engine makes, and who destroys them.
-- Vulkan is a driver that answers the k-th call: by a result, 0 for VK_SUCCESS, and by a handle if the
-- call creates something; a call that fails leaves the handle as it was. The arguments of a call are
-- the handles and numbers of its info; constants of the infos are left out. The heap gives an address
-- for each allocation and is not out of memory. What is live is counted for each object, so that no
-- order of calls is assumed.
pub mod Owns
pub mod Objects
pub mod Device
pub mod Frames
mod Tests
use evil_engine.Base.{
  ℕ, zero, suc, ◌+◌, ◌-◌, Bool, true, false, ◌&&◌, Option, none, some, List, [], ◌∷◌, ◌==◌,
  if◌then◌else◌,
}

-- The functions that create, by what they create. `memory_block` is an allocation of the heap.
pub data Kind : Type 0 where
  instance_object device surface swapchain image_view image device_memory render_pass : Kind
  framebuffer semaphore descriptor_pool command_pool command_buffer fence : Kind
  descriptor_set buffer pipeline_layout pipeline shader_module descriptor_set_layout : Kind
  memory_block : Kind

abbrev pub kind_code : Kind → ℕ
kind_code instance_object = 0
kind_code device = 1
kind_code surface = 2
kind_code swapchain = 3
kind_code image_view = 4
kind_code image = 5
kind_code device_memory = 6
kind_code render_pass = 7
kind_code framebuffer = 8
kind_code semaphore = 9
kind_code descriptor_pool = 10
kind_code command_pool = 11
kind_code command_buffer = 12
kind_code fence = 13
kind_code descriptor_set = 14
kind_code buffer = 15
kind_code pipeline_layout = 16
kind_code pipeline = 17
kind_code shader_module = 18
kind_code descriptor_set_layout = 19
kind_code memory_block = 20

pub record Object : Type 0 where
  pub kind : Kind
  pub handle : ℕ

abbrev pub same_object : Object → Object → Bool
same_object a b = (kind_code a.kind == kind_code b.kind) && (a.handle == b.handle)

-- The functions that only return a result.
pub data Call : Type 0 where
  enumerate_devices get_surface_capabilities get_swapchain_images : Call
  bind_memory map_memory : Call
  begin_command_buffer end_command_buffer acquire_next_image : Call
  wait_for_fences reset_fences queue_submit queue_present : Call

pub record Driver : Type 0 where
  pub create_result : (call : ℕ) → Kind → (arguments : List ℕ) → ℕ
  pub new_handle : (call : ℕ) → Kind → (arguments : List ℕ) → ℕ
  pub call_result : (call : ℕ) → Call → (arguments : List ℕ) → ℕ

-- `contents` is what mapped memory holds, by its handle, and `faults` counts objects that were
-- destroyed while they were not live.
pub record Vulkan : Type 0 where
  pub calls : ℕ
  pub live : Object → ℕ
  pub faults : ℕ
  pub contents : ℕ → List ℕ

abbrev pub one_if : Bool → ℕ
one_if b = if b then 1 else 0

-- `vkDestroy...`, `vkFree...` or `heap_free` on a handle that is not null.
unfoldable pub destroy : Kind → ℕ → Vulkan → Vulkan
destroy k h s =
    let x : Object = record { kind = k; handle = h } in
    if s.live x == 0
    then record s { faults = s.faults + 1 }
    else record s { live = λ o. s.live o - one_if (same_object o x) }

-- `if (handle) vkDestroy...(handle)`
unfoldable pub destroy_if : Kind → ℕ → Vulkan → Vulkan
destroy_if k h s = if h == 0 then s else destroy k h s

pub record CmdBuffer : Type 0 where
  pub buffer : ℕ
  pub pipeline_layout : ℕ
  pub index_count : ℕ
  pub vertex_count : ℕ

-- `cmd_buffer` is the address of `cmd`.
pub record Frame : Type 0 where
  pub image : ℕ
  pub view : ℕ
  pub frame_buffer : ℕ
  pub fence : ℕ
  pub cmd_buffer : ℕ
  pub cmd : CmdBuffer

pub record MeshLayout : Type 0 where
  pub vertex_binding : ℕ
  pub vertex_attributes : ℕ
  pub mesh_vertex_size : ℕ
  pub mesh_index_size : ℕ

-- `gpu_t`. Its address is a field, as those of its arrays are; `memory_types` are the flags of the
-- types of memory.
pub record Gpu : Type 0 where
  pub address : ℕ
  pub vk_instance : ℕ
  pub physical_device : ℕ
  pub logical_device : ℕ
  pub memory_types : List ℕ
  pub queue : ℕ
  pub surface_khr : ℕ
  pub swap_chain : ℕ
  pub pass : ℕ
  pub depth_stencil_image : ℕ
  pub depth_stencil_memory : ℕ
  pub depth_stencil_view : ℕ
  pub cmd_pool : ℕ
  pub set_pool : ℕ
  pub present_complete_sema : ℕ
  pub render_complete_sema : ℕ
  pub layouts : ℕ → MeshLayout
  pub frame_width : ℕ
  pub frame_height : ℕ
  pub frames_address : ℕ
  pub frames : ℕ → Frame
  pub frame_count : ℕ
  pub frame_index : ℕ

-- Code that may jump to its clean-up, with the state that it has reached.
pub data Try (S : Type 0) : Type 0 where
  going : S → Try S
  failed : S → Try S

infixl 5 ◌>>=◌
abbrev pub ◌>>=◌ : {S : Type 0} → Try S → (S → Try S) → Try S
going s >>= f = f s
failed s >>= f = failed s

-- `for (k = i; k < i + n; ++k)` over such code.
unfoldable pub each : {S : Type 0} → (ℕ → S → Try S) → ℕ → ℕ → S → Try S
each body zero i s = going s
each body (suc n) i s = body i s >>= each body n (i + 1)

-- The end of such code: the object, or its destruction and NULL.
unfoldable pub finish : {X : Type 0} → (X → Vulkan → Vulkan) → Try (X × Vulkan) → Option X × Vulkan
finish clean_up (going (x, s)) = (some x, s)
finish clean_up (failed (x, s)) = (none, clean_up x s)

module _ (driver : Driver) where
  -- The state with one object more.
  abbrev pub created : Kind → (arguments : List ℕ) → Vulkan → Vulkan
  created k arguments s =
      let x : Object = record { kind = k; handle = driver.new_handle s.calls k arguments } in
      record s { calls = s.calls + 1; live = λ o. s.live o + one_if (same_object o x) }

  -- `result = vkCreate...(..., &x->field); if (result) ...`, where `set` writes the field.
  unfoldable pub create_into :
      {X : Type 0} → Kind → (arguments : List ℕ) → (set : ℕ → X → X) → X × Vulkan → Try (X × Vulkan)
  create_into k arguments set (x, s) =
      if driver.create_result s.calls k arguments == 0
      then going (set (driver.new_handle s.calls k arguments) x, created k arguments s)
      else failed (x, record s { calls = s.calls + 1 })

  -- `result = vk...(...); if (result) ...`, for a function that creates nothing.
  unfoldable pub check_call :
      {X : Type 0} → Call → (arguments : List ℕ) → X × Vulkan → Try (X × Vulkan)
  check_call c arguments (x, s) =
      let after = record s { calls = s.calls + 1 } in
      if driver.call_result s.calls c arguments == 0 then going (x, after) else failed (x, after)

  -- `x = heap_alloc(...)`
  unfoldable pub heap_alloc : {X : Type 0} → (set : ℕ → X → X) → X × Vulkan → Try (X × Vulkan)
  heap_alloc set (x, s) =
      going (set (driver.new_handle s.calls memory_block []) x, created memory_block [] s)
