-- ===== src/Gpu/Device/Held.antt =====
-- What a device of src/gpu.c owns, and that gpu_destroy gives it up.
use evil_engine.Base.{
  ℕ, zero, suc, ◌+◌, ◌≡◌, ap, arith, Bool, ◌==◌, if◌then◌else◌, inl, inr, Bool-cases, for_loop,
}
use evil_engine.Gpu.{
  Object, Vulkan, Frame, Gpu, MeshLayout, instance_object, device, surface, swapchain, image_view,
  image, device_memory, render_pass, framebuffer, semaphore, descriptor_pool, command_pool,
  command_buffer, fence, memory_block,
}
use evil_engine.Gpu.Owns.{has, Owns, regroup, destroy_if-Owns, Restored}
use evil_engine.Gpu.Device.{free_layout, destroy_mesh_layouts, free_frame, free_frames, gpu_destroy}

-- What is owned behind a pointer that may be null.
abbrev pub unless_null : ℕ → ℕ → ℕ
unless_null h n = if h == 0 then 0 else n

abbrev pub held_layout : MeshLayout → Object → ℕ
held_layout l o =
    unless_null l.vertex_binding
      (has memory_block l.vertex_binding o + has memory_block l.vertex_attributes o)

abbrev pub held_commands : Frame → Object → ℕ
held_commands f o =
    unless_null f.cmd_buffer (has command_buffer f.cmd.buffer o + has memory_block f.cmd_buffer o)

abbrev pub held_frame : Frame → Object → ℕ
held_frame f o =
    has fence f.fence o
    + (held_commands f o + (has framebuffer f.frame_buffer o + has image_view f.view o))

unfoldable pub held_frames : (n i : ℕ) → (ℕ → Frame) → Object → ℕ
held_frames zero i frames o = 0
held_frames (suc n) i frames o = held_frame (frames i) o + held_frames n (i + 1) frames o

abbrev pub held_array : Gpu → Object → ℕ
held_array g o =
    unless_null g.frames_address
      (held_frames g.frame_count 0 g.frames o + has memory_block g.frames_address o)

-- What is destroyed behind the frames.
abbrev pub owned_last : Gpu → Object → ℕ
owned_last g o =
    has descriptor_pool g.set_pool o
    + (has command_pool g.cmd_pool o
        + (has render_pass g.pass o
            + (has swapchain g.swap_chain o
                + (has surface g.surface_khr o
                    + (has device g.logical_device o
                        + (has instance_object g.vk_instance o
                            + (has memory_block g.address o + 0)))))))

abbrev pub held_gpu : Gpu → Object → ℕ
held_gpu g o =
    held_layout (g.layouts 0) o
    + (held_layout (g.layouts 1) o
        + (has semaphore g.render_complete_sema o
            + (has semaphore g.present_complete_sema o
                + (has image_view g.depth_stencil_view o
                    + (has image g.depth_stencil_image o
                        + (has device_memory g.depth_stencil_memory o
                            + (held_array g o + owned_last g o)))))))

module _ (before : Vulkan) where
  -- Code under a test of a pointer.
  guarded :
      (h : ℕ) (owned rest : Object → ℕ) (s t : Vulkan)
      → Owns before (λ o. unless_null h (owned o) + rest o) s
      → (Owns before (λ o. owned o + rest o) s → Owns before rest t)
      → Owns before rest (if h == 0 then s else t)
  guarded h owned rest s t own frees = elim (Bool-cases (h == 0)) [
    | inl null ↦ rw (null) (
        regroup rest own (λ o.
          let e : unless_null h (owned o) ≡ 0 = ap (λ (b : Bool). if b then 0 else owned o) null in
          omega (arith, e)))
    | inr some_pointer ↦ rw (some_pointer) (
        frees (
          regroup _ own (λ o.
            let e : unless_null h (owned o) ≡ owned o =
              ap (λ (b : Bool). if b then 0 else owned o) some_pointer in
            omega (arith, e))))
  ]

  free_layout-Owns :
      (l : MeshLayout) (rest : Object → ℕ) (s : Vulkan)
      → Owns before (λ o. held_layout l o + rest o) s
      → Owns before rest (free_layout l s)
  free_layout-Owns l rest s own = guarded l.vertex_binding _ rest s _ own (λ owned.
      destroy_if-Owns _ _ _ (
        destroy_if-Owns _ _ _ (
          regroup
            (λ o.
              has memory_block l.vertex_binding o
              + (has memory_block l.vertex_attributes o + rest o))
            owned (λ o. omega arith))))

  free_frame-Owns :
      (f : Frame) (rest : Object → ℕ) (s : Vulkan)
      → Owns before (λ o. held_frame f o + rest o) s
      → Owns before rest (free_frame f s)
  unfolding free_frame
  free_frame-Owns f rest s own =
      let targets =
        λ (o : Object). has framebuffer f.frame_buffer o + (has image_view f.view o + rest o) in
      destroy_if-Owns image_view f.view rest (
        destroy_if-Owns framebuffer f.frame_buffer (λ o. has image_view f.view o + rest o)
          (guarded f.cmd_buffer
            (λ o. has command_buffer f.cmd.buffer o + has memory_block f.cmd_buffer o) targets _ _
            (destroy_if-Owns fence f.fence (λ o. held_commands f o + targets o)
              (regroup _ own (λ o. omega arith)))
            (λ owned. destroy_if-Owns memory_block f.cmd_buffer targets (
              destroy_if-Owns command_buffer f.cmd.buffer
                (λ o. has memory_block f.cmd_buffer o + targets o)
                (regroup _ owned (λ o. omega arith))))))

  loop-Owns :
      (frames : ℕ → Frame) (n i : ℕ) (rest : Object → ℕ) (s : Vulkan)
      → Owns before (λ o. held_frames n i frames o + rest o) s
      → Owns before rest (for_loop n i (λ k. free_frame (frames k)) s)
  unfolding for_loop held_frames
  loop-Owns frames zero i rest s own = regroup rest own (λ o. omega arith)
  loop-Owns frames (suc n) i rest s own =
      loop-Owns frames n (i + 1) rest _
        (free_frame-Owns (frames i) _ s (regroup _ own (λ o. omega arith)))

  pub gpu_destroy-Restored :
      (g : Gpu) (s : Vulkan) → Owns before (held_gpu g) s → Restored before (gpu_destroy g s)
  unfolding gpu_destroy free_frames destroy_mesh_layouts
  gpu_destroy-Restored g s own =
      let o1 = free_layout-Owns (g.layouts 0) _ s own in
      let o2 = free_layout-Owns (g.layouts 1) _ _ o1 in
      let o3 = destroy_if-Owns _ _ _ o2 in
      let o4 = destroy_if-Owns _ _ _ o3 in
      let o5 = destroy_if-Owns _ _ _ o4 in
      let o6 = destroy_if-Owns _ _ _ o5 in
      let o7 = destroy_if-Owns _ _ _ o6 in
      let array = has memory_block g.frames_address in
      let o8 =
        guarded g.frames_address (λ o. held_frames g.frame_count 0 g.frames o + array o) _ _ _ o7
          (λ owned. destroy_if-Owns memory_block g.frames_address _ (
            loop-Owns g.frames g.frame_count 0 (λ o. array o + owned_last g o) _
              (regroup _ owned (λ o. omega arith)))) in
      destroy_if-Owns _ _ _ (
        destroy_if-Owns _ _ _ (
          destroy_if-Owns _ _ _ (
            destroy_if-Owns _ _ _ (
              destroy_if-Owns _ _ _
                (destroy_if-Owns _ _ _ (destroy_if-Owns _ _ _ (destroy_if-Owns _ _ _ o8)))))))
