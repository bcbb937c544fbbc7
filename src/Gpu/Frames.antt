-- ===== src/Gpu/Frames.antt =====
-- The frames of src/gpu.c: gpu_frame_begin, gpu_frame_end and what is recorded between them.
-- The calls of Vulkan that did what they were asked for are kept in order, the last one first, since
-- it is their order that matters. `acquired` is what the call of vkAcquireNextImageKHR leaves in
-- `image_index`, by the number of the call: it is not written where the call fails.
pub mod Order
pub mod Ring
pub mod Running
pub mod Waits
use evil_engine.Base.{
  ℕ, zero, suc, ◌+◌, ◌%◌, Bool, true, false, Option, none, some, List, [], ◌∷◌, ◌==◌, ltb,
  if◌then◌else◌, update,
}
use evil_engine.Gpu.{
  Call, Driver, Vulkan, CmdBuffer, Frame, Gpu, begin_command_buffer, end_command_buffer,
  acquire_next_image, wait_for_fences, reset_fences, queue_submit, queue_present,
}
use evil_engine.Gpu.Objects.{Pipeline, Descriptor, Mesh}

-- The commands, by the handles that they are given. `acquired_image` is an image that the swap chain
-- gave.
pub data Command : Type 0 where
  begin_buffer end_buffer set_viewport set_scissor end_render_pass : (cmd : ℕ) → Command
  begin_render_pass : (cmd pass frame_buffer : ℕ) → Command
  acquired_image presented_image : (image_index : ℕ) → Command
  waited_fence reset_fence : (fence_handle : ℕ) → Command
  submitted : (cmd fence_handle : ℕ) → Command
  waited_idle : Command
  bind_pipeline bind_vertices bind_indices : (cmd bound : ℕ) → Command
  bind_descriptor_set : (cmd pipeline_layout bound : ℕ) → Command
  draw_indexed draw_vertices : (cmd count : ℕ) → Command

pub record Host : Type 0 where
  pub gpu : Gpu
  pub calls : ℕ
  pub trace : List Command

-- VK_SUBOPTIMAL_KHR
abbrev pub suboptimal : ℕ
suboptimal = 1000001003

abbrev pub note : Command → Host → Host
note c host = record host { trace = c ∷ host.trace }

-- The frame that the next commands are for.
abbrev pub current_frame : Gpu → Frame
current_frame gpu = gpu.frames gpu.frame_index

unfoldable pub gpu_get_frame_count : Gpu → ℕ
gpu_get_frame_count gpu = gpu.frame_count

unfoldable pub gpu_wait_until_idle : Host → Host
gpu_wait_until_idle host = note waited_idle host

unfoldable pub gpu_cmd_pipeline_bind :
    Pipeline → CmdBuffer → List Command → CmdBuffer × List Command
gpu_cmd_pipeline_bind p cmd trace =
    (record cmd { pipeline_layout = p.layout }, bind_pipeline cmd.buffer p.pipe ∷ trace)

unfoldable pub gpu_cmd_descriptor_bind :
    Descriptor → CmdBuffer → List Command → CmdBuffer × List Command
gpu_cmd_descriptor_bind d cmd trace =
    (cmd, bind_descriptor_set cmd.buffer cmd.pipeline_layout d.set ∷ trace)

unfoldable pub gpu_cmd_mesh_bind : Mesh → CmdBuffer → List Command → CmdBuffer × List Command
gpu_cmd_mesh_bind m cmd trace =
    let with_vertices : CmdBuffer × List Command =
      if m.vertex_count == 0 then (record cmd { vertex_count = 0 }, trace) else (
        record cmd { vertex_count = m.vertex_count },
        bind_vertices cmd.buffer m.vertex_buffer ∷ trace,
      ) in
    let (cmd1, trace1) = with_vertices in
    if m.index_count == 0 then (record cmd1 { index_count = 0 }, trace1) else (
      record cmd1 { index_count = m.index_count },
      bind_indices cmd1.buffer m.index_buffer ∷ trace1,
    )

unfoldable pub gpu_cmd_draw : CmdBuffer → List Command → CmdBuffer × List Command
gpu_cmd_draw cmd trace =
    if cmd.index_count == 0
    then if cmd.vertex_count == 0
      then (cmd, trace)
      else (cmd, draw_vertices cmd.buffer cmd.vertex_count ∷ trace)
    else (cmd, draw_indexed cmd.buffer cmd.index_count ∷ trace)

-- Such code on the command buffer of the current frame.
abbrev pub on_current : (CmdBuffer → List Command → CmdBuffer × List Command) → Host → Host
on_current code host =
    let frame = current_frame host.gpu in
    let (cmd, trace) = code frame.cmd host.trace in
    record host {
      gpu = record host.gpu {
        frames = update host.gpu.frames host.gpu.frame_index (record frame { cmd = cmd });
      };
      trace = trace;
    }

module _ (driver : Driver) (acquired : (call : ℕ) → ℕ) where
  -- A call whose failure is only printed, and what it did if it did not fail.
  abbrev pub attempt : Call → (arguments : List ℕ) → Command → Host → Host
  attempt c arguments done host =
      let after = record host { calls = host.calls + 1 } in
      if driver.call_result host.calls c arguments == 0 then note done after else after

  -- The address of the command buffer, or NULL.
  unfoldable pub gpu_frame_begin : Host → Option ℕ × Host
  gpu_frame_begin host =
      let frame = current_frame host.gpu in
      let after = record host { calls = host.calls + 1 } in
      if driver.call_result host.calls begin_command_buffer (frame.cmd.buffer ∷ []) == 0
      then (
        some frame.cmd_buffer,
        note (set_scissor frame.cmd.buffer) (
            note (set_viewport frame.cmd.buffer) (
              note (begin_render_pass frame.cmd.buffer host.gpu.pass frame.frame_buffer)
                (note (begin_buffer frame.cmd.buffer) after))),
      )
      else (none, after)

  -- The image that is presented is `image_index`; the call that acquires one may also say that the
  -- swap chain is no longer the best.
  unfoldable pub acquire_image : Host → ℕ × Host
  acquire_image host =
      let result = driver.call_result host.calls acquire_next_image (host.gpu.swap_chain ∷ []) in
      let image_index = acquired host.calls in
      let after = record host { calls = host.calls + 1 } in
      if result == 0
      then (image_index, note (acquired_image image_index) after)
      else if result == suboptimal
      then (image_index, note (acquired_image image_index) after)
      else (image_index, after)

  unfoldable pub present : (image_index : ℕ) → Host → Host
  present image_index host =
      let result =
        driver.call_result host.calls queue_present (host.gpu.swap_chain ∷ image_index ∷ []) in
      let after = record host { calls = host.calls + 1 } in
      if result == 0
      then note (presented_image image_index) after
      else if result == suboptimal
      then note (presented_image image_index) after
      else after

  unfoldable pub gpu_frame_end : Host → Host
  gpu_frame_end host =
      let frame = current_frame host.gpu in
      let next = record host {
        gpu = record host.gpu { frame_index = (host.gpu.frame_index + 1) % host.gpu.frame_count };
      } in
      let ended =
        attempt end_command_buffer (frame.cmd.buffer ∷ []) (end_buffer frame.cmd.buffer)
          (note (end_render_pass frame.cmd.buffer) next) in
      let (image_index, with_image) = acquire_image ended in
      let waited =
        attempt wait_for_fences (frame.fence ∷ []) (waited_fence frame.fence) with_image in
      let reset = attempt reset_fences (frame.fence ∷ []) (reset_fence frame.fence) waited in
      let queued =
        attempt queue_submit (host.gpu.queue ∷ frame.cmd.buffer ∷ frame.fence ∷ [])
          (submitted frame.cmd.buffer frame.fence) reset in
      present image_index queued
