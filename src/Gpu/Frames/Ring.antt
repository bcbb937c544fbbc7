-- ===== src/Gpu/Frames/Ring.antt =====
-- The ring of frames of src/gpu.c beside the frames that the render thread of src/render.c counts.
use native.Mathlib.Nat.{mod-eq_of_lt, zero-add}
use evil_engine.Base.{
  ℕ, ◌+◌, ◌%◌, ◌<◌, ◌≡◌, ap, ◌∙◌, sym, arith, true, List, length, ◌^◌, mod_int, is_nonneg, add32,
}
use evil_engine.Render
use evil_engine.Render.{Render, destroy_stale_data, end_frame}
use evil_engine.Gpu.{Driver, begin_command_buffer}
use evil_engine.Gpu.Frames.{Host, gpu_get_frame_count}
use evil_engine.Gpu.Frames.Order.{Drawing, Succeeds, run_frames, frame_index_lem}

-- The ring after some frames of a new device.
ring_index :
    (driver : Driver) (acquired : (call : ℕ) → ℕ) (frames : List (List Drawing)) (host : Host)
    → host.gpu.frame_index ≡ 0
    → 0 < host.gpu.frame_count
    → length frames < 2 ^ 31
    → mod_int (length frames) (gpu_get_frame_count host.gpu)
      ≡ (run_frames driver acquired frames host).gpu.frame_index
unfolding gpu_get_frame_count
ring_index driver acquired frames host first positive small =
    let nonneg : is_nonneg (length frames) ≡ true = ground arith in
    rw (nonneg) (
      sym (
        frame_index_lem driver acquired frames host (omega (arith, first, positive))
        ∙ ap (λ i. (i + length frames) % host.gpu.frame_count) first
        ∙ ap (λ i. i % host.gpu.frame_count) (zero-add (length frames))))

-- Where Vulkan begins every command buffer, and after fewer than 2 ^ 31 frames of a new device, whatever
-- they draw: if the render thread counted each of them but the last, the end of the last in src/render.c
-- computes as the index of the next uniform buffers and descriptors the index of the frame that src/gpu.c
-- is at, and has counted all of them, over the same number of frames of the device.
pub frame_ring :
    {W U : Type 0} (gpu : Render.Gpu W U) (driver : Driver) (acquired : (call : ℕ) → ℕ)
    (frames : List (List Drawing)) (host : Host) (r : Render) (w : W)
    → Succeeds driver begin_command_buffer
    → host.gpu.frame_index ≡ 0
    → 0 < host.gpu.frame_count
    → length frames < 2 ^ 31
    → r.frame_counter + 1 ≡ length frames
    → r.gpu_frame_count ≡ gpu_get_frame_count host.gpu
    → ((end_frame gpu r w).0.frame_index ≡ (run_frames driver acquired frames host).gpu.frame_index)
      × ((end_frame gpu r w).1.0.frame_counter ≡ length frames)
      × ((end_frame gpu r w).1.0.gpu_frame_count ≡ gpu_get_frame_count host.gpu)
unfolding destroy_stale_data
frame_ring gpu driver acquired frames host r w begins first positive small counted same =
    let next : add32 r.frame_counter 1 ≡ length frames =
      ap (λ n. n % 2 ^ 32) counted ∙ mod-eq_of_lt (omega (arith, small)) in
    (
      ap (λ n. mod_int n r.gpu_frame_count) next
          ∙ ap (mod_int (length frames)) same
          ∙ ring_index driver acquired frames host first positive small,
      next,
      same,
    )
