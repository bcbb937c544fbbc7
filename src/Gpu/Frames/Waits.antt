-- ===== src/Gpu/Frames/Waits.antt =====
-- What the frames of src/gpu.c wait for, and when.
use mathlib.Core.Path.{subst}
use native.Mathlib.Nat.{add-mod_right, mod-eq_of_lt}
use evil_engine.Base.{
  ℕ, ◌+◌, ◌%◌, ◌<◌, ◌≡◌, refl, ap, ◌∙◌, arith, true, false, Option, some, List, [], ◌∷◌, length,
  ◌==◌, inl, inr, Bool-cases,
}
use evil_engine.Gpu.{
  Driver, Frame, begin_command_buffer, end_command_buffer, wait_for_fences, reset_fences,
  queue_submit,
}
use evil_engine.Gpu.Frames.{
  Host, note, begin_buffer, set_viewport, set_scissor, begin_render_pass, end_buffer,
  end_render_pass, waited_fence, reset_fence, submitted, current_frame, attempt, gpu_frame_begin,
  acquire_image, gpu_frame_end,
}
use evil_engine.Gpu.Frames.Order.{
  Drawing, Succeeds, begun_frame, begun_frame-Same, run_frames-fences, run_frame, run_frames,
  frame_index_lem,
}
use evil_engine.Gpu.Frames.Running.{
  may_run_after, may_run, fences_free, Quiet, Quiet-trans, acquire_image-Quiet, present-Quiet,
  begun_frame-Quiet, ended-Quiet, reset-Quiet,
}

-- The begin of a frame hands out the command buffer of the device's frame and records into it, while
-- work that was submitted with the fence of that frame may still be running.
pub record BeginsEarly (h : Host) (begun : Option ℕ × Host) : Type 0 where
  pub handed_out : begun.0 ≡ some (current_frame h.gpu).cmd_buffer
  pub recorded_again :
      begun.1.trace
      ≡ set_scissor (current_frame h.gpu).cmd.buffer
        ∷ set_viewport (current_frame h.gpu).cmd.buffer
        ∷ begin_render_pass
            (current_frame h.gpu).cmd.buffer
            h.gpu.pass
            (current_frame h.gpu).frame_buffer
        ∷ begin_buffer (current_frame h.gpu).cmd.buffer
        ∷ h.trace
  pub still_running : may_run (current_frame h.gpu).fence h.trace ≡ true

module _ (driver : Driver) (acquired : (call : ℕ) → ℕ) where
  -- The states of `gpu_frame_end` before it waits and before it submits.
  unfoldable with_image : Host → Host
  with_image host =
      let frame = current_frame host.gpu in
      let next = record host {
        gpu = record host.gpu { frame_index = (host.gpu.frame_index + 1) % host.gpu.frame_count };
      } in
      (acquire_image driver acquired (
        attempt driver acquired end_command_buffer (frame.cmd.buffer ∷ [])
          (end_buffer frame.cmd.buffer) (note (end_render_pass frame.cmd.buffer) next))).1

  unfoldable waited : ℕ → Host → Host
  waited f host = attempt driver acquired wait_for_fences (f ∷ []) (waited_fence f) host

  unfoldable submit : (queue cmd f : ℕ) → Host → Host
  submit queue cmd f host =
      attempt driver acquired queue_submit (queue ∷ cmd ∷ f ∷ []) (submitted cmd f) host

  with_image-Quiet : (host : Host) → Quiet host.trace (with_image host).trace
  unfolding with_image
  with_image-Quiet host =
      let next = record host {
        gpu = record host.gpu { frame_index = (host.gpu.frame_index + 1) % host.gpu.frame_count };
      } in
      Quiet-trans (ended-Quiet driver acquired (current_frame host.gpu).cmd.buffer next)
        (acquire_image-Quiet driver acquired _)

  -- `gpu_frame_end` in its parts.
  gpu_frame_end-Quiet :
      (host : Host)
      → Quiet
          (submit host.gpu.queue
            (current_frame host.gpu).cmd.buffer
            (current_frame host.gpu).fence
            (attempt driver acquired reset_fences
              ((current_frame host.gpu).fence ∷ [])
              (reset_fence (current_frame host.gpu).fence)
              (waited (current_frame host.gpu).fence (with_image host)))).trace
          (gpu_frame_end driver acquired host).trace
  unfolding gpu_frame_end submit waited with_image
  gpu_frame_end-Quiet host = present-Quiet driver acquired _ _

  -- Waiting frees the fence.
  waited-free :
      (f : ℕ) (host : Host)
      → Succeeds driver wait_for_fences
      → (may_run f (waited f host).trace ≡ false)
        × (fences_free (waited f host).trace ≡ fences_free host.trace)
  unfolding waited may_run may_run_after fences_free
  waited-free f host waits =
      let self : (f == f) ≡ true = ground arith in
      rw (waited, waits host.calls (f ∷ []), self) (refl, refl)

  waited-others :
      (f g : ℕ) (host : Host)
      → ((f == g) ≡ false)
      → may_run g (waited f host).trace ≡ may_run g host.trace
  unfolding waited may_run may_run_after
  waited-others f g host other = ground arith

  submit-free :
      (queue cmd f : ℕ) (host : Host)
      → may_run f host.trace ≡ false
      → fences_free host.trace ≡ true
      → fences_free (submit queue cmd f host).trace ≡ true
  unfolding submit fences_free
  submit-free queue cmd f host idle free = ground arith

  submit-runs :
      (queue cmd f : ℕ) (host : Host)
      → Succeeds driver queue_submit
      → may_run f (submit queue cmd f host).trace ≡ true
  unfolding submit may_run may_run_after
  submit-runs queue cmd f host submits =
      let self : (f == f) ≡ true = ground arith in
      rw (submit, submits host.calls (queue ∷ cmd ∷ f ∷ []), self) refl

  submit-keeps :
      (queue cmd f g : ℕ) (host : Host)
      → may_run g host.trace ≡ true
      → may_run g (submit queue cmd f host).trace ≡ true
  unfolding submit may_run may_run_after
  submit-keeps queue cmd f g host running = ground arith

  run_frame-free :
      (drawings : List Drawing) (host : Host)
      → Succeeds driver wait_for_fences
      → fences_free host.trace ≡ true
      → fences_free (run_frame driver acquired drawings host).trace ≡ true
  unfolding run_frame
  run_frame-free drawings host waits free =
      let begun : Host = begun_frame driver acquired drawings host in
      let frame : Frame = current_frame begun.gpu in
      let w : Host = waited frame.fence (with_image begun) in
      let r : Host =
        attempt driver acquired reset_fences (frame.fence ∷ []) (reset_fence frame.fence) w in
      let quiet =
        Quiet-trans (begun_frame-Quiet driver acquired drawings host) (with_image-Quiet begun) in
      let after = waited-free frame.fence (with_image begun) waits in
      let reset = reset-Quiet driver acquired frame.fence w in
      (gpu_frame_end-Quiet begun).free
      ∙ submit-free begun.gpu.queue frame.cmd.buffer frame.fence r
          (reset.running frame.fence ∙ after.0) (reset.free ∙ after.1 ∙ quiet.free ∙ free)

  -- However often Vulkan refuses anything but to wait, a fence is never given to the queue while work that
  -- was given with it before may still be running.
  pub submits_wait :
      (frames : List (List Drawing)) (host : Host)
      → Succeeds driver wait_for_fences
      → fences_free host.trace ≡ true
      → fences_free (run_frames driver acquired frames host).trace ≡ true
  unfolding run_frames
  submits_wait [] host waits free = free
  submits_wait (drawings ∷ frames) host waits free =
      submits_wait frames (run_frame driver acquired drawings host) waits
        (run_frame-free drawings host waits free)

  run_frame-runs :
      (drawings : List Drawing) (host : Host)
      → Succeeds driver queue_submit
      → may_run (current_frame host.gpu).fence (run_frame driver acquired drawings host).trace
        ≡ true
  unfolding run_frame
  run_frame-runs drawings host submits =
      let begun : Host = begun_frame driver acquired drawings host in
      let frame : Frame = current_frame begun.gpu in
      let same = begun_frame-Same driver acquired drawings host in
      let fence : frame.fence ≡ (current_frame host.gpu).fence =
        ap (λ i. (begun.gpu.frames i).fence) same.index ∙ same.fences host.gpu.frame_index in
      subst (λ f. may_run f (run_frame driver acquired drawings host).trace ≡ true) fence
        ((gpu_frame_end-Quiet begun).running frame.fence
          ∙ submit-runs begun.gpu.queue frame.cmd.buffer frame.fence _ submits)

  run_frame-keeps :
      (drawings : List Drawing) (host : Host) (g : ℕ)
      → Succeeds driver queue_submit
      → may_run g host.trace ≡ true
      → may_run g (run_frame driver acquired drawings host).trace ≡ true
  unfolding run_frame
  run_frame-keeps drawings host g submits running =
      let begun : Host = begun_frame driver acquired drawings host in
      let frame : Frame = current_frame begun.gpu in
      let quiet =
        Quiet-trans (begun_frame-Quiet driver acquired drawings host) (with_image-Quiet begun) in
      (gpu_frame_end-Quiet begun).running g ∙ elim (Bool-cases (frame.fence == g)) [
        | inl this ↦
            let e : frame.fence ≡ g = ground arith in
            subst
              (λ f.
                may_run f
                  (submit begun.gpu.queue frame.cmd.buffer frame.fence (
                    attempt driver acquired reset_fences (frame.fence ∷ [])
                      (reset_fence frame.fence) (waited frame.fence (with_image begun)))).trace
                ≡ true)
              e (submit-runs begun.gpu.queue frame.cmd.buffer frame.fence _ submits)
        | inr other ↦ submit-keeps begun.gpu.queue frame.cmd.buffer frame.fence g _ (
            (reset-Quiet driver acquired frame.fence
                (waited frame.fence (with_image begun))).running
              g
            ∙ waited-others frame.fence g (with_image begun) other
            ∙ quiet.running g
            ∙ running)
      ]

  run_frames-keeps :
      (frames : List (List Drawing)) (host : Host) (g : ℕ)
      → Succeeds driver queue_submit
      → may_run g host.trace ≡ true
      → may_run g (run_frames driver acquired frames host).trace ≡ true
  unfolding run_frames
  run_frames-keeps [] host g submits running = running
  run_frames-keeps (drawings ∷ frames) host g submits running =
      run_frames-keeps frames (run_frame driver acquired drawings host) g submits
        (run_frame-keeps drawings host g submits running)

  first_frame_runs :
      (drawings : List Drawing) (frames : List (List Drawing)) (host : Host)
      → Succeeds driver queue_submit
      → may_run
          (current_frame host.gpu).fence
          (run_frames driver acquired (drawings ∷ frames) host).trace
        ≡ true
  unfolding run_frames
  first_frame_runs drawings frames host submits =
      run_frames-keeps frames (run_frame driver acquired drawings host)
        (current_frame host.gpu).fence submits (run_frame-runs drawings host submits)

  -- Where Vulkan takes all work and begins every command buffer, after one round of the ring, from any
  -- state and whatever is drawn, the next frame is the one that the round began with, and with nothing
  -- before it gpu_frame_begin begins its command buffer again, records the render pass, the viewport and
  -- the scissor into it and hands it out, while the work that was submitted with the fence of the frame
  -- may still be running: only gpu_frame_end waits.
  pub begins_too_soon :
      (frames : List (List Drawing)) (host : Host)
      → host.gpu.frame_index < host.gpu.frame_count
      → length frames ≡ host.gpu.frame_count
      → Succeeds driver queue_submit
      → Succeeds driver begin_command_buffer
      → ((run_frames driver acquired frames host).gpu.frame_index ≡ host.gpu.frame_index)
        × BeginsEarly
            (run_frames driver acquired frames host)
            (gpu_frame_begin driver acquired (run_frames driver acquired frames host))
  unfolding gpu_frame_begin
  begins_too_soon [] host small round submits begins = absurd (omega (arith, small, round))
  begins_too_soon (drawings ∷ frames) host small round submits begins =
      let h : Host = run_frames driver acquired (drawings ∷ frames) host in
      let n = host.gpu.frame_count in
      let index : h.gpu.frame_index ≡ host.gpu.frame_index =
        frame_index_lem driver acquired (drawings ∷ frames) host small
        ∙ ap (λ k. (host.gpu.frame_index + k) % n) round
        ∙ add-mod_right host.gpu.frame_index n
        ∙ mod-eq_of_lt small in
      let fence : (current_frame h.gpu).fence ≡ (current_frame host.gpu).fence =
        ap (λ i. (h.gpu.frames i).fence) index
        ∙ run_frames-fences driver acquired (drawings ∷ frames) host host.gpu.frame_index in
      let begun = begins h.calls ((current_frame h.gpu).cmd.buffer ∷ []) in
      (
        index,
        record {
          handed_out = rw (begun) refl;
          recorded_again = rw (begun) refl;
          still_running =
              ap (λ f. may_run f h.trace) fence ∙ first_frame_runs drawings frames host submits;
        },
      )
