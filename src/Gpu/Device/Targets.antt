-- ===== src/Gpu/Device/Targets.antt =====
-- What gpu_create in src/gpu.c draws to, on every path.
use evil_engine.Base.{ℕ, ◌+◌, ◌<◌, ◌≡◌, refl, ap, ◌∙◌, arith, false, ◌==◌, update}
use evil_engine.Gpu.{
  Driver, Vulkan, Frame, Gpu, image, device_memory, bind_memory, image_view, render_pass,
  framebuffer,
}
use evil_engine.Gpu.Owns.{
  has, Owns, regroup, IsDriver, Ends, Ends-bind, create_into-Ends, create_into_Good,
  check_call-Ends, loop-Ends,
}
use evil_engine.Gpu.Objects.{Requirements}
use evil_engine.Gpu.Device.{
  Machine, create_view, create_depth_buffer, create_frame_buffer, create_targets,
}
use evil_engine.Gpu.Device.Held.{held_gpu}
use evil_engine.Gpu.Device.Arrays.{set_frame-held, From, From-update, From-next}
use evil_engine.Gpu.Device.Open.{NoLayouts, NoPools, NoTargets, Cleared, Stage}

abbrev pub HasArray : ℕ → Gpu → Type 0
HasArray n g = (g.frame_count ≡ n) × ((g.frames_address == 0) ≡ false)

abbrev pub NoView : Frame → Type 0
NoView f = f.view ≡ 0

abbrev pub NoBuffer : Frame → Type 0
NoBuffer f = f.frame_buffer ≡ 0

abbrev pub Idle : Frame → Type 0
Idle f = (f.fence ≡ 0) × (f.cmd_buffer ≡ 0)

-- Between two rounds of the loops.
abbrev pub Viewed : ℕ → ℕ → Gpu → Type 0
Viewed n i g =
    HasArray n g
    × From i NoView g.frames
    × From 0 NoBuffer g.frames
    × From 0 Idle g.frames
    × NoTargets g

abbrev pub Buffered : ℕ → ℕ → Gpu → Type 0
Buffered n i g = HasArray n g × From i NoBuffer g.frames × From 0 Idle g.frames × NoPools g

abbrev pub Painted : ℕ → Gpu → Type 0
Painted n g =
    HasArray n g × From 0 NoBuffer g.frames × From 0 Idle g.frames × (g.pass ≡ 0) × NoPools g

abbrev pub Commanded : ℕ → ℕ → Gpu → Type 0
Commanded n i g = HasArray n g × From i Idle g.frames × NoLayouts g

module _ (driver : Driver) (good : IsDriver driver) (requirements : ℕ → Requirements)
    (machine : Machine) (before : Vulkan) where
  create_view-Ends :
      (n i : ℕ) (g : Gpu) (s : Vulkan)
      → i < n
      → Viewed n i g
      → Owns before (held_gpu g) s
      → Ends driver good before held_gpu
          (Stage driver good requirements machine before (Viewed n (i + 1)))
          (create_view driver requirements machine i (g, s))
  unfolding create_view
  create_view-Ends n i g s small ((count, array), no_view, no_buffer, idle, no_targets) own =
      let f1 : Frame = record (g.frames i) { image = machine.images i } in
      let g1 : Gpu = record g { frames = update g.frames i f1 } in
      let at_i : g1.frames i ≡ f1 = ground arith in
      let own1 : Owns before (held_gpu g1) s = regroup _ own (λ o.
        let e = set_frame-held g i f1 (λ o. 0) array (omega (arith, count)) (λ o. omega arith) o in
        omega (arith, e)) in
      let no_view1 : (g1.frames i).view ≡ 0 =
        ap (λ (f : Frame). f.view) at_i ∙ no_view i (omega arith) in
      let no_buffer1 : From 0 NoBuffer g1.frames =
        From-update NoBuffer 0 i g.frames f1 (no_buffer i (omega arith)) no_buffer in
      let idle1 : From 0 Idle g1.frames =
        From-update Idle 0 i g.frames f1 (idle i (omega arith)) idle in
      create_into_Good driver good before held_gpu
        (Stage driver good requirements machine before (Viewed n (i + 1))) image_view _ _ g1 s own1
        (λ h.
          set_frame-held g1 i (record (g1.frames i) { view = h }) (has image_view h) array
            (omega (arith, count))
            (λ o. omega (arith, ap (λ (v : ℕ). has image_view v o) no_view1)))
        (λ h s2 own2. (
          (
            (count, array),
            From-next NoView i g1.frames _
                (From-update NoView i i g.frames f1 (no_view i (omega arith)) no_view),
            From-update NoBuffer 0 i g1.frames _ (no_buffer1 i (omega arith)) no_buffer1,
            From-update Idle 0 i g1.frames _ (idle1 i (omega arith)) idle1,
            no_targets,
          ),
          own2,
        ))

  -- The depth buffer and the render pass.
  depth_buffer-Ends :
      (n : ℕ) (g : Gpu) (s : Vulkan)
      → Viewed n n g
      → Owns before (held_gpu g) s
      → Ends driver good before held_gpu
          (Stage driver good requirements machine before (Painted n))
          (create_depth_buffer driver requirements machine (g, s))
  unfolding create_depth_buffer
  depth_buffer-Ends n g s
        (array, no_view, no_buffer, idle, (no_image, no_memory, no_depth_view, no_pass, no_pools))
        own =
      let Good = Stage driver good requirements machine before (Painted n) in
      create_into-Ends driver good before held_gpu Good image _ _ g s _ own
        (λ h o. omega (arith, ap (λ (v : ℕ). has image v o) no_image))
        (λ h1 s1 own1.
          create_into-Ends driver good before held_gpu Good device_memory _ _ _ s1 _ own1
            (λ h o. omega (arith, ap (λ (v : ℕ). has device_memory v o) no_memory))
            (λ h2 s2 own2.
              check_call-Ends driver good before held_gpu Good bind_memory _ _ s2 _ own2 (λ s3 own3.
                create_into_Good driver good before held_gpu Good image_view _ _
                  (record g { depth_stencil_image = h1; depth_stencil_memory = h2 }) s3 own3
                  (λ h o. omega (arith, ap (λ (v : ℕ). has image_view v o) no_depth_view))
                  (λ h4 s4 own4. ((array, no_buffer, idle, no_pass, no_pools), own4)))))

  create_frame_buffer-Ends :
      (n i : ℕ) (g : Gpu) (s : Vulkan)
      → i < n
      → Buffered n i g
      → Owns before (held_gpu g) s
      → Ends driver good before held_gpu
          (Stage driver good requirements machine before (Buffered n (i + 1)))
          (create_frame_buffer driver requirements machine i (g, s))
  unfolding create_frame_buffer
  create_frame_buffer-Ends n i g s small ((count, array), no_buffer, idle, no_pools) own =
      create_into_Good driver good before held_gpu
        (Stage driver good requirements machine before (Buffered n (i + 1))) framebuffer _ _ g s own
        (λ h.
          set_frame-held g i (record (g.frames i) { frame_buffer = h }) (has framebuffer h) array
            (omega (arith, count))
            (λ o. omega (arith, ap (λ (v : ℕ). has framebuffer v o) (no_buffer i (omega arith)))))
        (λ h s1 own1. (
          (
            (count, array),
            From-next NoBuffer i g.frames _ no_buffer,
            From-update Idle 0 i g.frames _ (idle i (omega arith)) idle,
            no_pools,
          ),
          own1,
        ))

  pub create_targets-Ends :
      (g : Gpu) (s : Vulkan)
      → Cleared g
      → NoTargets g
      → Owns before (held_gpu g) s
      → Ends driver good before held_gpu
          (Stage driver good requirements machine before (Buffered g.frame_count g.frame_count))
          (create_targets driver requirements machine (g, s))
  unfolding create_targets
  create_targets-Ends g s (array, cleared) no_targets own =
      let n = g.frame_count in
      let stage = Stage driver good requirements machine before in
      let Good = stage (Buffered g.frame_count g.frame_count) in
      let Cleared_image = stage (Painted n) in
      Ends-bind driver good before held_gpu (stage (Viewed n n)) Good _ _
        (loop-Ends driver good before held_gpu (λ i. stage (Viewed n i))
          (create_view driver requirements machine) n n refl
          (λ k x t small (now, owns). create_view-Ends n k x t small now owns) g s
          (
            (
              (refl, array),
              λ j above. ap (λ (f : Frame). f.view) (cleared j),
              λ j above. ap (λ (f : Frame). f.frame_buffer) (cleared j),
              λ j above. (
                ap (λ (f : Frame). f.fence) (cleared j),
                ap (λ (f : Frame). f.cmd_buffer) (cleared j),
              ),
              no_targets,
            ),
            own,
          ))
        (λ g1 s1 (viewed, own1).
          Ends-bind driver good before held_gpu Cleared_image Good _ _
            (depth_buffer-Ends n g1 s1 viewed own1)
            (λ g2 s2 ((has_array, no_buffer, idle, no_pass, no_pools), own2).
              create_into-Ends driver good before held_gpu Good render_pass _ _ g2 s2 _ own2
                (λ h o. omega (arith, ap (λ (v : ℕ). has render_pass v o) no_pass))
                (λ h s3 own3.
                  loop-Ends driver good before held_gpu (λ i. stage (Buffered n i))
                    (create_frame_buffer driver requirements machine) g2.frame_count n has_array.0
                    (λ k x t small (now, owns). create_frame_buffer-Ends n k x t small now owns)
                    (record g2 { pass = h }) s3 ((has_array, no_buffer, idle, no_pools), own3))))
