-- ===== src/Gpu/Device/Commands.antt =====
-- The pools and the command buffers of gpu_create in src/gpu.c, on every path.
use evil_engine.Base.{ℕ, ◌+◌, ◌<◌, ◌≡◌, ap, ◌∙◌, arith, Bool, false, ◌==◌, if◌then◌else◌, update}
use evil_engine.Gpu.{
  Object, Driver, Vulkan, CmdBuffer, Frame, Gpu, semaphore, descriptor_pool, command_pool,
  command_buffer, fence, memory_block,
}
use evil_engine.Gpu.Owns.{
  has, Owns, IsDriver, Ends, create_into-Ends, create_into_Good, heap_alloc-Ends,
}
use evil_engine.Gpu.Objects.{Requirements}
use evil_engine.Gpu.Device.{Machine, no_commands, create_pools, create_commands}
use evil_engine.Gpu.Device.Held.{held_frame, held_gpu}
use evil_engine.Gpu.Device.Arrays.{set_frame-held, From-behind, From-next}
use evil_engine.Gpu.Device.Open.{Stage}
use evil_engine.Gpu.Device.Targets.{Idle, Buffered, Commanded}

-- What else a frame owns when one of its handles is written.
commands-held :
    (f : Frame) (h : ℕ) (o : Object)
    → Idle f
    → ((h == 0) ≡ false)
    → held_frame f o + has memory_block h o
      ≡ held_frame (record f { cmd_buffer = h; cmd = no_commands }) o
commands-held f h o (no_fence, none_yet) not_null =
    let old =
      ap
        (λ (b : Bool).
          if b then 0 else has command_buffer f.cmd.buffer o + has memory_block f.cmd_buffer o)
        (ap (λ (i : ℕ). i == 0) none_yet) in
    let new = ap (λ (b : Bool). if b then 0 else 0 + has memory_block h o) not_null in
    omega (arith, old, new)

buffer-held :
    (f : Frame) (h : ℕ) (o : Object)
    → ((f.cmd_buffer == 0) ≡ false)
    → f.cmd ≡ no_commands
    → held_frame f o + has command_buffer h o
      ≡ held_frame (record f { cmd = record no_commands { buffer = h } }) o
buffer-held f h o not_null no_buffer_yet =
    let block = has memory_block f.cmd_buffer o in
    let old =
      ap (λ (b : Bool). if b then 0 else has command_buffer f.cmd.buffer o + block) not_null in
    let new = ap (λ (b : Bool). if b then 0 else has command_buffer h o + block) not_null in
    omega (arith, old, new, ap (λ (c : CmdBuffer). has command_buffer c.buffer o) no_buffer_yet)

module _ (driver : Driver) (good : IsDriver driver) (requirements : ℕ → Requirements)
    (machine : Machine) (before : Vulkan) where
  pub create_pools-Ends :
      (n : ℕ) (g : Gpu) (s : Vulkan)
      → Buffered n n g
      → Owns before (held_gpu g) s
      → Ends driver good before held_gpu
          (Stage driver good requirements machine before (Commanded n 0))
          (create_pools driver requirements machine (g, s))
  unfolding create_pools
  create_pools-Ends n g s
        (array, no_buffer, idle, (no_present, no_render, no_set_pool, no_cmd_pool, no_layouts))
        own =
      let Good = Stage driver good requirements machine before (Commanded n 0) in
      create_into-Ends driver good before held_gpu Good semaphore _ _ g s _ own
        (λ h o. omega (arith, ap (λ (v : ℕ). has semaphore v o) no_present))
        (λ h1 s1 own1.
          create_into-Ends driver good before held_gpu Good semaphore _ _ _ s1 _ own1
            (λ h o. omega (arith, ap (λ (v : ℕ). has semaphore v o) no_render))
            (λ h2 s2 own2.
              create_into-Ends driver good before held_gpu Good descriptor_pool _ _ _ s2 _ own2
                (λ h o. omega (arith, ap (λ (v : ℕ). has descriptor_pool v o) no_set_pool))
                (λ h3 s3 own3.
                  create_into_Good driver good before held_gpu Good command_pool _ _ _ s3 own3
                    (λ h o. omega (arith, ap (λ (v : ℕ). has command_pool v o) no_cmd_pool))
                    (λ h4 s4 own4. ((array, idle, no_layouts), own4)))))

  pub create_commands-Ends :
      (n i : ℕ) (g : Gpu) (s : Vulkan)
      → i < n
      → Commanded n i g
      → Owns before (held_gpu g) s
      → Ends driver good before held_gpu
          (Stage driver good requirements machine before (Commanded n (i + 1)))
          (create_commands driver requirements machine i (g, s))
  unfolding create_commands
  create_commands-Ends n i g s small ((count, array), idle, no_layouts) own =
      let Good = Stage driver good requirements machine before (Commanded n (i + 1)) in
      heap_alloc-Ends driver good before held_gpu Good _ g s _ own
        (λ h o not_null.
          set_frame-held g i (record (g.frames i) { cmd_buffer = h; cmd = no_commands })
            (has memory_block h) array (omega (arith, count))
            (λ o'. commands-held (g.frames i) h o' (idle i (omega arith)) not_null) o)
        (λ h1 s1 not_null own1.
          let f1 : Frame = record (g.frames i) { cmd_buffer = h1; cmd = no_commands } in
          let g1 : Gpu = record g { frames = update g.frames i f1 } in
          let at1 : g1.frames i ≡ f1 = ground arith in
          create_into-Ends driver good before held_gpu Good command_buffer _ _ g1 s1 _ own1
            (λ h.
              set_frame-held g1 i (record (g1.frames i) { cmd = record no_commands { buffer = h } })
                (has command_buffer h) array (omega (arith, count))
                (λ o.
                  buffer-held (g1.frames i) h o
                    (ap (λ (f : Frame). f.cmd_buffer == 0) at1 ∙ not_null)
                    (ap (λ (f : Frame). f.cmd) at1)))
            (λ h2 s2 own2.
              let f2 : Frame = record (g1.frames i) { cmd = record no_commands { buffer = h2 } } in
              let g2 : Gpu = record g1 { frames = update g1.frames i f2 } in
              let at2 : g2.frames i ≡ f2 = ground arith in
              let no_fence : (g2.frames i).fence ≡ 0 =
                ap (λ (f : Frame). f.fence) at2
                ∙ ap (λ (f : Frame). f.fence) at1
                ∙ (idle i (omega arith)).0 in
              create_into_Good driver good before held_gpu Good fence _ _ g2 s2 own2
                (λ h.
                  set_frame-held g2 i (record (g2.frames i) { fence = h }) (has fence h) array
                    (omega (arith, count))
                    (λ o. omega (arith, ap (λ (v : ℕ). has fence v o) no_fence)))
                (λ h3 s3 own3. (
                  (
                    (count, array),
                    From-behind Idle (i + 1) i g2.frames _ (omega arith) (
                        From-behind Idle (i + 1) i g1.frames f2 (omega arith)
                          (From-next Idle i g.frames f1 idle)),
                    no_layouts,
                  ),
                  own3,
                ))))
