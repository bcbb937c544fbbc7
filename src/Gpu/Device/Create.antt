-- ===== src/Gpu/Device/Create.antt =====
-- gpu_create in src/gpu.c on every path: what it leaves to gpu_destroy.
use evil_engine.Base.{ℕ, refl, arith}
use evil_engine.Gpu.{Driver, Vulkan, Gpu}
use evil_engine.Gpu.Owns.{
  Owns, IsDriver, Ends-bind, heap_alloc-Ends, loop-Ends, IsBalanced, finish-IsBalanced,
  nothing-Owns,
}
use evil_engine.Gpu.Objects.{Requirements}
use evil_engine.Gpu.Device.{Machine, no_gpu, gpu_destroy, create_commands, gpu_create}
use evil_engine.Gpu.Device.Held.{held_gpu, gpu_destroy-Restored}
use evil_engine.Gpu.Device.Open.{NoTargets, Cleared, Stage, open_device-Ends}
use evil_engine.Gpu.Device.Targets.{Buffered, Commanded, create_targets-Ends}
use evil_engine.Gpu.Device.Commands.{create_pools-Ends, create_commands-Ends}
use evil_engine.Gpu.Device.Layouts.{create_mesh_layouts-Ends}

-- However Vulkan answers, and whatever the machine is: a device that could not be created has been
-- destroyed in all its parts, and what one that was created owns is what gpu_destroy destroys, the
-- objects of all its frames too. Neither destroys what is not live.
pub gpu_create-IsBalanced :
    (driver : Driver)
    → IsDriver driver
    → (requirements : ℕ → Requirements) (machine : Machine) (s : Vulkan)
    → IsBalanced gpu_destroy s (gpu_create driver requirements machine s)
unfolding gpu_create
gpu_create-IsBalanced driver good requirements machine s =
    let Owned = λ (p : Gpu × Vulkan). Owns s (held_gpu p.0) p.1 in
    let stage = Stage driver good requirements machine s in
    finish-IsBalanced driver good s held_gpu gpu_destroy (gpu_destroy-Restored s) _ (
      heap_alloc-Ends driver good s held_gpu Owned _ no_gpu s _
        (nothing-Owns s _ (λ o. omega arith)) (λ h o not_null. omega arith)
        (λ h1 s1 not_null own1.
          Ends-bind driver good s held_gpu (stage (λ x. Cleared x × NoTargets x)) Owned _ _
            (open_device-Ends driver good requirements machine s (record no_gpu { address = h1 }) s1
              own1 refl
              (
                refl,
                (
                  refl,
                  (
                    refl,
                    refl,
                    (
                      refl,
                      refl,
                      refl,
                      refl,
                      (refl, refl, refl, refl, ((refl, refl), (refl, refl))),
                    ),
                  ),
                ),
              ))
            (λ g2 s2 ((cleared, no_targets), own2).
              let n = g2.frame_count in
              Ends-bind driver good s held_gpu (stage (Buffered n n)) Owned _ _
                (create_targets-Ends driver good requirements machine s g2 s2 cleared no_targets
                  own2)
                (λ g3 s3 (buffered, own3).
                  Ends-bind driver good s held_gpu (stage (Commanded n 0)) Owned _ _
                    (create_pools-Ends driver good requirements machine s n g3 s3 buffered own3)
                    (λ g4 s4 (commanded, own4).
                      Ends-bind driver good s held_gpu (stage (Commanded n n)) Owned _ _
                        (loop-Ends driver good s held_gpu (λ i. stage (Commanded n i))
                          (create_commands driver requirements machine) g4.frame_count n
                          commanded.0.0
                          (λ k x t small (now, owns).
                            create_commands-Ends driver good requirements machine s n k x t small
                              now owns)
                          g4 s4 (commanded, own4))
                        (λ g5 s5 ((array, idle, no_layouts), own5).
                          create_mesh_layouts-Ends driver good requirements machine s g5 s5
                            no_layouts own5))))))
