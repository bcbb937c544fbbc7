-- ===== src/Gpu/Device/Open.antt =====
-- The first part of gpu_create in src/gpu.c, up to the array of frames, on every path.
use evil_engine.Base.{
  ℕ, zero, suc, ◌+◌, ◌≡◌, refl, ap, arith, Bool, false, List, [], ◌∷◌, ◌==◌, if◌then◌else◌, ◌⊎◌,
  inl, inr, Option-cases,
}
use evil_engine.Gpu.{
  Object, Driver, Vulkan, Gpu, MeshLayout, Try, enumerate_devices, get_surface_capabilities,
  get_swapchain_images, instance_object, device, surface, swapchain, memory_block,
}
use evil_engine.Gpu.Owns.{
  has, Owns, regroup, IsDriver, Ends, Ends-bind, create_into-Ends, heap_alloc-Ends, check_call-Ends,
  check_call_last,
}
use evil_engine.Gpu.Objects.{Requirements}
use evil_engine.Gpu.Device.{
  Machine, no_frame, graphics_family, create_instance, pick_physical_device, create_device,
  create_surface, create_swap_chain, open_device,
}
use evil_engine.Gpu.Device.Held.{held_frames, held_array, held_gpu}

-- What is not there yet, part by part.
abbrev pub NoLayout : MeshLayout → Type 0
NoLayout l = (l.vertex_binding ≡ 0) × (l.vertex_attributes ≡ 0)

abbrev pub NoLayouts : Gpu → Type 0
NoLayouts g = NoLayout (g.layouts 0) × NoLayout (g.layouts 1)

abbrev pub NoPools : Gpu → Type 0
NoPools g =
    (g.present_complete_sema ≡ 0)
    × (g.render_complete_sema ≡ 0)
    × (g.set_pool ≡ 0)
    × (g.cmd_pool ≡ 0)
    × NoLayouts g

abbrev pub NoTargets : Gpu → Type 0
NoTargets g =
    (g.depth_stencil_image ≡ 0)
    × (g.depth_stencil_memory ≡ 0)
    × (g.depth_stencil_view ≡ 0)
    × (g.pass ≡ 0)
    × NoPools g

abbrev NoSwapChain : Gpu → Type 0
NoSwapChain g = (g.swap_chain ≡ 0) × (g.frames_address ≡ 0) × NoTargets g

abbrev NoSurface : Gpu → Type 0
NoSurface g = (g.surface_khr ≡ 0) × NoSwapChain g

abbrev NoDevice : Gpu → Type 0
NoDevice g = (g.logical_device ≡ 0) × NoSurface g

-- The array of frames is there, and cleared.
abbrev pub Cleared : Gpu → Type 0
Cleared g = ((g.frames_address == 0) ≡ false) × ((j : ℕ) → g.frames j ≡ no_frame)

-- What cleared frames own.
held_frames-no_frame : (n i : ℕ) (o : Object) → held_frames n i (λ j. no_frame) o ≡ 0
unfolding held_frames
held_frames-no_frame zero i o = refl
held_frames-no_frame (suc n) i o = omega (arith, held_frames-no_frame n (i + 1) o)

List-cases : (l : List ℕ) → (l ≡ []) ⊎ ((x : ℕ) × (rest : List ℕ) × (l ≡ x ∷ rest))
List-cases [] = inl refl
List-cases (x ∷ rest) = inr (x, rest, refl)

module _ (driver : Driver) (good : IsDriver driver) (requirements : ℕ → Requirements)
    (machine : Machine) (before : Vulkan) where
  -- What is known between two parts.
  abbrev pub Stage : (Gpu → Type 0) → Gpu × Vulkan → Type 0
  Stage P p = P p.0 × Owns before (held_gpu p.0) p.1

  abbrev pub Ending : (Gpu → Type 0) → Try (Gpu × Vulkan) → Type 0
  Ending P = Ends driver good before held_gpu (Stage P)

  pick_physical_device-Ends :
      (g : Gpu) (s : Vulkan)
      → Owns before (held_gpu g) s
      → NoDevice g
      → Ending NoDevice (pick_physical_device driver requirements machine (g, s))
  unfolding pick_physical_device
  pick_physical_device-Ends g s own no_device =
      check_call-Ends driver good before held_gpu (Stage NoDevice) enumerate_devices _ g s _ own
        (λ s1 own1. elim (List-cases machine.physical_devices) [
          | inl nothing ↦ rw (nothing) own1
          | inr (d, others, found) ↦ rw (found) (
              check_call-Ends driver good before held_gpu (Stage NoDevice) enumerate_devices _ g s1
                _ own1
                (λ s2 own2.
                  (no_device, record { counted = own2.counted; faultless = own2.faultless })))
        ])

  create_device-Ends :
      (g : Gpu) (s : Vulkan)
      → Owns before (held_gpu g) s
      → NoDevice g
      → Ending NoSurface (create_device driver requirements machine (g, s))
  unfolding create_device
  create_device-Ends g s own (no_device, no_surface) =
      elim (Option-cases (graphics_family machine.queue_families 0)) [
        | inl no_family ↦ rw (create_device, no_family) own
        | inr ((family, count), found) ↦
            rw (create_device, found)
              (create_into-Ends driver good before held_gpu (Stage NoSurface) device _ _ g s _ own
                (λ h o. omega (arith, ap (λ (i : ℕ). has device i o) no_device))
                (λ h s1 own1.
                  (no_surface, record { counted = own1.counted; faultless = own1.faultless })))
      ]

  create_surface-Ends :
      (g : Gpu) (s : Vulkan)
      → Owns before (held_gpu g) s
      → NoSurface g
      → Ending NoSwapChain (create_surface driver requirements machine (g, s))
  unfolding create_surface
  create_surface-Ends g s own (no_surface, no_swap_chain) =
      create_into-Ends driver good before held_gpu (Stage NoSwapChain) surface _ _ g s _ own
        (λ h o. omega (arith, ap (λ (i : ℕ). has surface i o) no_surface))
        (λ h s1 own1.
          check_call-Ends driver good before held_gpu (Stage NoSwapChain) get_surface_capabilities _
            _ s1 _ own1
            (λ s2 own2.
              (no_swap_chain, record { counted = own2.counted; faultless = own2.faultless })))

  create_swap_chain-Ends :
      (g : Gpu) (s : Vulkan)
      → Owns before (held_gpu g) s
      → NoSwapChain g
      → Ending (λ x. Cleared x × NoTargets x) (create_swap_chain driver requirements machine (g, s))
  unfolding create_swap_chain
  create_swap_chain-Ends g s own (no_swap_chain, no_array, no_targets) =
      let Good = Stage (λ x. Cleared x × NoTargets x) in
      let array = has memory_block in
      let empty : (o : Object) → held_array g o ≡ 0 = λ o.
        ap
          (λ (b : Bool).
            if b then 0 else held_frames g.frame_count 0 g.frames o + array g.frames_address o)
          (ap (λ (i : ℕ). i == 0) no_array) in
      create_into-Ends driver good before held_gpu Good swapchain _ _ g s _ own
        (λ h o. omega (arith, ap (λ (i : ℕ). has swapchain i o) no_swap_chain))
        (λ h s1 own1.
          let counted : Gpu = record g { swap_chain = h; frame_count = machine.image_count } in
          let no_frames : (o : Object) → held_array counted o ≡ 0 = λ o.
            ap
              (λ (b : Bool).
                if b
                then 0
                else held_frames machine.image_count 0 g.frames o + array g.frames_address o)
              (ap (λ (i : ℕ). i == 0) no_array) in
          check_call-Ends driver good before held_gpu Good get_swapchain_images _
            (record g { swap_chain = h }) s1 _ own1
            (λ s2 own2.
              heap_alloc-Ends driver good before held_gpu Good _ counted s2 _
                (regroup _ own2 (λ o. omega (arith, empty o, no_frames o)))
                (λ a o ne.
                  let filled : held_array
                        (record counted { frames_address = a; frames = λ i. no_frame }) o
                      ≡ held_frames machine.image_count 0 (λ i. no_frame) o + array a o =
                    ap
                      (λ (b : Bool).
                        if b
                        then 0
                        else held_frames machine.image_count 0 (λ i. no_frame) o + array a o)
                      ne in
                  omega (arith, no_frames o, filled, held_frames-no_frame machine.image_count 0 o))
                (λ a s3 ne own3.
                  check_call_last driver good before held_gpu Good get_swapchain_images _ _ s3 own3
                    (λ s4 own4. (((ne, λ j. refl), no_targets), own4)))))

  -- All of it, from what `heap_alloc` and `memset` give.
  pub open_device-Ends :
      (g : Gpu) (s : Vulkan)
      → Owns before (held_gpu g) s
      → g.vk_instance ≡ 0
      → NoDevice g
      → Ending (λ x. Cleared x × NoTargets x) (open_device driver requirements machine (g, s))
  unfolding open_device create_instance
  open_device-Ends g s own no_instance no_device =
      let Good = Stage (λ x. Cleared x × NoTargets x) in
      create_into-Ends driver good before held_gpu Good instance_object _ _ g s _ own
        (λ h o. omega (arith, ap (λ (i : ℕ). has instance_object i o) no_instance))
        (λ h s1 own1.
          Ends-bind driver good before held_gpu (Stage NoDevice) Good _ _
            (pick_physical_device-Ends (record g { vk_instance = h }) s1 own1 no_device)
            (λ g2 s2 (bare2, own2).
              Ends-bind driver good before held_gpu (Stage NoSurface) Good _ _
                (create_device-Ends g2 s2 own2 bare2)
                (λ g3 s3 (bare3, own3).
                  Ends-bind driver good before held_gpu (Stage NoSwapChain) Good _ _
                    (create_surface-Ends g3 s3 own3 bare3)
                    (λ g4 s4 (bare4, own4). create_swap_chain-Ends g4 s4 own4 bare4))))
