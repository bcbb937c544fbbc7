-- ===== src/Gpu/Objects/Balance.antt =====
-- The creations of src/gpu.c on every path: what they leave to destroy, and what their destructions do.
use evil_engine.Base.{
  ℕ, ◌+◌, ◌≡◌, refl, ap, arith, List, [], ◌∷◌, length, ◌==◌, inl, inr, Bool-cases,
}
use evil_engine.Gpu.{
  Object, Driver, Vulkan, Gpu, check_call, device_memory, buffer, pipeline_layout, pipeline,
  shader_module, descriptor_set_layout, descriptor_set, memory_block, map_memory, bind_memory,
}
use evil_engine.Gpu.Owns.{
  has, Owns, destroy_if-Owns, IsDriver, Ends, create_into-Ends, create_into_last, check_call_last,
  heap_alloc-Ends, check_call-Ends, Ends-bind, Restored, IsBalanced, finish-IsBalanced,
  nothing-Owns,
}
use evil_engine.Gpu.Objects.{
  Requirements, Mesh, MeshInfo, gpu_mesh_destroy, Pipeline, gpu_pipeline_destroy, Shader,
  ShaderInfo, gpu_shader_destroy, UniformBuffer, gpu_uniform_buffer_destroy, Descriptor,
  gpu_descriptor_destroy, fill_vertices, fill_indices, gpu_mesh_create, gpu_pipeline_create,
  gpu_shader_create, gpu_uniform_buffer_update, described, gpu_uniform_buffer_create,
  gpu_descriptor_create,
}

-- What each of them owns, in the order of its destruction.
abbrev pub held_pipeline : Pipeline → Object → ℕ
held_pipeline p o =
    has pipeline_layout p.layout o + (has pipeline p.pipe o + (has memory_block p.address o + 0))

abbrev pub held_shader : Shader → Object → ℕ
held_shader x o =
    has shader_module x.vertex_module o
    + (has shader_module x.fragment_module o
        + (has descriptor_set_layout x.set_layout o + (has memory_block x.address o + 0)))

abbrev pub held_uniform : UniformBuffer → Object → ℕ
held_uniform u o =
    has buffer u.handle o + (has device_memory u.memory o + (has memory_block u.address o + 0))

abbrev pub held_descriptor : Descriptor → Object → ℕ
held_descriptor d o = has descriptor_set d.set o + (has memory_block d.address o + 0)

abbrev pub held_mesh : Mesh → Object → ℕ
held_mesh m o =
    has buffer m.index_buffer o
    + (has device_memory m.index_memory o
        + (has buffer m.vertex_buffer o
            + (has device_memory m.vertex_memory o + (has memory_block m.address o + 0))))

gpu_shader_destroy-Restored :
    (before : Vulkan) (x : Shader) (s : Vulkan)
    → Owns before (held_shader x) s
    → Restored before (gpu_shader_destroy x s)
unfolding gpu_shader_destroy
gpu_shader_destroy-Restored before x s own =
    destroy_if-Owns _ _ _
      (destroy_if-Owns _ _ _ (destroy_if-Owns _ _ _ (destroy_if-Owns _ _ _ own)))

gpu_uniform_buffer_destroy-Restored :
    (before : Vulkan) (u : UniformBuffer) (s : Vulkan)
    → Owns before (held_uniform u) s
    → Restored before (gpu_uniform_buffer_destroy u s)
unfolding gpu_uniform_buffer_destroy
gpu_uniform_buffer_destroy-Restored before u s own =
    destroy_if-Owns _ _ _ (destroy_if-Owns _ _ _ (destroy_if-Owns _ _ _ own))

gpu_descriptor_destroy-Restored :
    (before : Vulkan) (d : Descriptor) (s : Vulkan)
    → Owns before (held_descriptor d) s
    → Restored before (gpu_descriptor_destroy d s)
unfolding gpu_descriptor_destroy
gpu_descriptor_destroy-Restored before d s own = destroy_if-Owns _ _ _ (destroy_if-Owns _ _ _ own)

gpu_mesh_destroy-Restored :
    (before : Vulkan) (m : Mesh) (s : Vulkan)
    → Owns before (held_mesh m) s
    → Restored before (gpu_mesh_destroy m s)
unfolding gpu_mesh_destroy
gpu_mesh_destroy-Restored before m s own = destroy_if-Owns _ _ _ (
    destroy_if-Owns _ _ _
      (destroy_if-Owns _ _ _ (destroy_if-Owns _ _ _ (destroy_if-Owns _ _ _ own))))

gpu_pipeline_destroy-Restored :
    (before : Vulkan) (p : Pipeline) (s : Vulkan)
    → Owns before (held_pipeline p) s
    → Restored before (gpu_pipeline_destroy p s)
unfolding gpu_pipeline_destroy
gpu_pipeline_destroy-Restored before p s own =
    destroy_if-Owns _ _ _ (destroy_if-Owns _ _ _ (destroy_if-Owns _ _ _ own))

module _ (driver : Driver) (good : IsDriver driver) (requirements : ℕ → Requirements)
    (gpu : Gpu) where
  gpu_pipeline_create-IsBalanced :
      (shader : Shader) (mesh_layout : ℕ) (s : Vulkan)
      → IsBalanced gpu_pipeline_destroy s
          (gpu_pipeline_create driver requirements gpu shader mesh_layout s)
  unfolding gpu_pipeline_create
  gpu_pipeline_create-IsBalanced shader mesh_layout s =
      finish-IsBalanced driver good s held_pipeline gpu_pipeline_destroy
        (gpu_pipeline_destroy-Restored s) _
        (heap_alloc-Ends driver good s held_pipeline _ _ _ s _ (nothing-Owns s _ (λ o. omega arith))
          (λ h o ne. omega arith)
          (λ h1 s1 ne1 own1.
            create_into-Ends driver good s held_pipeline _ pipeline_layout _ _ _ s1 _ own1
              (λ h o. omega arith)
              (λ h2 s2 own2.
                create_into_last driver good s held_pipeline pipeline _ _ _ s2 own2
                  (λ h o. omega arith))))

  gpu_shader_create-IsBalanced :
      (info : ShaderInfo) (s : Vulkan)
      → IsBalanced gpu_shader_destroy s (gpu_shader_create driver requirements gpu info s)
  unfolding gpu_shader_create
  gpu_shader_create-IsBalanced info s =
      finish-IsBalanced driver good s held_shader gpu_shader_destroy (gpu_shader_destroy-Restored s)
        _
        (heap_alloc-Ends driver good s held_shader _ _ _ s _ (nothing-Owns s _ (λ o. omega arith))
          (λ h o ne. omega arith)
          (λ h1 s1 ne1 own1.
            create_into-Ends driver good s held_shader _ shader_module _ _ _ s1 _ own1
              (λ h o. omega arith)
              (λ h2 s2 own2.
                create_into-Ends driver good s held_shader _ shader_module _ _ _ s2 _ own2
                  (λ h o. omega arith)
                  (λ h3 s3 own3.
                    create_into_last driver good s held_shader descriptor_set_layout _ _ _ s3 own3
                      (λ h o. omega arith)))))

  gpu_descriptor_create-IsBalanced :
      (shader : Shader) (uniform_buffers : List UniformBuffer) (s : Vulkan)
      → IsBalanced gpu_descriptor_destroy s
          (gpu_descriptor_create driver requirements gpu shader uniform_buffers s)
  unfolding gpu_descriptor_create
  gpu_descriptor_create-IsBalanced shader uniform_buffers s =
      finish-IsBalanced driver good s held_descriptor gpu_descriptor_destroy
        (gpu_descriptor_destroy-Restored s) _
        (heap_alloc-Ends driver good s held_descriptor _ _ _ s _
          (nothing-Owns s _ (λ o. omega arith)) (λ h o ne. omega arith)
          (λ h1 s1 ne1 own1.
            create_into-Ends driver good s held_descriptor _ descriptor_set _ _ _ s1 _ own1
              (λ h o. omega arith) (λ h2 s2 own2. own2)))

  update-Owns :
      (before : Vulkan) (owned : Object → ℕ) (u : UniformBuffer) (bytes : List ℕ) (s : Vulkan)
      → Owns before owned s
      → Owns before owned (gpu_uniform_buffer_update driver requirements gpu u bytes s)
  unfolding gpu_uniform_buffer_update check_call
  update-Owns before owned u bytes s own =
      elim (Bool-cases
        (driver.call_result s.calls map_memory (u.memory ∷ length bytes ∷ []) == 0)) [
          | inl mapped ↦
              rw (gpu_uniform_buffer_update, check_call, mapped)
                (record { counted = own.counted; faultless = own.faultless })
          | inr refused ↦
              rw (gpu_uniform_buffer_update, check_call, refused)
                (record { counted = own.counted; faultless = own.faultless })
        ]

  gpu_uniform_buffer_create-IsBalanced :
      (bytes : List ℕ) (s : Vulkan)
      → IsBalanced gpu_uniform_buffer_destroy s
          (gpu_uniform_buffer_create driver requirements gpu bytes s)
  unfolding gpu_uniform_buffer_create described
  gpu_uniform_buffer_create-IsBalanced bytes s =
      finish-IsBalanced driver good s held_uniform gpu_uniform_buffer_destroy
        (gpu_uniform_buffer_destroy-Restored s) _
        (heap_alloc-Ends driver good s held_uniform _ _ _ s _ (nothing-Owns s _ (λ o. omega arith))
          (λ h o ne. omega arith)
          (λ h1 s1 ne1 own1.
            create_into-Ends driver good s held_uniform _ buffer _ _ _ s1 _ own1
              (λ h o. omega arith)
              (λ h2 s2 own2.
                create_into-Ends driver good s held_uniform _ device_memory _ _ _ s2 _ own2
                  (λ h o. omega arith)
                  (λ h3 s3 own3.
                    check_call-Ends driver good s held_uniform _ bind_memory _ _ s3 _ own3
                      (λ s4 own4.
                        update-Owns s _
                          (record {
                            address = h1;
                            handle = h2;
                            memory = h3;
                            descriptor_buffer = h2;
                            range = length bytes;
                          })
                          bytes s4 own4)))))

  -- What a block of `gpu_mesh_create` needs and leaves.
  vertices-Ends :
      (before : Vulkan) (bytes : List ℕ) (m : Mesh) (s : Vulkan)
      → m.vertex_buffer ≡ 0
      → m.vertex_memory ≡ 0
      → Owns before (held_mesh m) s
      → Ends driver good before held_mesh
          (λ p.
            (p.0.index_buffer ≡ m.index_buffer)
            × (p.0.index_memory ≡ m.index_memory)
            × Owns before (held_mesh p.0) p.1)
          (fill_vertices driver requirements gpu bytes (m, s))
  unfolding fill_vertices
  vertices-Ends before bytes m s no_buffer no_memory own =
      create_into-Ends driver good before held_mesh _ buffer _ _ m s _ own
        (λ h o. omega (arith, ap (λ (i : ℕ). has buffer i o) no_buffer))
        (λ h1 s1 own1.
          create_into-Ends driver good before held_mesh _ device_memory _ _ _ s1 _ own1
            (λ h o. omega (arith, ap (λ (i : ℕ). has device_memory i o) no_memory))
            (λ h2 s2 own2.
              check_call-Ends driver good before held_mesh _ map_memory _ _ s2 _ own2 (λ s3 own3.
                check_call_last driver good before held_mesh _ bind_memory _ _ _
                  (record { counted = own3.counted; faultless = own3.faultless })
                  (λ s4 own4. (refl, refl, own4)))))

  indices-Ends :
      (before : Vulkan) (bytes : List ℕ) (m : Mesh) (s : Vulkan)
      → m.index_buffer ≡ 0
      → m.index_memory ≡ 0
      → Owns before (held_mesh m) s
      → Ends driver good before held_mesh
          (λ p. Owns before (held_mesh p.0) p.1)
          (fill_indices driver requirements gpu bytes (m, s))
  unfolding fill_indices
  indices-Ends before bytes m s no_buffer no_memory own =
      create_into-Ends driver good before held_mesh _ buffer _ _ m s _ own
        (λ h o. omega (arith, ap (λ (i : ℕ). has buffer i o) no_buffer))
        (λ h1 s1 own1.
          create_into-Ends driver good before held_mesh _ device_memory _ _ _ s1 _ own1
            (λ h o. omega (arith, ap (λ (i : ℕ). has device_memory i o) no_memory))
            (λ h2 s2 own2.
              check_call-Ends driver good before held_mesh _ map_memory _ _ s2 _ own2 (λ s3 own3.
                check_call_last driver good before held_mesh _ bind_memory _ _ _
                  (record { counted = own3.counted; faultless = own3.faultless })
                  (λ s4 own4. own4))))

  gpu_mesh_create-IsBalanced :
      (info : MeshInfo) (s : Vulkan)
      → IsBalanced gpu_mesh_destroy s (gpu_mesh_create driver requirements gpu info s)
  unfolding gpu_mesh_create
  gpu_mesh_create-IsBalanced info s =
      finish-IsBalanced driver good s held_mesh gpu_mesh_destroy (gpu_mesh_destroy-Restored s) _ (
        heap_alloc-Ends driver good s held_mesh _ _ _ s _ (nothing-Owns s _ (λ o. omega arith))
          (λ h o ne. omega arith)
          (λ h1 s1 ne1 own1.
            Ends-bind driver good s held_mesh _ _
              (fill_vertices driver requirements gpu info.vertex_data _) _
              (vertices-Ends s info.vertex_data _ s1 refl refl own1)
              (λ m s2 (no_buffer, no_memory, own2).
                indices-Ends s info.index_data m s2 no_buffer no_memory own2)))

  -- Each of the five creations of the renderer, however Vulkan answers: one that fails has destroyed
  -- all that it had created, and what one that succeeds has created is what its destruction destroys.
  -- Neither destroys what is not live.
  pub creations-IsBalanced :
      (mesh : MeshInfo) (shader_info : ShaderInfo) (shader : Shader) (mesh_layout : ℕ)
      (bytes : List ℕ) (uniform_buffers : List UniformBuffer) (s : Vulkan)
      → IsBalanced gpu_mesh_destroy s (gpu_mesh_create driver requirements gpu mesh s)
        × IsBalanced gpu_shader_destroy s (gpu_shader_create driver requirements gpu shader_info s)
        × IsBalanced gpu_pipeline_destroy s
            (gpu_pipeline_create driver requirements gpu shader mesh_layout s)
        × IsBalanced gpu_uniform_buffer_destroy s
            (gpu_uniform_buffer_create driver requirements gpu bytes s)
        × IsBalanced gpu_descriptor_destroy s
            (gpu_descriptor_create driver requirements gpu shader uniform_buffers s)
  creations-IsBalanced mesh shader_info shader mesh_layout bytes uniform_buffers s = (
    gpu_mesh_create-IsBalanced mesh s,
    gpu_shader_create-IsBalanced shader_info s,
    gpu_pipeline_create-IsBalanced shader mesh_layout s,
    gpu_uniform_buffer_create-IsBalanced bytes s,
    gpu_descriptor_create-IsBalanced shader uniform_buffers s,
  )
