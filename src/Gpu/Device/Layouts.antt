-- ===== src/Gpu/Device/Layouts.antt =====
-- The layouts of meshes that gpu_create in src/gpu.c makes last.
use mathlib.Core.Path.{subst}
use evil_engine.Base.{
  ℕ, ◌+◌, ◌<◌, ◌≡◌, refl, sym, ap, ◌∙◌, arith, Bool, false, ◌==◌, if◌then◌else◌, update,
}
use evil_engine.Gpu.{Object, Driver, Vulkan, Gpu, MeshLayout, memory_block}
use evil_engine.Gpu.Owns.{
  has, Owns, regroup, IsDriver, Ends, Ends-bind, heap_alloc-Ends, Ends-weaken,
}
use evil_engine.Gpu.Objects.{Requirements}
use evil_engine.Gpu.Device.{Machine, create_layout, create_mesh_layouts}
use evil_engine.Gpu.Device.Held.{held_layout, held_gpu}
use evil_engine.Gpu.Device.Arrays.{set_layout-held}
use evil_engine.Gpu.Device.Open.{NoLayout, NoLayouts, Stage}

module _ (driver : Driver) (good : IsDriver driver) (requirements : ℕ → Requirements)
    (machine : Machine) (before : Vulkan) where
  create_layout-Ends :
      (k size : ℕ) (g : Gpu) (s : Vulkan)
      → k < 2
      → NoLayout (g.layouts k)
      → Owns before (held_gpu g) s
      → Ends driver good before held_gpu
          (Stage driver good requirements machine before
            (λ x. (j : ℕ) → ((k == j) ≡ false) → x.layouts j ≡ g.layouts j))
          (create_layout driver requirements machine k size (g, s))
  unfolding create_layout
  create_layout-Ends k size g s small (no_binding, no_attributes) own =
      let Good =
        Stage driver good requirements machine before
          (λ x. (j : ℕ) → ((k == j) ≡ false) → x.layouts j ≡ g.layouts j) in
      let old : (o : Object) → held_layout (g.layouts k) o ≡ 0 = λ o.
        ap
          (λ (b : Bool).
            if b
            then 0
            else has memory_block (g.layouts k).vertex_binding o
              + has memory_block (g.layouts k).vertex_attributes o)
          (ap (λ (i : ℕ). i == 0) no_binding) in
      heap_alloc-Ends driver good before held_gpu Good _ g s _ own
        (λ h o not_null.
          set_layout-held g k (record (g.layouts k) { vertex_binding = h }) (has memory_block h)
            small
            (λ o'.
              let new =
                ap
                  (λ (b : Bool).
                    if b
                    then 0
                    else has memory_block h o'
                      + has memory_block (g.layouts k).vertex_attributes o')
                  not_null in
              omega (arith, old o', new, ap (λ (i : ℕ). has memory_block i o') no_attributes))
            o)
        (λ h1 s1 not_null own1.
          let l1 : MeshLayout = record (g.layouts k) { vertex_binding = h1 } in
          let g1 : Gpu = record g { layouts = update g.layouts k l1 } in
          let at1 : g1.layouts k ≡ l1 = ground arith in
          let l : MeshLayout = g1.layouts k in
          let filled : (l.vertex_binding == 0) ≡ false =
            ap (λ (x : MeshLayout). x.vertex_binding == 0) at1 ∙ not_null in
          let empty : l.vertex_attributes ≡ 0 =
            ap (λ (x : MeshLayout). x.vertex_attributes) at1 ∙ no_attributes in
          heap_alloc-Ends driver good before held_gpu Good _ g1 s1 _ own1
            (λ h o not_null2.
              set_layout-held g1 k (record l { vertex_attributes = h }) (has memory_block h) small
                (λ o'.
                  let one =
                    ap
                      (λ (b : Bool).
                        if b
                        then 0
                        else has memory_block l.vertex_binding o'
                          + has memory_block l.vertex_attributes o')
                      filled in
                  let both =
                    ap
                      (λ (b : Bool).
                        if b
                        then 0
                        else has memory_block l.vertex_binding o' + has memory_block h o')
                      filled in
                  omega (arith, one, both, ap (λ (i : ℕ). has memory_block i o') empty))
                o)
            (λ h2 s2 not_null2 own2.
              let g2 : Gpu = record g1 {
                layouts = update g1.layouts k (record l { vertex_attributes = h2 });
              } in
              let l3 : MeshLayout = record (g2.layouts k) {
                mesh_index_size = 2;
                mesh_vertex_size = size;
              } in
              (
                λ j other. rw (other) refl,
                regroup _ own2 (λ o.
                    let e = set_layout-held g2 k l3 (λ o'. 0) small (λ o'. omega arith) o in
                    omega (arith, e)),
              )))

  pub create_mesh_layouts-Ends :
      (g : Gpu) (s : Vulkan)
      → NoLayouts g
      → Owns before (held_gpu g) s
      → Ends driver good before held_gpu
          (λ p. Owns before (held_gpu p.0) p.1)
          (create_mesh_layouts driver requirements machine (g, s))
  unfolding create_mesh_layouts
  create_mesh_layouts-Ends g s (no_first, no_second) own =
      let Owned = λ (p : Gpu × Vulkan). Owns before (held_gpu p.0) p.1 in
      Ends-bind driver good before held_gpu _ Owned
        (create_layout driver requirements machine 0 12 (g, s)) _
        (create_layout-Ends 0 12 g s (omega arith) no_first own)
        (λ g1 s1 (same, own1).
          Ends-weaken driver good before held_gpu _ Owned
            (create_layout driver requirements machine 1 24 (g1, s1)) (λ x t (same', owns). owns)
            (create_layout-Ends 1 24 g1 s1 (omega arith)
              (subst (λ l. NoLayout l) (sym (same 1 refl)) no_second) own1))
