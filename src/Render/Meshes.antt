-- ===== src/Render/Meshes.antt =====
-- The meshes of src/render.c from one command to the next.
use evil_engine.Base.{
  ℕ, ◌+◌, ◌≤◌, ◌<◌, ◌≡◌, refl, ap, arith, ◌∙◌, Bool, true, false, some, ◌==◌, update, inl, inr,
  Option-cases, lt→ltb, clash, find_first, find_first-some,
}
use evil_engine.Render.{
  Table, Gpu, Render, DrawMesh, ModelCommand, get_or_add, max_drawables, create_or_get_mesh,
  ready_mesh, destroy_stale_data, is_stale,
}
use evil_engine.Render.Stale.{Swept, destroy_loop-Swept}

-- A new entry takes the slot behind the last one, with what is in it.
get_or_add-miss :
    {A : Type 0} (test : A → Bool) (claim : A → A) (t : Table A)
    → t.count < max_drawables
    → ((j : ℕ) → j < t.count → test (t.slots j) ≡ false)
    → get_or_add test claim t
      ≡ some (
        t.count,
        record { count = t.count + 1; slots = update t.slots t.count (claim (t.slots t.count)) },
      )
unfolding get_or_add
get_or_add-miss test claim t room miss =
    elim (Option-cases (find_first (λ i. test (t.slots i)) t.count 0)) [
      | inl absent ↦ rw (get_or_add, absent, lt→ltb t.count max_drawables room) refl
      | inr (j, found) ↦
          let f = find_first-some (λ i. test (t.slots i)) t.count 0 found in
          let passes = f.passes in absurd (clash passes (miss j (omega (arith, f.below))))
    ]

module _ {W U : Type 0} (gpu : Gpu W U) where
  -- A slot that holds a handle keeps it for the mesh that it is given to.
  create_or_get_mesh-kept :
      (command : ModelCommand U) (r : Render) (w : W)
      → r.meshes.count < max_drawables
      → ((j : ℕ) → j < r.meshes.count → ((r.meshes.slots j).info == command.mesh) ≡ false)
      → ((r.meshes.slots r.meshes.count).mesh == 0) ≡ false
      → (s : DrawMesh × (Render × W)) × (create_or_get_mesh gpu command r w ≡ some s)
        × (s.0.info ≡ command.mesh)
        × (s.0.mesh ≡ (r.meshes.slots r.meshes.count).mesh)
        × (s.1.1 ≡ w)
  unfolding create_or_get_mesh ready_mesh
  create_or_get_mesh-kept command r w room miss full =
      let claim = λ (m : DrawMesh). record m { info = command.mesh } in
      let t = r.meshes in
      let added : Table DrawMesh = record {
        count = t.count + 1;
        slots = update t.slots t.count (claim (t.slots t.count));
      } in
      let s = ready_mesh gpu command r w (t.count, added) in
      let same : (t.count == t.count) ≡ true = ground arith in
      (
        s,
        rw (get_or_add-miss (λ m. m.info == command.mesh) claim t room miss) refl,
        rw (same) refl,
        rw (same, full) refl,
        rw (same, full) refl,
      )

  -- After a frame in which a mesh went stale, the next mesh that is not in the table is not sent to the
  -- GPU when it is first drawn: the slot that it is given holds the handle of a mesh from before, which
  -- may be destroyed or another's, and the code takes that handle for the new mesh's. The table has at
  -- most 512 entries and no handle that is NULL before, and does not have the new mesh.
  pub new_mesh-stale :
      (command : ModelCommand U) (r : Render) (w w' : W)
      → r.meshes.count ≤ max_drawables
      → ((i : ℕ) → i < r.meshes.count → ((r.meshes.slots i).mesh == 0) ≡ false)
      → (destroy_stale_data gpu r w).0.meshes.count < r.meshes.count
      → ((j : ℕ) → j < r.meshes.count → ((r.meshes.slots j).info == command.mesh) ≡ false)
      → (s : DrawMesh × (Render × W)) × (i : ℕ) × (create_or_get_mesh gpu command
            (destroy_stale_data gpu r w).0
            w'
          ≡ some s)
        × (i < r.meshes.count)
        × (s.0.info ≡ command.mesh)
        × (s.0.mesh ≡ (r.meshes.slots i).mesh)
        × (s.1.1 ≡ w')
  unfolding destroy_stale_data
  new_mesh-stale command r w w' le full fewer miss =
      let r' = (destroy_stale_data gpu r w).0 in
      let swept : Swept (λ m. is_stale r m.frame_counter) r.meshes r'.meshes =
        destroy_loop-Swept (λ m. is_stale r m.frame_counter) (λ m. gpu.mesh_destroy m.mesh) r.meshes
          _ in
      let (i, below, e) = swept.from_before r'.meshes.count fewer in
      let absent : (j : ℕ)
          → j < r'.meshes.count
          → ((r'.meshes.slots j).info == command.mesh) ≡ false =
        λ j h.
          let (k, p, e') = swept.from_before j (omega (arith, swept.fewer)) in rw (e') (miss k p) in
      let still_full : ((r'.meshes.slots r'.meshes.count).mesh == 0) ≡ false =
        rw (e) (full i below) in
      let (s, made, info, mesh, world) =
        create_or_get_mesh-kept command r' w' (omega arith) absent still_full in
      (s, i, made, below, info, mesh ∙ ap (λ (m : DrawMesh). m.mesh) e, world)
