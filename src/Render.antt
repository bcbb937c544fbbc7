-- ===== src/Render.antt =====
-- src/render.c: the tables of shaders, meshes and instances that the render thread keeps on the GPU.
-- The GPU of src/gpu.h is an interface over a world `W`; a handle is a number, with 0 for NULL, and
-- so is the address of a mesh's or a shader's description. The three tables are arrays that are not
-- cleared when the renderer is allocated. A failed assert gives none.
pub mod Stale
pub mod Meshes
mod Tests
use evil_engine.Base.{
  ℕ, zero, suc, ◌+◌, ◌-◌, Bool, true, false, ◌&&◌, not, Option, none, some, List, [], ◌∷◌, ◌++◌,
  ltb, ◌==◌, if◌then◌else◌, ◌>>=◌, CInt, add32, le_int, mod_int, update, find_first, for_loop,
}
use evil_engine.Ecs.{EntityRef}

-- The calls of src/gpu.h that the render thread makes. `U` is the contents of a uniform buffer.
pub record Gpu (W U : Type 0) : Type 0 where
  pub frame_begin : W → ℕ × W
  pub frame_end : W → W
  pub wait_until_idle : W → W
  pub shader_create : ℕ → W → ℕ × W
  pub shader_destroy : ℕ → W → W
  pub pipeline_create : (shader mesh_layout : ℕ) → W → ℕ × W
  pub pipeline_destroy : ℕ → W → W
  pub mesh_create : ℕ → W → ℕ × W
  pub mesh_destroy : ℕ → W → W
  pub mesh_layout : ℕ → ℕ
  pub uniform_buffer_create : U → W → ℕ × W
  pub uniform_buffer_update : ℕ → U → W → W
  pub uniform_buffer_destroy : ℕ → W → W
  pub descriptor_create : (shader uniform_buffer : ℕ) → W → ℕ × W
  pub descriptor_destroy : ℕ → W → W
  pub pipeline_bind : (cmdbuf pipeline : ℕ) → W → W
  pub mesh_bind : (cmdbuf mesh : ℕ) → W → W
  pub descriptor_bind : (cmdbuf descriptor : ℕ) → W → W
  pub draw : (cmdbuf : ℕ) → W → W

abbrev pub max_drawables : ℕ
max_drawables = 512

pub record ModelCommand (U : Type 0) : Type 0 where
  pub entity : EntityRef
  pub mesh : ℕ
  pub shader : ℕ
  pub uniform_buffer : U

-- What the queue carries: NULL ends the thread.
pub data Command (U : Type 0) : Type 0 where
  quit : Command U
  frame_done : Command U
  model : ModelCommand U → Command U

-- The calls that put a command behind those that wait, by what they put there.
abbrev pub render_push_model :
    {U : Type 0} → EntityRef → (mesh shader : ℕ) → U → List (Command U) → List (Command U)
render_push_model entity mesh shader uniform commands =
    commands
    ++ (model (record { entity = entity; mesh = mesh; shader = shader; uniform_buffer = uniform })
        ∷ [])

abbrev pub render_push_done : {U : Type 0} → List (Command U) → List (Command U)
render_push_done commands = commands ++ (frame_done ∷ [])

pub record DrawInstance : Type 0 where
  pub entity : EntityRef
  pub uniform_buffers : ℕ → ℕ
  pub descriptors : ℕ → ℕ
  pub frame_counter : CInt

pub record DrawMesh : Type 0 where
  pub info : ℕ
  pub mesh : ℕ
  pub frame_counter : CInt

pub record DrawShader : Type 0 where
  pub info : ℕ
  pub shader : ℕ
  pub pipeline : ℕ
  pub frame_counter : CInt

-- An array with the number of its entries in use.
pub record Table (A : Type 0) : Type 0 where
  pub count : ℕ
  pub slots : ℕ → A

pub record Render : Type 0 where
  pub frame_counter : CInt
  pub gpu_frame_count : ℕ
  pub instances : Table DrawInstance
  pub meshes : Table DrawMesh
  pub shaders : Table DrawShader

-- `render_create`, over what the allocated memory holds.
unfoldable pub render_create :
    (ℕ → DrawInstance) → (ℕ → DrawMesh) → (ℕ → DrawShader) → (gpu_frame_count : ℕ) → Render
render_create instances meshes shaders gpu_frame_count = record {
  frame_counter = 0;
  gpu_frame_count = gpu_frame_count;
  instances = record { count = 0; slots = instances };
  meshes = record { count = 0; slots = meshes };
  shaders = record { count = 0; slots = shaders };
}

-- The loop for an entry that passes the test, and the next entry of the array with `claim` written to it
-- where there is none.
unfoldable pub get_or_add : {A : Type 0} → (A → Bool) → (A → A) → Table A → Option (ℕ × Table A)
get_or_add test claim t = elim (find_first (λ i. test (t.slots i)) t.count 0) [
  | some i ↦ some (i, t)
  | none ↦
      if ltb t.count max_drawables
      then some (
        t.count,
        record { count = t.count + 1; slots = update t.slots t.count (claim (t.slots t.count)) },
      )
      else none
]

-- One of the three loops of `destroy_stale_data`, from the entry below `i` down.
unfoldable pub destroy_loop :
    {A W : Type 0} → (A → Bool) → (A → W → W) → ℕ → Table A × W → Table A × W
destroy_loop stale destroy zero s = s
destroy_loop stale destroy (suc i) (t, w) = destroy_loop stale destroy i (
    if stale (t.slots i)
    then (
      record { count = t.count - 1; slots = update t.slots i (t.slots (t.count - 1)) },
      destroy (t.slots i) w,
    )
    else (t, w))

abbrev pub same_entity : EntityRef → EntityRef → Bool
same_entity a b = (a.entity == b.entity) && (a.sequence == b.sequence)

-- `frame_counter + gpu_frame_count <= render->frame_counter`
abbrev pub is_stale : Render → CInt → Bool
is_stale r frame_counter = le_int (add32 frame_counter r.gpu_frame_count) r.frame_counter

module _ {W U : Type 0} (gpu : Gpu W U) where
  unfoldable pub create_or_get_shader :
      ModelCommand U → Render → W → Option (DrawShader × (Render × W))
  create_or_get_shader command r w =
      elim (get_or_add (λ s. s.info == command.shader) (λ s. record s { info = command.shader })
        r.shaders) [
          | none ↦ none
          | some (i, t) ↦
              let old = t.slots i in
              let made =
                if old.shader == 0 then gpu.shader_create command.shader w else (old.shader, w) in
              let piped =
                if old.pipeline == 0
                then gpu.pipeline_create made.0 (gpu.mesh_layout command.mesh) made.1
                else (old.pipeline, made.1) in
              let entry : DrawShader = record {
                info = old.info;
                shader = made.0;
                pipeline = piped.0;
                frame_counter = r.frame_counter;
              } in
              some (
                entry,
                (record r { shaders = record t { slots = update t.slots i entry } }, piped.1),
              )
        ]

  -- The part behind the search: the mesh is sent to the GPU if the entry has none.
  unfoldable pub ready_mesh :
      ModelCommand U → Render → W → ℕ × Table DrawMesh → DrawMesh × (Render × W)
  ready_mesh command r w (i, t) =
      let old = t.slots i in
      let made = if old.mesh == 0 then gpu.mesh_create command.mesh w else (old.mesh, w) in
      let entry : DrawMesh = record {
        info = old.info;
        mesh = made.0;
        frame_counter = r.frame_counter;
      } in
      (entry, (record r { meshes = record t { slots = update t.slots i entry } }, made.1))

  unfoldable pub create_or_get_mesh : ModelCommand U → Render → W → Option (DrawMesh × (Render × W))
  create_or_get_mesh command r w = do
    found ←
        get_or_add (λ m. m.info == command.mesh) (λ m. record m { info = command.mesh }) r.meshes
    some (ready_mesh command r w found)

  -- The loop over the frames for an instance that is new.
  abbrev pub create_buffers :
      ModelCommand U → (shader gpu_frame_count : ℕ) → DrawInstance × W → DrawInstance × W
  create_buffers command shader frames = for_loop frames 0 (λ f s.
      let buffer = gpu.uniform_buffer_create command.uniform_buffer s.1 in
      let descriptor = gpu.descriptor_create shader buffer.0 buffer.1 in
      (
        record s.0 {
          uniform_buffers = update s.0.uniform_buffers f buffer.0;
          descriptors = update s.0.descriptors f descriptor.0;
        },
        descriptor.1,
      ))

  unfoldable pub create_or_get_instance :
      ModelCommand U → (shader : ℕ) → Render → W → Option (DrawInstance × (Render × W))
  create_or_get_instance command shader r w =
      elim (get_or_add (λ e. same_entity e.entity command.entity)
        (λ e. record e { entity = command.entity }) r.instances) [
          | none ↦ none
          | some (i, t) ↦
              let is_new = not (t.count == r.instances.count) in
              let made =
                if is_new
                then create_buffers command shader r.gpu_frame_count (t.slots i, w)
                else (t.slots i, w) in
              let frame_index = mod_int r.frame_counter r.gpu_frame_count in
              let w' =
                gpu.uniform_buffer_update (made.0.uniform_buffers frame_index)
                  command.uniform_buffer made.1 in
              let entry = record made.0 { frame_counter = r.frame_counter } in
              some
                (entry, (record r { instances = record t { slots = update t.slots i entry } }, w'))
        ]

  abbrev pub destroy_instance : (gpu_frame_count : ℕ) → DrawInstance → W → W
  destroy_instance frames e = for_loop frames 0 (λ f w.
      gpu.uniform_buffer_destroy (e.uniform_buffers f) (gpu.descriptor_destroy (e.descriptors f) w))

  unfoldable pub destroy_stale_data : Render → W → Render × W
  destroy_stale_data r w =
      let instances =
        destroy_loop (λ e. is_stale r e.frame_counter) (destroy_instance r.gpu_frame_count)
          r.instances.count (r.instances, w) in
      let meshes =
        destroy_loop (λ m. is_stale r m.frame_counter) (λ m. gpu.mesh_destroy m.mesh) r.meshes.count
          (r.meshes, instances.1) in
      let shaders =
        destroy_loop (λ s. is_stale r s.frame_counter)
          (λ s w'. gpu.shader_destroy s.shader (gpu.pipeline_destroy s.pipeline w')) r.shaders.count
          (r.shaders, meshes.1) in
      (record r { instances = instances.0; meshes = meshes.0; shaders = shaders.0 }, shaders.1)

  -- What the loop of `render_thread_func` keeps besides the renderer. NULL is 0.
  pub record Locals : Type 0 where
    pub cmdbuf : ℕ
    pub last_pipeline : ℕ
    pub last_mesh : ℕ
    pub frame_index : CInt

  abbrev pub Running : Type 0
  Running = Locals × (Render × W)

  -- `destroy_stale_data`, `++render->frame_counter` and the new frame index.
  abbrev pub end_frame : Render → W → Running
  end_frame r w =
      let swept = destroy_stale_data r w in
      let next = add32 swept.0.frame_counter 1 in
      (
        record {
          cmdbuf = 0;
          last_pipeline = 0;
          last_mesh = 0;
          frame_index = mod_int next swept.0.gpu_frame_count;
        },
        (record swept.0 { frame_counter = next }, swept.1),
      )

  abbrev pub draw_model : Locals → DrawShader → DrawMesh → DrawInstance → Render → W → Running
  draw_model l shader mesh instance r w =
      let w1 =
        if l.last_pipeline == shader.pipeline
        then w
        else gpu.pipeline_bind l.cmdbuf shader.pipeline w in
      let w2 = if l.last_mesh == mesh.mesh then w1 else gpu.mesh_bind l.cmdbuf mesh.mesh w1 in
      let w3 = gpu.descriptor_bind l.cmdbuf (instance.descriptors l.frame_index) w2 in
      (
        record l { last_pipeline = shader.pipeline; last_mesh = mesh.mesh },
        (r, gpu.draw l.cmdbuf w3),
      )

  -- `if (!cmdbuf) cmdbuf = gpu_frame_begin(render->gpu)`
  abbrev pub begin_frame : Locals → W → Locals × W
  begin_frame l w =
      if l.cmdbuf == 0
      then (record l { cmdbuf = (gpu.frame_begin w).0 }, (gpu.frame_begin w).1)
      else (l, w)

  -- The thread after it got a command that is not NULL.
  unfoldable pub render_command : Command U → Running → Option Running
  render_command quit s = some s
  render_command frame_done (l, (r, w)) = some (end_frame r (gpu.frame_end (begin_frame l w).1))
  render_command (model command) (l, (r, w)) =
      let begun = begin_frame l w in
      do
        s ← create_or_get_shader command r begun.1
        m ← create_or_get_mesh command s.1.0 s.1.1
        e ← create_or_get_instance command s.0.shader m.1.0 m.1.1
        some (draw_model begun.0 s.0 m.0 e.0 e.1.0 e.1.1)

  -- What the thread does when it is told to end.
  unfoldable pub render_finish : Render → W → Render × W
  render_finish r w =
      let idle = gpu.wait_until_idle w in
      let counter = add32 r.frame_counter (add32 r.gpu_frame_count 1) in
      destroy_stale_data (record r { frame_counter = counter }) idle

  -- `render_thread_func` over the commands in the order of the queue.
  unfoldable pub render_thread : List (Command U) → Running → Option (Render × W)
  render_thread [] (l, (r, w)) = none
  render_thread (quit ∷ cs) (l, (r, w)) = some (render_finish r w)
  render_thread (frame_done ∷ cs) s = do next ← render_command frame_done s; render_thread cs next
  render_thread (model c ∷ cs) s = do next ← render_command (model c) s; render_thread cs next
