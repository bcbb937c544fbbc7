-- ===== src/Gpu/Frames/Order.antt =====
-- Frames one after another, as the render thread of src/render.c drives src/gpu.c: what the commands
-- of a frame leave of the device, and the frame that is next.
use native.Mathlib.Nat.{mod-lt, mod-eq_of_lt, mod-add-mod, add-zero}
use evil_engine.Base.{
  ℕ, suc, ◌+◌, ◌%◌, ◌<◌, ◌≡◌, refl, ap, ◌∙◌, sym, arith, true, Option, none, some, List, [], ◌∷◌,
  length, ◌==◌, inl, inr, Bool-cases, Option-cases,
}
use evil_engine.Gpu.{
  Call, Driver, CmdBuffer, Gpu, end_command_buffer, wait_for_fences, reset_fences, queue_submit,
}
use evil_engine.Gpu.Objects.{Pipeline, Descriptor, Mesh}
use evil_engine.Gpu.Frames.{
  Command, Host, note, current_frame, gpu_cmd_pipeline_bind, gpu_cmd_descriptor_bind,
  gpu_cmd_mesh_bind, gpu_cmd_draw, on_current, attempt, gpu_frame_begin, acquire_image, present,
  gpu_frame_end,
}

-- What is recorded in a frame.
pub data Drawing : Type 0 where
  with_pipeline : Pipeline → Drawing
  with_descriptor : Descriptor → Drawing
  with_mesh : Mesh → Drawing
  draw : Drawing

abbrev pub recorded : Drawing → CmdBuffer → List Command → CmdBuffer × List Command
recorded (with_pipeline p) = gpu_cmd_pipeline_bind p
recorded (with_descriptor d) = gpu_cmd_descriptor_bind d
recorded (with_mesh m) = gpu_cmd_mesh_bind m
recorded draw = gpu_cmd_draw

unfoldable pub record_all : List Drawing → Host → Host
record_all [] host = host
record_all (d ∷ drawings) host = record_all drawings (on_current (recorded d) host)

-- The same handles, and the same place in the ring of frames.
pub record Same (host host' : Host) : Type 0 where
  pub count : host'.gpu.frame_count ≡ host.gpu.frame_count
  pub index : host'.gpu.frame_index ≡ host.gpu.frame_index
  pub buffers : (j : ℕ) → (host'.gpu.frames j).cmd.buffer ≡ (host.gpu.frames j).cmd.buffer
  pub fences : (j : ℕ) → (host'.gpu.frames j).fence ≡ (host.gpu.frames j).fence

Same-trans : {a b c : Host} → Same a b → Same b c → Same a c
Same-trans p q = record {
  count = q.count ∙ p.count;
  index = q.index ∙ p.index;
  buffers = λ j. q.buffers j ∙ p.buffers j;
  fences = λ j. q.fences j ∙ p.fences j;
}

recorded-buffer :
    (d : Drawing) (cmd : CmdBuffer) (trace : List Command)
    → (recorded d cmd trace).0.buffer ≡ cmd.buffer
unfolding gpu_cmd_pipeline_bind gpu_cmd_descriptor_bind gpu_cmd_mesh_bind gpu_cmd_draw
recorded-buffer (with_pipeline p) cmd trace = refl
recorded-buffer (with_descriptor d) cmd trace = refl
recorded-buffer (with_mesh m) cmd trace = ground arith
recorded-buffer draw cmd trace = ground arith

on_current-Same : (d : Drawing) (host : Host) → Same host (on_current (recorded d) host)
on_current-Same d host =
    let i = host.gpu.frame_index in
    let frame = current_frame host.gpu in
    let code : CmdBuffer × List Command = recorded d frame.cmd host.trace in
    record {
      count = refl;
      index = refl;
      buffers = λ j. elim (Bool-cases (i == j)) [
        | inl here ↦
            let e : i ≡ j = ground arith in
            rw (here)
              (recorded-buffer d frame.cmd host.trace ∙ ap (λ k. (host.gpu.frames k).cmd.buffer) e)
        | inr other ↦ rw (other) refl
      ];
      fences = λ j. elim (Bool-cases (i == j)) [
        | inl here ↦
            let e : i ≡ j = ground arith in rw (here) (ap (λ k. (host.gpu.frames k).fence) e)
        | inr other ↦ rw (other) refl
      ];
    }

pub record_all-Same : (drawings : List Drawing) (host : Host) → Same host (record_all drawings host)
unfolding record_all
record_all-Same [] host = record {
  count = refl;
  index = refl;
  buffers = λ j. refl;
  fences = λ j. refl;
}
record_all-Same (d ∷ drawings) host =
    Same-trans (on_current-Same d host) (record_all-Same drawings (on_current (recorded d) host))

-- What a frame leaves: all but the place in the ring.
pub record FrameDone (host host' : Host) : Type 0 where
  pub count : host'.gpu.frame_count ≡ host.gpu.frame_count
  pub index : host'.gpu.frame_index ≡ (host.gpu.frame_index + 1) % host.gpu.frame_count
  pub buffers : (j : ℕ) → (host'.gpu.frames j).cmd.buffer ≡ (host.gpu.frames j).cmd.buffer
  pub fences : (j : ℕ) → (host'.gpu.frames j).fence ≡ (host.gpu.frames j).fence

-- Calls of this function never fail.
abbrev pub Succeeds : Driver → Call → Type 0
Succeeds driver c = (n : ℕ) (arguments : List ℕ) → (driver.call_result n c arguments == 0) ≡ true

module _ (driver : Driver) (acquired : (call : ℕ) → ℕ) where
  -- A frame up to its end, as src/render.c makes the calls: a scenario for src/gpu.c. Where the
  -- command buffer could not be begun, nothing is recorded. For a frame without drawings that is what
  -- src/render.c does. For one with drawings it would go on to record into NULL.
  unfoldable pub begun_frame : List Drawing → Host → Host
  begun_frame drawings host =
      let begun : Option ℕ × Host = gpu_frame_begin driver acquired host in
      elim begun.0 [ none ↦ begun.1 | some cmd_buffer ↦ record_all drawings begun.1 ]

  unfoldable pub run_frame : List Drawing → Host → Host
  run_frame drawings host = gpu_frame_end driver acquired (begun_frame drawings host)

  unfoldable pub run_frames : List (List Drawing) → Host → Host
  run_frames [] host = host
  run_frames (drawings ∷ frames) host = run_frames frames (run_frame drawings host)

  attempt-gpu :
      (c : Call) (arguments : List ℕ) (done : Command) (host : Host)
      → (attempt driver acquired c arguments done host).gpu ≡ host.gpu
  attempt-gpu c arguments done host =
      elim (Bool-cases (driver.call_result host.calls c arguments == 0)) [
        | inl ok ↦ rw (ok) refl
        | inr refused ↦ rw (refused) refl
      ]

  acquire_image-gpu : (host : Host) → (acquire_image driver acquired host).1.gpu ≡ host.gpu
  unfolding acquire_image
  acquire_image-gpu host = ground arith

  present-gpu : (i : ℕ) (host : Host) → (present driver acquired i host).gpu ≡ host.gpu
  unfolding present
  present-gpu i host = ground arith

  gpu_frame_begin-gpu : (host : Host) → (gpu_frame_begin driver acquired host).1.gpu ≡ host.gpu
  unfolding gpu_frame_begin
  gpu_frame_begin-gpu host = ground arith

  gpu_frame_end-gpu :
      (host : Host)
      → (gpu_frame_end driver acquired host).gpu
        ≡ record host.gpu { frame_index = (host.gpu.frame_index + 1) % host.gpu.frame_count }
  unfolding gpu_frame_end
  gpu_frame_end-gpu host =
      present-gpu _ _
      ∙ attempt-gpu queue_submit _ _ _
      ∙ attempt-gpu reset_fences _ _ _
      ∙ attempt-gpu wait_for_fences _ _ _
      ∙ acquire_image-gpu _
      ∙ attempt-gpu end_command_buffer _ _ (note _ _)

  pub begun_frame-Same :
      (drawings : List Drawing) (host : Host) → Same host (begun_frame drawings host)
  unfolding begun_frame
  begun_frame-Same drawings host = elim (Option-cases (gpu_frame_begin driver acquired host).0) [
    | inl null ↦ rw (begun_frame, null) (unchanged host)
    | inr (cmd_buffer, begun) ↦
        rw (begun_frame, begun)
          (Same-trans (unchanged host)
            (record_all-Same drawings (gpu_frame_begin driver acquired host).1))
  ]
    where
      unchanged : (h : Host) → Same h (gpu_frame_begin driver acquired h).1
      unchanged h =
          let e = gpu_frame_begin-gpu h in
          record {
            count = ap (λ (g : Gpu). g.frame_count) e;
            index = ap (λ (g : Gpu). g.frame_index) e;
            buffers = λ j. ap (λ (g : Gpu). (g.frames j).cmd.buffer) e;
            fences = λ j. ap (λ (g : Gpu). (g.frames j).fence) e;
          }

  pub run_frame-FrameDone :
      (drawings : List Drawing) (host : Host) → FrameDone host (run_frame drawings host)
  unfolding run_frame
  run_frame-FrameDone drawings host =
      let same = begun_frame-Same drawings host in
      let e = gpu_frame_end-gpu (begun_frame drawings host) in
      record {
        count = ap (λ (g : Gpu). g.frame_count) e ∙ same.count;
        index =
            ap (λ (g : Gpu). g.frame_index) e
            ∙ ap (λ i. (i + 1) % (begun_frame drawings host).gpu.frame_count) same.index
            ∙ ap (λ n. (host.gpu.frame_index + 1) % n) same.count;
        buffers = λ j. ap (λ (g : Gpu). (g.frames j).cmd.buffer) e ∙ same.buffers j;
        fences = λ j. ap (λ (g : Gpu). (g.frames j).fence) e ∙ same.fences j;
      }

  pub run_frames-fences :
      (frames : List (List Drawing)) (host : Host) (j : ℕ)
      → ((run_frames frames host).gpu.frames j).fence ≡ (host.gpu.frames j).fence
  unfolding run_frames
  run_frames-fences [] host j = refl
  run_frames-fences (drawings ∷ frames) host j =
      run_frames-fences frames (run_frame drawings host) j
      ∙ (run_frame-FrameDone drawings host).fences j

  -- Where the ring is after some frames.
  pub frame_index_lem :
      (frames : List (List Drawing)) (host : Host)
      → host.gpu.frame_index < host.gpu.frame_count
      → (run_frames frames host).gpu.frame_index
        ≡ (host.gpu.frame_index + length frames) % host.gpu.frame_count
  unfolding run_frames
  frame_index_lem [] host small =
      let n = host.gpu.frame_count in
      sym (ap (λ i. i % n) (add-zero host.gpu.frame_index) ∙ mod-eq_of_lt small)
  frame_index_lem (drawings ∷ frames) host small =
      let done = run_frame-FrameDone drawings host in
      let n = host.gpu.frame_count in
      let i = host.gpu.frame_index in
      let next : Host = run_frame drawings host in
      let positive : 0 < n = omega (arith, small) in
      let in_range : next.gpu.frame_index < next.gpu.frame_count =
        rw (done.index, done.count) (mod-lt (i + 1) positive) in
      frame_index_lem frames next in_range
      ∙ ap (λ j. (j + length frames) % next.gpu.frame_count) done.index
      ∙ ap (λ m. ((i + 1) % n + length frames) % m) done.count
      ∙ mod-add-mod (i + 1) n (length frames)
      ∙ ap (λ j. j % n) (let e : i + 1 + length frames ≡ i + suc (length frames) = omega arith in e)
