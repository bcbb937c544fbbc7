-- ===== src/Gpu/Frames/Running.antt =====
-- What the host knows of the work that src/gpu.c gave to the queue: it may still be running until a
-- fence is waited for or the queue is idle.
use evil_engine.Base.{
  ℕ, ◌≡◌, refl, ◌∙◌, arith, Bool, true, false, ◌&&◌, ◌||◌, not, List, [], ◌∷◌, ◌==◌, inl, inr,
  Option-cases,
}
use evil_engine.Gpu.{Driver, CmdBuffer, end_command_buffer, reset_fences}
use evil_engine.Gpu.Frames.{
  Command, Host, note, end_buffer, end_render_pass, waited_fence, reset_fence, submitted,
  waited_idle, current_frame, gpu_cmd_pipeline_bind, gpu_cmd_descriptor_bind, gpu_cmd_mesh_bind,
  gpu_cmd_draw, on_current, attempt, gpu_frame_begin, acquire_image, present,
}
use evil_engine.Gpu.Frames.Order.{
  Drawing, with_pipeline, with_descriptor, with_mesh, draw, recorded, record_all, begun_frame,
}

-- What a command does to the question whether work that signals the fence may be running.
unfoldable pub may_run_after : (fence : ℕ) → Command → Bool → Bool
may_run_after fence (submitted cmd f) before = (f == fence) || before
may_run_after fence (waited_fence f) before = not (f == fence) && before
may_run_after fence waited_idle before = false
may_run_after fence c before = before

unfoldable pub may_run : (fence : ℕ) → List Command → Bool
may_run fence [] = false
may_run fence (c ∷ trace) = may_run_after fence c (may_run fence trace)

-- Work is submitted with a fence only if no other may still signal it.
unfoldable pub fences_free : List Command → Bool
fences_free [] = true
fences_free (submitted cmd f ∷ trace) = not (may_run f trace) && fences_free trace
fences_free (c ∷ trace) = fences_free trace

-- What is the same after commands that neither wait nor submit.
pub record Quiet (trace trace' : List Command) : Type 0 where
  pub running : (fence : ℕ) → may_run fence trace' ≡ may_run fence trace
  pub free : fences_free trace' ≡ fences_free trace

Quiet-refl : (t : List Command) → Quiet t t
Quiet-refl t = record { running = λ f. refl; free = refl }

pub Quiet-trans : {a b c : List Command} → Quiet a b → Quiet b c → Quiet a c
Quiet-trans p q = record { running = λ f. q.running f ∙ p.running f; free = q.free ∙ p.free }

recorded-Quiet :
    (d : Drawing) (cmd : CmdBuffer) (trace : List Command) → Quiet trace (recorded d cmd trace).1
unfolding gpu_cmd_pipeline_bind gpu_cmd_descriptor_bind gpu_cmd_mesh_bind gpu_cmd_draw may_run
    fences_free may_run_after
recorded-Quiet (with_pipeline p) cmd trace = record { running = λ f. refl; free = refl }
recorded-Quiet (with_descriptor d) cmd trace = record { running = λ f. refl; free = refl }
recorded-Quiet (with_mesh m) cmd trace = record { running = λ f. ground arith; free = ground arith }
recorded-Quiet draw cmd trace = record { running = λ f. ground arith; free = ground arith }

record_all-Quiet :
    (drawings : List Drawing) (host : Host) → Quiet host.trace (record_all drawings host).trace
unfolding record_all
record_all-Quiet [] host = Quiet-refl host.trace
record_all-Quiet (d ∷ drawings) host =
    Quiet-trans (recorded-Quiet d (current_frame host.gpu).cmd host.trace)
      (record_all-Quiet drawings (on_current (recorded d) host))

module _ (driver : Driver) (acquired : (call : ℕ) → ℕ) where
  pub begin-Quiet : (host : Host) → Quiet host.trace (gpu_frame_begin driver acquired host).1.trace
  unfolding gpu_frame_begin may_run fences_free may_run_after
  begin-Quiet host = record { running = λ f. ground arith; free = ground arith }

  pub acquire_image-Quiet :
      (host : Host) → Quiet host.trace (acquire_image driver acquired host).1.trace
  unfolding acquire_image may_run fences_free may_run_after
  acquire_image-Quiet host = record { running = λ f. ground arith; free = ground arith }

  pub present-Quiet :
      (i : ℕ) (host : Host) → Quiet host.trace (present driver acquired i host).trace
  unfolding present may_run fences_free may_run_after
  present-Quiet i host = record { running = λ f. ground arith; free = ground arith }

  pub begun_frame-Quiet :
      (drawings : List Drawing) (host : Host)
      → Quiet host.trace (begun_frame driver acquired drawings host).trace
  unfolding begun_frame
  begun_frame-Quiet drawings host = elim (Option-cases (gpu_frame_begin driver acquired host).0) [
    | inl null ↦ rw (begun_frame, null) (begin-Quiet host)
    | inr (cmd_buffer, begun) ↦
        rw (begun_frame, begun)
          (Quiet-trans (begin-Quiet host)
            (record_all-Quiet drawings (gpu_frame_begin driver acquired host).1))
  ]

  pub ended-Quiet :
      (cmd : ℕ) (host : Host)
      → Quiet host.trace
          (attempt driver acquired end_command_buffer
            (cmd ∷ [])
            (end_buffer cmd)
            (note (end_render_pass cmd) host)).trace
  unfolding may_run fences_free may_run_after
  ended-Quiet cmd host = record { running = λ f. ground arith; free = ground arith }

  pub reset-Quiet :
      (f : ℕ) (host : Host)
      → Quiet host.trace (attempt driver acquired reset_fences (f ∷ []) (reset_fence f) host).trace
  unfolding may_run fences_free may_run_after
  reset-Quiet f host = record { running = λ g. ground arith; free = ground arith }
