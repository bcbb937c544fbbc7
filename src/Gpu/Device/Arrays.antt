-- ===== src/Gpu/Device/Arrays.antt =====
-- What the frames of src/gpu.c own when one of them is written.
use mathlib.Core.Path.{subst}
use evil_engine.Base.{
  ℕ, zero, suc, ◌+◌, ◌≤◌, ◌<◌, ◌≡◌, refl, ap, arith, Bool, false, ◌==◌, if◌then◌else◌, inl, inr,
  Bool-cases, update, sum_below, sum_below-update,
}
use evil_engine.Gpu.{Object, Frame, Gpu, MeshLayout, memory_block}
use evil_engine.Gpu.Owns.{has}
use evil_engine.Gpu.Device.Held.{held_layout, held_frame, held_frames, held_array, held_gpu}

held_frames-sum_below :
    (n i : ℕ) (a : ℕ → Frame) (o : Object)
    → held_frames n i a o + sum_below (λ f. held_frame f o) i a
      ≡ sum_below (λ f. held_frame f o) (i + n) a
unfolding held_frames sum_below
held_frames-sum_below zero i a o =
    let same : i ≡ i + 0 = omega arith in
    omega (arith, ap (λ (m : ℕ). sum_below (λ f. held_frame f o) m a) same)
held_frames-sum_below (suc n) i a o =
    let same : i + 1 + n ≡ i + suc n = omega arith in
    let next : sum_below (λ f. held_frame f o) (i + 1) a
        ≡ held_frame (a i) o + sum_below (λ f. held_frame f o) i a =
      let one : suc i ≡ i + 1 = omega arith in
      subst
        (λ m.
          sum_below (λ f. held_frame f o) m a
          ≡ held_frame (a i) o + sum_below (λ f. held_frame f o) i a)
        one refl in
    subst
      (λ m.
        held_frames (suc n) i a o + sum_below (λ f. held_frame f o) i a
        ≡ sum_below (λ f. held_frame f o) m a)
      same (omega (arith, next, held_frames-sum_below n (i + 1) a o))

-- A frame that is written, and owns `more`.
pub set_frame-held :
    (g : Gpu) (k : ℕ) (v : Frame) (more : Object → ℕ)
    → ((g.frames_address == 0) ≡ false)
    → k < g.frame_count
    → ((o : Object) → held_frame (g.frames k) o + more o ≡ held_frame v o)
    → (o : Object) → held_gpu g o + more o ≡ held_gpu (record g { frames = update g.frames k v }) o
unfolding sum_below
set_frame-held g k v more array small adds o =
    let f = λ (x : Frame). held_frame x o in
    let a' = update g.frames k v in
    let block = has memory_block g.frames_address o in
    let old : held_array g o ≡ held_frames g.frame_count 0 g.frames o + block =
      ap (λ (b : Bool). if b then 0 else held_frames g.frame_count 0 g.frames o + block) array in
    let new : held_array (record g { frames = a' }) o ≡ held_frames g.frame_count 0 a' o + block =
      ap (λ (b : Bool). if b then 0 else held_frames g.frame_count 0 a' o + block) array in
    let old_sum : held_frames g.frame_count 0 g.frames o + 0
        ≡ sum_below f (0 + g.frame_count) g.frames =
      held_frames-sum_below g.frame_count 0 g.frames o in
    let new_sum : held_frames g.frame_count 0 a' o + 0 ≡ sum_below f (0 + g.frame_count) a' =
      held_frames-sum_below g.frame_count 0 a' o in
    let sums : sum_below f (0 + g.frame_count) a' + f (g.frames k)
        ≡ sum_below f (0 + g.frame_count) g.frames + f v =
      sum_below-update f (0 + g.frame_count) k g.frames v (omega arith) in
    omega (arith, old, new, old_sum, new_sum, sums, adds o)

-- The same of the two layouts.
pub set_layout-held :
    (g : Gpu) (k : ℕ) (v : MeshLayout) (more : Object → ℕ)
    → k < 2
    → ((o : Object) → held_layout (g.layouts k) o + more o ≡ held_layout v o)
    → (o : Object)
    → held_gpu g o + more o ≡ held_gpu (record g { layouts = update g.layouts k v }) o
set_layout-held g zero v more small adds o = omega (arith, adds o)
set_layout-held g (suc zero) v more small adds o = omega (arith, adds o)
set_layout-held g (suc (suc k)) v more small adds o = absurd (omega arith)

-- What the frames from the `i`-th on are like.
abbrev pub From : ℕ → (Frame → Type 0) → (ℕ → Frame) → Type 0
From i Q a = (j : ℕ) → i ≤ j → Q (a j)

-- Writing a frame that is like the others, one before them, and the first of them.
pub From-update :
    (Q : Frame → Type 0) (i k : ℕ) (a : ℕ → Frame) (v : Frame)
    → Q v
    → From i Q a
    → From i Q (update a k v)
From-update Q i k a v good all j above = elim (Bool-cases (k == j)) [
  | inl same ↦ rw (same) good
  | inr other ↦ rw (other) (all j above)
]

pub From-behind :
    (Q : Frame → Type 0) (i k : ℕ) (a : ℕ → Frame) (v : Frame)
    → k < i
    → From i Q a
    → From i Q (update a k v)
From-behind Q i k a v behind all j above =
    let other : (k == j) ≡ false = ground arith in rw (other) (all j above)

pub From-next :
    (Q : Frame → Type 0) (i : ℕ) (a : ℕ → Frame) (v : Frame)
    → From i Q a
    → From (i + 1) Q (update a i v)
From-next Q i a v all = From-behind Q (i + 1) i a v (omega arith) (λ j above. all j (omega arith))
