-- ===== src/Ecs/Save/Fields.antt =====
-- Reading the fields of a save file: one number, and a section of them.
use evil_engine.Base.{ℕ, zero, suc, ◌+◌, ◌*◌, ◌^◌, ◌<◌, ◌≡◌, refl, arith, ◌∙◌, ap, update}
use evil_engine.Ecs.{EntityState, unused, pending_add, active, pending_remove, state_value}
use evil_engine.Ecs.Component.{Memory}
use evil_engine.Ecs.Save.{read_le, byte_of, state_of_value}

-- The bytes of a number at `p`, lowest first.
abbrev pub Stores : Memory → ℕ → ℕ → ℕ → Type 0
Stores bytes n p v = (k q : ℕ) → k < n → q ≡ p + k → bytes q ≡ byte_of v k

pub read_le_int :
    (bytes : Memory) (p v : ℕ) → v < 2 ^ 32 → Stores bytes 4 p v → read_le bytes 4 p ≡ v
unfolding read_le
read_le_int bytes p v h st = omega (
  arith,
  st 0 p (omega arith) (omega arith),
  st 1 (p + 1) (omega arith) (omega arith),
  st 2 (p + 1 + 1) (omega arith) (omega arith),
  st 3 (p + 1 + 1 + 1) (omega arith) (omega arith),
)

pub read_le_mask :
    (bytes : Memory) (p v : ℕ) → v < 2 ^ 64 → Stores bytes 8 p v → read_le bytes 8 p ≡ v
unfolding read_le
read_le_mask bytes p v h st = omega (
  arith,
  st 0 p (omega arith) (omega arith),
  st 1 (p + 1) (omega arith) (omega arith),
  st 2 (p + 1 + 1) (omega arith) (omega arith),
  st 3 (p + 1 + 1 + 1) (omega arith) (omega arith),
  st 4 (p + 1 + 1 + 1 + 1) (omega arith) (omega arith),
  st 5 (p + 1 + 1 + 1 + 1 + 1) (omega arith) (omega arith),
  st 6 (p + 1 + 1 + 1 + 1 + 1 + 1) (omega arith) (omega arith),
  st 7 (p + 1 + 1 + 1 + 1 + 1 + 1 + 1) (omega arith) (omega arith),
)

pub state_of_value-state_value :
    (other_state : ℕ → EntityState) (s : EntityState)
    → state_of_value other_state (state_value s) ≡ s
unfolding state_of_value
state_of_value-state_value other_state unused = refl
state_of_value-state_value other_state pending_add = refl
state_of_value-state_value other_state active = refl
state_of_value-state_value other_state pending_remove = refl

-- The array that a reading loop over `n` fields of `width` bytes leaves.
module _ {A : Type 0} (width : ℕ) (field_at : ℕ → A) where
  unfoldable pub read_section : ℕ → ℕ → ℕ → (ℕ → A) → ℕ → A
  read_section zero i ctr a = a
  read_section (suc n) i ctr a = read_section n (i + 1) (ctr + width) (update a i (field_at ctr))

  read_section-before : (n i ctr v : ℕ) (a : ℕ → A) → v < i → read_section n i ctr a v ≡ a v
  unfolding read_section
  read_section-before zero i ctr v a h = refl
  read_section-before (suc n) i ctr v a h =
      ground (arith, read_section-before n (i + 1) (ctr + width) v (update a i (field_at ctr)))

  pub read_section-at :
      (n i j v ctr : ℕ) (a : ℕ → A)
      → v ≡ i + j
      → j < n
      → read_section n i ctr a v ≡ field_at (ctr + j * width)
  unfolding read_section
  read_section-at zero i j v ctr a e h = absurd (omega arith)
  read_section-at (suc n) i zero v ctr a e h =
      read_section-before n (i + 1) (ctr + width) v (update a i (field_at ctr)) (omega arith)
      ∙ ground arith
  read_section-at (suc n) i (suc j) v ctr a e h =
      read_section-at n (i + 1) j v (ctr + width) (update a i (field_at ctr)) (omega arith)
        (omega arith)
      ∙ ap field_at place
    where
      place : ctr + width + j * width ≡ ctr + suc j * width
      place = grind arith
