-- ===== src/Ecs/Save/Sections.antt =====
-- What the writing loops of `ecs_save_game` leave in the buffer.
use evil_engine.Base.{
  ℕ, zero, suc, ◌+◌, ◌-◌, ◌*◌, ◌<◌, ◌≡◌, refl, arith, ◌∙◌, ap, leb, ltb, ◌&&◌, if◌then◌else◌,
  update, for_loop,
}
use evil_engine.Ecs.Component.{Memory}
use evil_engine.Ecs.Save.{Cursor, write_field, write_section}

-- Byte by byte, from index `i` of the source on.
copy_from :
    (n i ctr p : ℕ) (src : ℕ → ℕ) (bytes : Memory)
    → for_loop n i (λ j d. update d (j + ctr) (src j)) bytes p
      ≡ (if leb (i + ctr) p && ltb p (i + n + ctr) then src (p - ctr) else bytes p)
unfolding for_loop
copy_from zero i ctr p src bytes = ground arith
copy_from (suc n) i ctr p src bytes = ground (
  arith,
  copy_from n (i + 1) ctr p src (update bytes (i + ctr) (src i)),
  ap (λ (t : ℕ). src t) (cancel i ctr),
)
  where
    cancel : (a b : ℕ) → a + b - b ≡ a
    cancel a b = omega arith

-- A field is written at the cursor, and nothing else is.
write_field_lem :
    (n p : ℕ) (src : ℕ → ℕ) (c : Cursor)
    → (write_field n src c).bytes p
      ≡ (if leb c.ctr p && ltb p (c.ctr + n) then src (p - c.ctr) else c.bytes p)
unfolding write_field
write_field_lem n p src c = ground (arith, copy_from n 0 c.ctr p src c.bytes)

pub write_field-ctr : (n : ℕ) (src : ℕ → ℕ) (c : Cursor) → (write_field n src c).ctr ≡ c.ctr + n
unfolding write_field
write_field-ctr n src c = refl

pub write_field-at :
    (n k : ℕ) (src : ℕ → ℕ) (c : Cursor) → k < n → (write_field n src c).bytes (c.ctr + k) ≡ src k
write_field-at n k src c h =
    let e : c.ctr + k - c.ctr ≡ k = omega arith in
    ground (arith, write_field_lem n (c.ctr + k) src c, ap (λ (t : ℕ). src t) e)

pub write_field-below :
    (n p : ℕ) (src : ℕ → ℕ) (c : Cursor) → p < c.ctr → (write_field n src c).bytes p ≡ c.bytes p
write_field-below n p src c h = ground (arith, write_field_lem n p src c)

module _ (width : ℕ) (src : ℕ → ℕ → ℕ) where
  pub write_section-ctr :
      (n i : ℕ) (c : Cursor) → (write_section width src n i c).ctr ≡ c.ctr + n * width
  unfolding write_section for_loop
  write_section-ctr zero i c = omega arith
  write_section-ctr (suc n) i c = omega (
    arith,
    write_section-ctr n (i + 1) (write_field width (src i) c),
    write_field-ctr width (src i) c,
  )

  pub write_section-below :
      (n i p : ℕ) (c : Cursor) → p < c.ctr → (write_section width src n i c).bytes p ≡ c.bytes p
  unfolding write_section for_loop
  write_section-below zero i p c h = refl
  write_section-below (suc n) i p c h =
      write_section-below n (i + 1) p (write_field width (src i) c)
        (omega (arith, write_field-ctr width (src i) c))
      ∙ write_field-below width p (src i) c h

  -- Field `j` of the section holds the bytes of its source.
  pub write_section-at :
      (n i j k p : ℕ) (c : Cursor)
      → j < n
      → k < width
      → p ≡ c.ctr + (j * width + k)
      → (write_section width src n i c).bytes p ≡ src (i + j) k
  unfolding write_section for_loop
  write_section-at zero i j k p c hj hk e = absurd (omega arith)
  write_section-at (suc n) i zero k p c hj hk e =
      write_section-below n (i + 1) p (write_field width (src i) c)
        (omega (arith, write_field-ctr width (src i) c))
      ∙ ap (write_field width (src i) c).bytes place
      ∙ write_field-at width k (src i) c hk
      ∙ ap (λ (t : ℕ). src t k) index
    where
      place : p ≡ c.ctr + k
      place = omega arith

      index : i ≡ i + 0
      index = omega arith
  write_section-at (suc n) i (suc j) k p c hj hk e =
      write_section-at n (i + 1) j k p (write_field width (src i) c) (omega arith) hk
        (omega (arith, write_field-ctr width (src i) c, next))
      ∙ ap (λ (t : ℕ). src t k) index
    where
      next : suc j * width ≡ j * width + width
      next = grind arith

      index : i + 1 + j ≡ i + suc j
      index = omega arith
