-- ===== src/Render/Stale.antt =====
-- The loops of `destroy_stale_data` of src/render.c, which put the last entry in a stale one's place.
use evil_engine.Base.{
  ℕ, zero, suc, ◌+◌, ◌-◌, ◌≤◌, ◌<◌, ◌≡◌, refl, arith, ◌∙◌, Bool, true, false, if◌then◌else◌, update,
  inl, inr, Bool-cases, ltb, ◌==◌,
}
use evil_engine.Render.{Table, destroy_loop}

-- The entries in use that are not stale.
unfoldable pub count_live : {A : Type 0} → (A → Bool) → (ℕ → A) → ℕ → ℕ
count_live stale slots zero = 0
count_live stale slots (suc n) =
    if stale (slots n) then count_live stale slots n else count_live stale slots n + 1

-- What a sweep has made of the table `t`.
pub record Swept {A : Type 0} (stale : A → Bool) (t u : Table A) : Type 0 where
  pub fewer : u.count ≤ t.count
  pub none_stale : (j : ℕ) → j < u.count → stale (u.slots j) ≡ false
  pub from_before : (j : ℕ) → j < t.count → (i : ℕ) × (i < t.count) × (u.slots j ≡ t.slots i)
  pub beyond : (j : ℕ) → t.count ≤ j → u.slots j ≡ t.slots j
  pub kept :
      (i : ℕ)
      → i < t.count
      → stale (t.slots i) ≡ false
      → (j : ℕ) × (j < u.count) × (u.slots j ≡ t.slots i)

-- The last entry put in the place of entry `i`.
abbrev without : {A : Type 0} → Table A → ℕ → Table A
without t i = record { count = t.count - 1; slots = update t.slots i (t.slots (t.count - 1)) }

slot_of :
    {A : Type 0} (t : Table A) (i j : ℕ)
    → j < t.count
    → (x : ℕ) × (x < t.count) × ((without t i).slots j ≡ t.slots x)
slot_of t i j h = elim (Bool-cases (i == j)) [
  | inl same ↦ (t.count - 1, omega arith, rw (same) refl)
  | inr other ↦ (j, h, rw (other) refl)
]

moved :
    {A : Type 0} (t : Table A) (i k : ℕ)
    → i < t.count
    → k < t.count
    → (i == k) ≡ false
    → (x : ℕ) × (x < t.count - 1) × ((without t i).slots x ≡ t.slots k)
moved t i k lt h other = elim (Bool-cases (k == t.count - 1)) [
  | inl last ↦ (
    i,
    ground arith,
    let e : k ≡ t.count - 1 = ground arith in
        let s : (i == i) ≡ true = ground arith in rw (s, e) refl,
  )
  | inr inner ↦ (k, ground arith, rw (other) refl)
]

differ :
    {A : Type 0} (stale : A → Bool) (slots : ℕ → A) (i k : ℕ)
    → stale (slots i) ≡ true
    → stale (slots k) ≡ false
    → (i == k) ≡ false
differ stale slots i k h live = ground arith

-- A stale entry replaced by the last one.
Swept-from :
    {A : Type 0} (stale : A → Bool) (t u : Table A) (i : ℕ)
    → i < t.count
    → stale (t.slots i) ≡ true
    → Swept stale (without t i) u
    → Swept stale t u
Swept-from stale t u i lt is_stale s = record {
  fewer = omega (arith, s.fewer);
  none_stale = s.none_stale;
  from_before = λ j h. elim (Bool-cases (ltb j (t.count - 1))) [
    | inl inner ↦
        let (x, p, e) = s.from_before j (ground arith) in
        let (y, q, e') = slot_of t i x (omega arith) in (y, q, e ∙ e')
    | inr last ↦ let (y, q, e) = slot_of t i j h in (y, q, s.beyond j (ground arith) ∙ e)
  ];
  beyond = λ j h.
      let other : (i == j) ≡ false = ground arith in s.beyond j (omega arith) ∙ rw (other) refl;
  kept = λ k h live.
      let other : (i == k) ≡ false = differ stale t.slots i k is_stale live in
      let (x, p, e) = moved t i k lt h other in
      let (y, q, e') = s.kept x p (rw (e) live) in (y, q, e' ∙ e);
}

module _ {A W : Type 0} (stale : A → Bool) (destroy : A → W → W) where
  still_live :
      (i : ℕ) (t : Table A)
      → ((j : ℕ) → suc i ≤ j → j < t.count → stale (t.slots j) ≡ false)
      → (j : ℕ) → i ≤ j
      → j < t.count - 1
      → stale ((without t i).slots j) ≡ false
  still_live i t done j p q = elim (Bool-cases (i == j)) [
    | inl same ↦ rw (same) (done (t.count - 1) (ground arith) (omega arith))
    | inr other ↦ rw (other) (done j (ground arith) (omega arith))
  ]

  -- The loop with the entries from `i` on swept already.
  sweep :
      (i : ℕ) (t : Table A) (w : W)
      → i ≤ t.count
      → ((j : ℕ) → i ≤ j → j < t.count → stale (t.slots j) ≡ false)
      → Swept stale t (destroy_loop stale destroy i (t, w)).0
  unfolding destroy_loop
  sweep zero t w le done = record {
    fewer = omega arith;
    none_stale = λ j h. done j (omega arith) h;
    from_before = λ j h. (j, h, refl);
    beyond = λ j h. refl;
    kept = λ i h live. (i, h, refl);
  }
  sweep (suc i) t w le done = elim (Bool-cases (stale (t.slots i))) [
    | inl is_stale ↦
        let t' = without t i in
        rw (destroy_loop, is_stale)
          (Swept-from stale t _ i le is_stale
            (sweep i t' (destroy (t.slots i) w) (omega arith) (still_live i t done)))
    | inr is_live ↦
        rw (destroy_loop, is_live)
          (sweep i t w (omega arith) (λ j p q. elim (Bool-cases (i == j)) [
            | inl same ↦ ground arith
            | inr other ↦ done j (ground arith) q
          ]))
  ]

  -- One loop of `destroy_stale_data` leaves in use exactly the entries that are not stale: each of
  -- them is still in the table, none in use is stale, every slot that was in use holds an entry from
  -- before, and the slots behind are untouched.
  pub destroy_loop-Swept :
      (t : Table A) (w : W) → Swept stale t (destroy_loop stale destroy t.count (t, w)).0
  destroy_loop-Swept t w = sweep t.count t w (omega arith) (λ j p q. absurd (omega arith))

  -- A write at or above the range.
  count_live-update :
      (slots : ℕ → A) (i n : ℕ) (v : A)
      → n ≤ i
      → count_live stale (update slots i v) n ≡ count_live stale slots n
  unfolding count_live
  count_live-update slots i zero v le = refl
  count_live-update slots i (suc n) v le =
      let miss : (i == n) ≡ false = ground arith in
      rw (miss, count_live-update slots i n v (omega arith)) refl

  sweep_count :
      (i : ℕ) (t : Table A) (w : W)
      → i ≤ t.count
      → (destroy_loop stale destroy i (t, w)).0.count ≡ count_live stale t.slots i + (t.count - i)
  unfolding destroy_loop count_live
  sweep_count zero t w le = omega arith
  sweep_count (suc i) t w le = elim (Bool-cases (stale (t.slots i))) [
    | inl is_stale ↦
        let rest = sweep_count i (without t i) (destroy (t.slots i) w) (omega arith) in
        let same = count_live-update t.slots i i (t.slots (t.count - 1)) (omega arith) in
        rw (destroy_loop, is_stale) (rest ∙ rw (same) (omega arith))
    | inr is_live ↦ rw (destroy_loop, is_live) (sweep_count i t w (omega arith) ∙ omega arith)
  ]

  -- No entry is lost or kept twice: a loop of `destroy_stale_data` leaves as many entries as were not
  -- stale.
  pub destroy_loop-count :
      (t : Table A) (w : W)
      → (destroy_loop stale destroy t.count (t, w)).0.count ≡ count_live stale t.slots t.count
  destroy_loop-count t w = sweep_count t.count t w (omega arith) ∙ omega arith
