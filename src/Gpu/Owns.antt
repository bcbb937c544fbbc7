-- ===== src/Gpu/Owns.antt =====
-- What an object of src/gpu.c owns: the handles that it would destroy.
use mathlib.Core.Path.{subst}
use evil_engine.Base.{
  ℕ, zero, suc, ◌+◌, ◌≤◌, ◌<◌, ◌≡◌, refl, ap, ◌∙◌, arith, Bool, true, false, Option, none, some,
  List, [], ◌==◌, if◌then◌else◌, inl, inr, Bool-cases,
}
use evil_engine.Gpu.{
  Kind, Object, same_object, Call, Driver, Vulkan, one_if, destroy, destroy_if, Try, going, failed,
  each, ◌>>=◌, finish, created, create_into, check_call, heap_alloc, memory_block,
}

-- How often an object is owned through one handle.
abbrev pub has : Kind → ℕ → Object → ℕ
has k h o = if h == 0 then 0 else one_if (same_object o (record { kind = k; handle = h }))

-- What is live is what was live in `before`, and what is owned. Nothing was destroyed that was not
-- live.
pub record Owns (before : Vulkan) (owned : Object → ℕ) (s : Vulkan) : Type 0 where
  pub counted : (o : Object) → s.live o ≡ before.live o + owned o
  pub faultless : s.faults ≡ before.faults

pub regroup :
    {before : Vulkan} {owned : Object → ℕ} {s : Vulkan} (owned' : Object → ℕ)
    → Owns before owned s
    → ((o : Object) → owned o ≡ owned' o)
    → Owns before owned' s
regroup {before} owned' own same = record {
  counted = λ o. own.counted o ∙ ap (λ n. before.live o + n) (same o);
  faultless = own.faultless;
}

same_object_refl : (o : Object) → same_object o o ≡ true
same_object_refl o = ground arith

-- Destroying a handle gives up what is owned through it.
pub destroy_if-Owns :
    {before : Vulkan} {s : Vulkan} (k : Kind) (h : ℕ) (rest : Object → ℕ)
    → Owns before (λ o. has k h o + rest o) s
    → Owns before rest (destroy_if k h s)
unfolding destroy_if destroy
destroy_if-Owns {before} {s} k h rest own = elim (Bool-cases (h == 0)) [
  | inl null ↦ rw (null) (
      regroup rest own (λ o.
        let e : has k h o ≡ 0 = ap (λ (b : Bool). if b then 0 else mark o) null in
        omega (arith, e)))
  | inr handle ↦
      let counted : (o : Object) → s.live o ≡ before.live o + (mark o + rest o) = λ o.
        own.counted o
        ∙ ap (λ (b : Bool). before.live o + ((if b then 0 else mark o) + rest o)) handle in
      let self : mark x ≡ 1 = ap one_if (same_object_refl x) in
      let live : (s.live x == 0) ≡ false = ground (arith, counted x, self) in
      rw (handle, live)
        (record { counted = λ o. omega (arith, counted o); faultless = own.faultless })
]
  where
    x : Object
    x = record { kind = k; handle = h }

    mark : Object → ℕ
    mark o = one_if (same_object o x)

-- A handle of Vulkan or of the heap that exists is not null.
pub record IsDriver (driver : Driver) : Type 0 where
  pub not_null :
      (n : ℕ) (k : Kind) (arguments : List ℕ) → (driver.new_handle n k arguments == 0) ≡ false

>>=-going : {S : Type 0} (t : Try S) → (t >>= going) ≡ t
>>=-going (going s) = refl
>>=-going (failed s) = refl

-- Code that builds an object `x` which owns `held x`: where it jumps to its clean-up, all that is live
-- more than before is owned, and where it goes on, `Good` holds.
module _ {X : Type 0} (driver : Driver) (good_driver : IsDriver driver) (before : Vulkan)
    (held : X → Object → ℕ) where
  abbrev pub Ends : (X × Vulkan → Type 0) → Try (X × Vulkan) → Type 0
  Ends Good (going p) = Good p
  Ends Good (failed (x, s)) = Owns before (held x) s

  created-Owns :
      (k : Kind) (arguments : List ℕ) (x : X) (s : Vulkan)
      → Owns before (held x) s
      → Owns before
          (λ o. held x o + has k (driver.new_handle s.calls k arguments) o)
          (created driver k arguments s)
  created-Owns k arguments x s own =
      let some_handle = good_driver.not_null s.calls k arguments in
      record {
        counted = λ o.
            let mark = one_if (
              same_object o
                (record { kind = k; handle = driver.new_handle s.calls k arguments })) in
            let e : has k (driver.new_handle s.calls k arguments) o ≡ mark =
              ap (λ (b : Bool). if b then 0 else mark) some_handle in
            omega (arith, own.counted o, e);
        faultless = own.faultless;
      }

  pub create_into-Ends :
      (Good : X × Vulkan → Type 0) (k : Kind) (arguments : List ℕ) (set : ℕ → X → X) (x : X)
      (s : Vulkan) (f : X × Vulkan → Try (X × Vulkan))
      → Owns before (held x) s
      → ((h : ℕ) (o : Object) → held x o + has k h o ≡ held (set h x) o)
      → ((h : ℕ) (s' : Vulkan) → Owns before (held (set h x)) s' → Ends Good (f (set h x, s')))
      → Ends Good (create_into driver k arguments set (x, s) >>= f)
  unfolding create_into
  create_into-Ends Good k arguments set x s f own adds next =
      elim (Bool-cases (driver.create_result s.calls k arguments == 0)) [
        | inr refused ↦ rw (refused) (record { counted = own.counted; faultless = own.faultless })
        | inl done ↦
            let h = driver.new_handle s.calls k arguments in
            rw (done) (
              next h (created driver k arguments s)
                (regroup (held (set h x)) (created-Owns k arguments x s own) (adds h)))
      ]

  pub heap_alloc-Ends :
      (Good : X × Vulkan → Type 0) (set : ℕ → X → X) (x : X) (s : Vulkan)
      (f : X × Vulkan → Try (X × Vulkan))
      → Owns before (held x) s
      → ((h : ℕ) (o : Object)
          → (h == 0) ≡ false
          → held x o + has memory_block h o ≡ held (set h x) o)
      → ((h : ℕ) (s' : Vulkan)
          → (h == 0) ≡ false
          → Owns before (held (set h x)) s'
          → Ends Good (f (set h x, s')))
      → Ends Good (heap_alloc driver set (x, s) >>= f)
  unfolding heap_alloc
  heap_alloc-Ends Good set x s f own adds next =
      let h = driver.new_handle s.calls memory_block [] in
      let not_null : (h == 0) ≡ false = good_driver.not_null s.calls memory_block [] in
      next h (created driver memory_block [] s) not_null
        (regroup (held (set h x)) (created-Owns memory_block [] x s own) (λ o. adds h o not_null))

  pub check_call-Ends :
      (Good : X × Vulkan → Type 0) (c : Call) (arguments : List ℕ) (x : X) (s : Vulkan)
      (f : X × Vulkan → Try (X × Vulkan))
      → Owns before (held x) s
      → ((s' : Vulkan) → Owns before (held x) s' → Ends Good (f (x, s')))
      → Ends Good (check_call driver c arguments (x, s) >>= f)
  unfolding check_call
  check_call-Ends Good c arguments x s f own next =
      let after : Vulkan = record s { calls = s.calls + 1 } in
      let owns : Owns before (held x) after = record {
        counted = own.counted;
        faultless = own.faultless;
      } in
      elim (Bool-cases (driver.call_result s.calls c arguments == 0)) [
        | inr refused ↦ rw (refused) owns
        | inl done ↦ rw (done) (next after owns)
      ]

  -- The last step of such code.
  pub create_into_Good :
      (Good : X × Vulkan → Type 0) (k : Kind) (arguments : List ℕ) (set : ℕ → X → X) (x : X)
      (s : Vulkan)
      → Owns before (held x) s
      → ((h : ℕ) (o : Object) → held x o + has k h o ≡ held (set h x) o)
      → ((h : ℕ) (s' : Vulkan) → Owns before (held (set h x)) s' → Good (set h x, s'))
      → Ends Good (create_into driver k arguments set (x, s))
  create_into_Good Good k arguments set x s own adds next =
      subst (Ends Good) (>>=-going (create_into driver k arguments set (x, s)))
        (create_into-Ends Good k arguments set x s going own adds next)

  pub create_into_last :
      (k : Kind) (arguments : List ℕ) (set : ℕ → X → X) (x : X) (s : Vulkan)
      → Owns before (held x) s
      → ((h : ℕ) (o : Object) → held x o + has k h o ≡ held (set h x) o)
      → Ends (λ p. Owns before (held p.0) p.1) (create_into driver k arguments set (x, s))
  create_into_last k arguments set x s own adds =
      create_into_Good (λ p. Owns before (held p.0) p.1) k arguments set x s own adds
        (λ h s' owns. owns)

  pub check_call_last :
      (Good : X × Vulkan → Type 0) (c : Call) (arguments : List ℕ) (x : X) (s : Vulkan)
      → Owns before (held x) s
      → ((s' : Vulkan) → Owns before (held x) s' → Good (x, s'))
      → Ends Good (check_call driver c arguments (x, s))
  check_call_last Good c arguments x s own next =
      subst (Ends Good) (>>=-going (check_call driver c arguments (x, s)))
        (check_call-Ends Good c arguments x s going own next)

  -- Code behind code.
  pub Ends-bind :
      (P Good : X × Vulkan → Type 0) (t : Try (X × Vulkan)) (f : X × Vulkan → Try (X × Vulkan))
      → Ends P t
      → ((x : X) (s : Vulkan) → P (x, s) → Ends Good (f (x, s)))
      → Ends Good (t >>= f)
  Ends-bind P Good (going (x, s)) f ends next = next x s ends
  Ends-bind P Good (failed (x, s)) f ends next = ends

  pub Ends-weaken :
      (P Good : X × Vulkan → Type 0) (t : Try (X × Vulkan))
      → ((x : X) (s : Vulkan) → P (x, s) → Good (x, s))
      → Ends P t
      → Ends Good t
  Ends-weaken P Good (going (x, s)) implies ends = implies x s ends
  Ends-weaken P Good (failed (x, s)) implies ends = ends

  -- A loop, by an invariant of the index.
  pub each-Ends :
      (I : ℕ → X × Vulkan → Type 0) (body : ℕ → X × Vulkan → Try (X × Vulkan)) (n i : ℕ)
      → ((k : ℕ) (x : X) (s : Vulkan)
          → i ≤ k
          → k < i + n
          → I k (x, s)
          → Ends (I (k + 1)) (body k (x, s)))
      → (x : X) (s : Vulkan) → I i (x, s)
      → Ends (I (i + n)) (each body n i (x, s))
  unfolding each
  each-Ends I body zero i keeps x s start =
      let same : i ≡ i + 0 = omega arith in subst (λ m. I m (x, s)) same start
  each-Ends I body (suc n) i keeps x s start =
      let same : i + 1 + n ≡ i + suc n = omega arith in
      Ends-bind (I (i + 1)) (I (i + suc n)) (body i (x, s)) _
        (keeps i x s (omega arith) (omega arith) start)
        (λ x' s' now.
          subst (λ m. Ends (I m) (each body n (i + 1) (x', s'))) same
            (each-Ends I body n (i + 1) (λ k y t p q. keeps k y t (omega arith) (omega arith)) x' s'
              now))

  -- A loop from 0 to `n`.
  pub loop-Ends :
      (I : ℕ → X × Vulkan → Type 0) (body : ℕ → X × Vulkan → Try (X × Vulkan)) (n m : ℕ)
      → n ≡ m
      → ((k : ℕ) (x : X) (s : Vulkan) → k < m → I k (x, s) → Ends (I (k + 1)) (body k (x, s)))
      → (x : X) (s : Vulkan) → I 0 (x, s)
      → Ends (I m) (each body n 0 (x, s))
  loop-Ends I body n m same keeps x s start =
      let all : 0 + n ≡ m = omega (arith, same) in
      subst (λ j. Ends (I j) (each body n 0 (x, s))) all
        (each-Ends I body n 0 (λ k y t above small. keeps k y t (omega (arith, all))) x s start)

-- Nothing is live that was not, and nothing else.
abbrev pub Restored : Vulkan → Vulkan → Type 0
Restored before s = Owns before (λ o. 0) s

-- A creation that fails has destroyed all that it had created, and if it succeeds the destruction
-- does; neither destroys what is not live.
abbrev pub IsBalanced : {X : Type 0} → (X → Vulkan → Vulkan) → Vulkan → Option X × Vulkan → Type 0
IsBalanced clean_up before (none, s) = Restored before s
IsBalanced clean_up before (some x, s) = Restored before (clean_up x s)

pub finish-IsBalanced :
    {X : Type 0} (driver : Driver) (good_driver : IsDriver driver) (before : Vulkan)
    (held : X → Object → ℕ) (clean_up : X → Vulkan → Vulkan)
    → ((x : X) (s : Vulkan) → Owns before (held x) s → Restored before (clean_up x s))
    → (t : Try (X × Vulkan))
    → Ends driver good_driver before held (λ p. Owns before (held p.0) p.1) t
    → IsBalanced clean_up before (finish clean_up t)
unfolding finish
finish-IsBalanced driver good before held clean_up cleans (going (x, s)) own = cleans x s own
finish-IsBalanced driver good before held clean_up cleans (failed (x, s)) own = cleans x s own

pub nothing-Owns :
    (before : Vulkan) (owned : Object → ℕ) → ((o : Object) → owned o ≡ 0) → Owns before owned before
nothing-Owns before owned none_yet = record {
  counted = λ o. omega (arith, none_yet o);
  faultless = refl;
}
