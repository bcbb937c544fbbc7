-- ===== src/Base/Loops.antt =====
-- C arrays as functions of the index, and the two shapes of `for` loop that the engine uses.
-- An index out of range is undefined behaviour in C: the function has some value there, of which
-- nothing is assumed, and the theorems say where an index is in range.
use Prim.Native.Nat.{ℕ, zero, suc, ◌+◌, ◌≤◌, ◌<◌}
use mathlib.Core.Path.{◌≡◌, refl, ◌∙◌}
use mathlib.Core.Logic.{inl, inr}
use mathlib.Core.Bool.{Bool, true, false, ◌&&◌}
use mathlib.Core.Option.{Option, none, some}
use native.Mathlib.Omega.{arith}
use evil_engine.Base.Tests.{◌==◌, leb, ltb, if◌then◌else◌, Bool-cases}

-- `a[i] = v`
abbrev pub update {ℓ} : {A : Type ℓ} → (ℕ → A) → ℕ → A → ℕ → A
update a i v j = if i == j then v else a j

-- `for (k = i; k < i + n; ++k) s = body(k, s)`, by the rounds left.
unfoldable pub for_loop {ℓ} : {S : Type ℓ} → ℕ → ℕ → (ℕ → S → S) → S → S
for_loop zero i body s = s
for_loop (suc n) i body s = for_loop n (i + 1) body (body i s)

-- `for (k = i; k < i + n; ++k) if (test(k)) { ...; break or return; }`: the index that it stops at.
unfoldable pub find_first : (ℕ → Bool) → ℕ → ℕ → Option ℕ
find_first test zero i = none
find_first test (suc n) i = let rest = find_first test n (i + 1) in if test i then some i else rest

-- What the index of such a loop satisfies.
pub record FoundAt (test : ℕ → Bool) (n i j : ℕ) : Type 0 where
  pub above : i ≤ j
  pub below : j < i + n
  pub passes : test j ≡ true
  pub earliest : (k : ℕ) → i ≤ k → k < j → test k ≡ false

pub find_first-some :
    (test : ℕ → Bool) (n i : ℕ) {j : ℕ} → find_first test n i ≡ some j → FoundAt test n i j
unfolding find_first
find_first-some test zero i h = cc
find_first-some test (suc n) i {j} h = elim (Bool-cases (test i)) [
  | inl hit ↦
      let e : i ≡ j = ground arith in
      record {
        above = omega arith;
        below = omega arith;
        passes = rw (← e) hit;
        earliest = λ k p q. absurd (omega arith);
      }
  | inr miss ↦
      let rest : FoundAt test n (i + 1) j = find_first-some test n (i + 1) (ground arith) in
      record {
        above = omega arith;
        below = omega arith;
        passes = rest.passes;
        earliest = λ k p q. elim (Bool-cases (i == k)) [
          | inl same ↦ ground arith
          | inr other ↦ rest.earliest k (ground arith) q
        ];
      }
]

pub find_first-none :
    (test : ℕ → Bool) (n i k : ℕ) → find_first test n i ≡ none → i ≤ k → k < i + n → test k ≡ false
unfolding find_first
find_first-none test zero i k h p q = absurd (omega arith)
find_first-none test (suc n) i k h p q = elim (Bool-cases (i == k)) [
  | inl same ↦ ground arith
  | inr other ↦ find_first-none test n (i + 1) k (ground arith) (ground arith) (ground arith)
]

-- The loop stops at a given index exactly when that is the first one in range that passes.
pub find_first_of_FoundAt :
    (test : ℕ → Bool) (n i j : ℕ) → FoundAt test n i j → find_first test n i ≡ some j
unfolding find_first
find_first_of_FoundAt test zero i j f = absurd (omega (arith, f.above, f.below))
find_first_of_FoundAt test (suc n) i j f = elim (Bool-cases (i == j)) [
  | inl same ↦ ground (arith, f.passes)
  | inr other ↦
      let miss : test i ≡ false = f.earliest i (omega arith) (ground (arith, f.above)) in
      let rest : FoundAt test n (i + 1) j = record {
        above = ground (arith, f.above);
        below = omega (arith, f.below);
        passes = f.passes;
        earliest = λ k p q. f.earliest k (omega arith) q;
      } in
      rw miss (find_first_of_FoundAt test n (i + 1) j rest)
]

-- A loop whose body rewrites `a[i]` from `a[i]` alone rewrites each index in range once.
pub for_loop-pointwise {ℓ} :
    {A : Type ℓ} (f : A → A) (n i : ℕ) (a : ℕ → A) (k : ℕ)
    → for_loop n i (λ j b. update b j (f (b j))) a k
      ≡ (if leb i k && ltb k (i + n) then f (a k) else a k)
unfolding for_loop
for_loop-pointwise f zero i a k = ground arith
for_loop-pointwise f (suc n) i a k =
    ground (arith, for_loop-pointwise f n (i + 1) (update a i (f (a i))) k)

-- What the body of a loop leaves alone, the loop does.
pub for_loop-same {ℓ κ} :
    {S : Type ℓ} {V : Type κ} (view : S → V) (body : ℕ → S → S)
    → ((k : ℕ) (s : S) → view (body k s) ≡ view s)
    → (n i : ℕ) (s : S) → view (for_loop n i body s) ≡ view s
unfolding for_loop
for_loop-same view body same zero i s = refl
for_loop-same view body same (suc n) i s =
    for_loop-same view body same n (i + 1) (body i s) ∙ same i s
