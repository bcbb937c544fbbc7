-- ===== src/Base/Sums.antt =====
-- Sums over an array, and what writing one of its entries does to them.
use Prim.Native.Nat.{ℕ, zero, suc, ◌+◌, ◌≤◌, ◌<◌}
use mathlib.Core.Path.{◌≡◌, refl, ap}
use mathlib.Core.Logic.{inl, inr}
use mathlib.Core.Bool.{false}
use native.Mathlib.Omega.{arith}
use evil_engine.Base.Tests.{◌==◌, Bool-cases}
use evil_engine.Base.Loops.{update}

unfoldable pub sum_below : {A : Type 0} → (A → ℕ) → ℕ → (ℕ → A) → ℕ
sum_below f zero a = 0
sum_below f (suc n) a = f (a n) + sum_below f n a

sum_below-beyond :
    {A : Type 0} (f : A → ℕ) (n k : ℕ) (a : ℕ → A) (v : A)
    → n ≤ k
    → sum_below f n (update a k v) ≡ sum_below f n a
unfolding sum_below
sum_below-beyond f zero k a v h = refl
sum_below-beyond f (suc n) k a v h =
    let other : (k == n) ≡ false = ground arith in
    rw (other) (ap (λ (w : ℕ). f (a n) + w) (sum_below-beyond f n k a v (omega arith)))

pub sum_below-update :
    {A : Type 0} (f : A → ℕ) (n k : ℕ) (a : ℕ → A) (v : A)
    → k < n
    → sum_below f n (update a k v) + f (a k) ≡ sum_below f n a + f v
unfolding sum_below
sum_below-update f zero k a v h = absurd (omega arith)
sum_below-update f (suc n) k a v h = elim (Bool-cases (k == n)) [
  | inl same ↦
      let e : k ≡ n = ground arith in
      let w : f (a k) ≡ f (a n) = ap (λ (i : ℕ). f (a i)) e in
      rw (same) (omega (arith, w, sum_below-beyond f n k a v (omega arith)))
  | inr other ↦
      let small : k < n = ground arith in
      rw (other) (omega (arith, sum_below-update f n k a v small))
]

pub le-sum_below :
    {A : Type 0} (f : A → ℕ) (n k : ℕ) (a : ℕ → A) → k < n → f (a k) ≤ sum_below f n a
unfolding sum_below
le-sum_below f zero k a h = absurd (omega arith)
le-sum_below f (suc n) k a h = elim (Bool-cases (k == n)) [
  | inl same ↦ let e : k ≡ n = ground arith in omega (arith, ap (λ (i : ℕ). f (a i)) e)
  | inr other ↦ let small : k < n = ground arith in omega (arith, le-sum_below f n k a small)
]
