-- ===== src/Base/Bits.antt =====
-- Facts about `&` at variables, from the recursion on digits that the native operation stands for.
use Prim.Native.Nat.{
  ℕ, zero, suc, ◌+◌, ◌-◌, ◌*◌, ◌/◌, ◌%◌, ◌^◌, ◌≤◌, ◌<◌, min, bit_and, digits, bit_and-bitwise,
}
use mathlib.Core.Path.{◌≡◌, refl, ap}
use native.Mathlib.Nat.{pow-suc}
use native.Mathlib.Omega.{arith}

-- Digits beyond those of the first number do not count, whatever is done with the rest.
module _ (last : ℕ → ℕ) (digit : ℕ → ℕ → ℕ) where
  digits_enough : (n m a b : ℕ) → a ≤ n → a ≤ m → digits last digit n a b ≡ digits last digit m a b
  digits_enough zero zero a b p q = refl
  digits_enough zero (suc m) zero b p q = refl
  digits_enough (suc n) zero zero b p q = refl
  digits_enough (suc n) (suc m) zero b p q = refl
  digits_enough (suc n) (suc m) (suc a) b p q =
      ap (λ r. r * 2 + digit (suc a % 2) (b % 2))
        (digits_enough n m (suc a / 2) (b / 2) (omega arith) (omega arith))
  digits_enough zero m (suc a) b p q = absurd (omega arith)
  digits_enough (suc n) zero (suc a) b p q = absurd (omega arith)

zero-bit_and : (b : ℕ) → bit_and 0 b ≡ 0
zero-bit_and b = bit_and-bitwise 0 b

-- The lowest digit of `a & b`, and the rest.
pub bit_and_halves : (a b : ℕ) → bit_and a b ≡ bit_and (a / 2) (b / 2) * 2 + min (a % 2) (b % 2)
bit_and_halves zero b = omega (arith, zero-bit_and b, zero-bit_and (b / 2))
bit_and_halves (suc a) b =
    let half : ℕ = suc a / 2 in
    omega (
      arith,
      bit_and-bitwise (suc a) b,
      bit_and-bitwise half (b / 2),
      digits_enough (λ _. zero) min a half half (b / 2) (omega arith) (omega arith),
    )

pub pow-pos : (n : ℕ) → 0 < 2 ^ n
pow-pos zero = omega arith
pow-pos (suc n) = omega (arith, pow-suc 2 n, pow-pos n)

-- A mask of ones keeps a number that fits it.
pub bit_and_ones : (w x : ℕ) → x < 2 ^ w → bit_and x (2 ^ w - 1) ≡ x
bit_and_ones zero zero h = zero-bit_and (2 ^ 0 - 1)
bit_and_ones zero (suc x) h = absurd (omega arith)
bit_and_ones (suc w) x h = omega (
  arith,
  bit_and_halves x (2 ^ suc w - 1),
  ap (bit_and (x / 2)) half,
  bit_and_ones w (x / 2) (omega (arith, pow-suc 2 w)),
  pow-suc 2 w,
  pow-pos w,
)
  where
    half : (2 ^ suc w - 1) / 2 ≡ 2 ^ w - 1
    half = omega (arith, pow-suc 2 w, pow-pos w)

-- The highest multiple of `2 ^ k` that is not above `x`.
pub record IsFloor (k x r : ℕ) : Type 0 where
  pub quotient : ℕ
  pub multiple : r ≡ quotient * 2 ^ k
  pub lower : r ≤ x
  pub upper : x < r + 2 ^ k

IsFloor-double :
    (k w x : ℕ)
    → IsFloor k (x / 2) (bit_and (x / 2) (2 ^ w - 2 ^ k))
    → IsFloor (suc k) x (bit_and x (2 ^ suc w - 2 ^ suc k))
IsFloor-double k w x f = record {
  quotient = f.quotient;
  multiple = omega (arith, whole, f.multiple, ap (λ t. f.quotient * t) (pow-suc 2 k));
  lower = omega (arith, whole, f.lower);
  upper = omega (arith, whole, f.upper, pow-suc 2 k);
}
  where
    half : (2 ^ suc w - 2 ^ suc k) / 2 ≡ 2 ^ w - 2 ^ k
    half = omega (arith, pow-suc 2 w, pow-suc 2 k)

    whole : bit_and x (2 ^ suc w - 2 ^ suc k) ≡ bit_and (x / 2) (2 ^ w - 2 ^ k) * 2
    whole = omega (
      arith,
      bit_and_halves x (2 ^ suc w - 2 ^ suc k),
      ap (bit_and (x / 2)) half,
      pow-suc 2 w,
      pow-suc 2 k,
    )

-- A mask that is 0 in the lowest `k` places and 1 in the rest rounds down to a multiple of `2 ^ k`.
pub bit_and_high : (k w x : ℕ) → k ≤ w → x < 2 ^ w → IsFloor k x (bit_and x (2 ^ w - 2 ^ k))
bit_and_high zero w x le h = record {
  quotient = x;
  multiple = omega (arith, bit_and_ones w x h);
  lower = omega (arith, bit_and_ones w x h);
  upper = omega (arith, bit_and_ones w x h);
}
bit_and_high (suc k) zero x le h = absurd (omega arith)
bit_and_high (suc k) (suc w) x le h =
    IsFloor-double k w x (bit_and_high k w (x / 2) (omega arith) (omega (arith, pow-suc 2 w)))
