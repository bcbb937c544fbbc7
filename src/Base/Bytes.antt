-- ===== src/Base/Bytes.antt =====
-- Sequences of bytes: the four bytes of an `int`, and `memcpy` between a sequence and an array.
use Prim.Native.Nat.{ℕ, zero, suc, ◌+◌, ◌*◌, ◌/◌, ◌%◌, ◌^◌, ◌<◌}
use mathlib.Core.Path.{◌≡◌, refl, ap}
use mathlib.Core.Option.{Option, none, some}
use mathlib.Core.List.{List, [], ◌∷◌, ◌++◌}
use native.Mathlib.Omega.{arith}
use evil_engine.Base.Lists.{length}
use evil_engine.Base.Loops.{update}

-- An `int` in memory, the lowest byte first.
abbrev pub int_bytes : ℕ → List ℕ
int_bytes n = n % 256 ∷ n / 256 % 256 ∷ n / 65536 % 256 ∷ n / 16777216 % 256 ∷ []

-- An `int` off the front, `none` where fewer than four bytes are left.
unfoldable pub read_int : List ℕ → Option (ℕ × List ℕ)
read_int (a ∷ b ∷ c ∷ d ∷ rest) = some (a + 256 * b + 65536 * c + 16777216 * d, rest)
read_int bytes = none

-- The first `n` bytes and the others, `none` where there are fewer.
unfoldable pub split_bytes : ℕ → List ℕ → Option (List ℕ × List ℕ)
split_bytes zero bytes = some ([], bytes)
split_bytes (suc n) [] = none
split_bytes (suc n) (b ∷ bytes) = elim (split_bytes n bytes) [
  | none ↦ none
  | some (front, back) ↦ some (b ∷ front, back)
]

-- The `n` bytes of an array from `a` on.
unfoldable pub bytes_at : (ℕ → ℕ) → ℕ → ℕ → List ℕ
bytes_at memory a zero = []
bytes_at memory a (suc n) = memory a ∷ bytes_at memory (a + 1) n

-- The array with the bytes written from `a` on.
unfoldable pub put_bytes : (ℕ → ℕ) → ℕ → List ℕ → ℕ → ℕ
put_bytes memory a [] = memory
put_bytes memory a (b ∷ bytes) = put_bytes (update memory a b) (a + 1) bytes

pub read_int-int_bytes :
    (n : ℕ) (rest : List ℕ) → n < 2 ^ 32 → read_int (int_bytes n ++ rest) ≡ some (n, rest)
unfolding read_int
read_int-int_bytes n rest h =
    let e : n % 256
          + 256 * (n / 256 % 256)
          + 65536 * (n / 65536 % 256)
          + 16777216 * (n / 16777216 % 256)
        ≡ n =
      omega arith in
    ap (λ (m : ℕ). some (m, rest)) e

pub split_bytes-append :
    (front back : List ℕ) → split_bytes (length front) (front ++ back) ≡ some (front, back)
unfolding split_bytes
split_bytes-append [] back = refl
split_bytes-append (b ∷ front) back = rw (split_bytes, split_bytes-append front back)

-- With the length as another number.
pub split_bytes_exact :
    (n : ℕ) (front back : List ℕ)
    → length front ≡ n
    → split_bytes n (front ++ back) ≡ some (front, back)
split_bytes_exact n front back h = rw (← h) (split_bytes-append front back)

pub length-bytes_at : (memory : ℕ → ℕ) (a n : ℕ) → length (bytes_at memory a n) ≡ n
unfolding bytes_at
length-bytes_at memory a zero = refl
length-bytes_at memory a (suc n) = ap suc (length-bytes_at memory (a + 1) n)
