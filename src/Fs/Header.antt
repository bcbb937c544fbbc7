-- ===== src/Fs/Header.antt =====
-- The header of a compressed file of src/fs.c: the two sizes as ten decimal digits each.
use native.Mathlib.Nat.{pow-suc}
use evil_engine.Base.{
  ℕ, zero, suc, ◌+◌, ◌*◌, ◌/◌, ◌%◌, ◌^◌, ◌≤◌, ◌<◌, ◌≡◌, ◌⊎◌, inl, inr, refl, arith, ◌∙◌, ap, add32,
  sub32, div_int, update,
}
use evil_engine.Fs.{Bytes, Digits, digit_char, write_digits, write_header, read_digits}

-- A round of `write_digits`.
abbrev next : ℕ → Digits → Digits
next i s = record {
  bytes =
      update (update s.bytes i (digit_char s.compressed_size)) (i + 11)
        (digit_char s.decompressed_size);
  compressed_size = div_int s.compressed_size 10;
  decompressed_size = div_int s.decompressed_size 10;
}

-- `n` rounds write below `n`, and from 11 to `n + 11`.
write_digits-outside :
    (n p : ℕ) (s : Digits)
    → n ≤ p
    → (p < 11) ⊎ (n + 11 ≤ p)
    → (write_digits n s).bytes p ≡ s.bytes p
unfolding write_digits
write_digits-outside zero p s h o = refl
write_digits-outside (suc n) p s h o =
    ground (arith, write_digits-outside n p (next n s) (omega arith) (ground arith))

-- The last digit is read last.
read_digits-snoc :
    (n i : ℕ) (bytes : Bytes) (start acc : ℕ)
    → read_digits (suc n) i bytes start acc
      ≡ add32 (read_digits n i bytes start acc * 10 % 2 ^ 32) (sub32 (bytes (i + n + start)) b'0')
unfolding read_digits
read_digits-snoc zero i bytes start acc =
    ap (λ (p : ℕ). add32 (acc * 10 % 2 ^ 32) (sub32 (bytes (p + start)) b'0')) (omega arith)
read_digits-snoc (suc n) i bytes start acc =
    read_digits-snoc n (i + 1) bytes start _
    ∙ ap
        (λ (p : ℕ).
          add32
            (read_digits n (i + 1) bytes start
                (add32 (acc * 10 % 2 ^ 32) (sub32 (bytes (i + start)) b'0'))
              * 10
              % 2 ^ 32)
            (sub32 (bytes (p + start)) b'0'))
        (omega arith)

digit_back :
    (c q b : ℕ)
    → c < 2 ^ 31
    → q ≡ c / 10
    → b ≡ digit_char c
    → add32 (q * 10 % 2 ^ 32) (sub32 b b'0') ≡ c
digit_back c q b h e f = ground arith

read_digits-compressed :
    (n : ℕ) (s : Digits)
    → n ≤ 10
    → s.compressed_size < 2 ^ 31
    → s.compressed_size < 10 ^ n
    → read_digits n 0 (write_digits n s).bytes 0 0 ≡ s.compressed_size
unfolding write_digits read_digits
read_digits-compressed zero s le small h = omega arith
read_digits-compressed (suc n) s le small h =
    read_digits-snoc n 0 _ 0 0
    ∙ digit_back s.compressed_size _ _ small
        (read_digits-compressed n (next n s) (omega arith) (ground arith)
            (ground (arith, pow-suc 10 n))
          ∙ ground arith)
        (ap (write_digits n (next n s)).bytes (omega arith)
          ∙ write_digits-outside n n (next n s) (omega arith) (inl (omega arith))
          ∙ ground arith)

read_digits-decompressed :
    (n : ℕ) (s : Digits)
    → n ≤ 10
    → s.decompressed_size < 2 ^ 31
    → s.decompressed_size < 10 ^ n
    → read_digits n 0 (write_digits n s).bytes 11 0 ≡ s.decompressed_size
unfolding write_digits read_digits
read_digits-decompressed zero s le small h = omega arith
read_digits-decompressed (suc n) s le small h =
    read_digits-snoc n 0 _ 11 0
    ∙ digit_back s.decompressed_size _ _ small
        (read_digits-decompressed n (next n s) (omega arith) (ground arith)
            (ground (arith, pow-suc 10 n))
          ∙ ground arith)
        (ap (write_digits n (next n s)).bytes (omega arith)
          ∙ write_digits-outside n (n + 11) (next n s) (omega arith) (inr (omega arith))
          ∙ ground arith)

-- Only the bytes in range count.
read_digits-cong :
    (n i : ℕ) (bytes bytes' : Bytes) (start acc : ℕ)
    → ((p : ℕ) → i + start ≤ p → p < i + start + n → bytes p ≡ bytes' p)
    → read_digits n i bytes start acc ≡ read_digits n i bytes' start acc
unfolding read_digits
read_digits-cong zero i bytes bytes' start acc h = refl
read_digits-cong (suc n) i bytes bytes' start acc h =
    read_digits-cong n (i + 1) bytes bytes' start _ (λ p lo hi. h p (omega arith) (omega arith))
    ∙ ap (λ (b : ℕ). read_digits n (i + 1) bytes' start (add32 (acc * 10 % 2 ^ 32) (sub32 b b'0')))
        (h (i + start) (omega arith) (omega arith))

-- The two sizes of a header are read back as they were written, from any buffer that has the 22 bytes
-- of the header; what stood behind the header stays.
pub header_round_trip :
    (c d : ℕ) (bytes file : Bytes)
    → c < 2 ^ 31
    → d < 2 ^ 31
    → ((p : ℕ) → p < 22 → file p ≡ write_header c d bytes p)
    → (read_digits 10 0 file 0 0 ≡ c)
      × (read_digits 10 0 file 11 0 ≡ d)
      × ((p : ℕ) → 22 ≤ p → write_header c d bytes p ≡ bytes p)
unfolding write_header
header_round_trip c d bytes file hc hd same = (
  read_digits-cong 10 0 file (write_digits 10 s).bytes 0 0
        (λ p lo hi. same p (omega arith) ∙ ground arith)
      ∙ read_digits-compressed 10 s (omega arith) hc (omega arith),
  read_digits-cong 10 0 file (write_digits 10 s).bytes 11 0
        (λ p lo hi. same p (omega arith) ∙ ground arith)
      ∙ read_digits-decompressed 10 s (omega arith) hd (omega arith),
  λ p h. ground (arith, write_digits-outside 10 p s (omega arith) (inr (omega arith))),
)
  where
    s : Digits
    s = record { bytes = bytes; compressed_size = c; decompressed_size = d }
