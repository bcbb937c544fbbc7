-- ===== src/Fs/RoundTrip.antt =====
-- A compressed write of src/fs.c followed by a compressed read.
use mathlib.Core.Path.{ap₂}
use evil_engine.Base.{
  ℕ, ◌+◌, ◌-◌, ◌%◌, ◌^◌, ◌<◌, ◌≡◌, refl, arith, ◌∙◌, ap, sym, Bool, true, false, ◌≢◌, Option, some,
  none, add32, if◌then◌else◌, CInt, update,
}
use evil_engine.Fs.{
  packed, packed_room, HasRoom, to_size, on_file_queue, Bytes, Work, signalled, file_compress,
  file_decompress, write_header, behind_header, drop_header, read_digits,
}
use evil_engine.Fs.Header.{header_round_trip}

-- What `LZ4_compress_default` and `LZ4_decompress_safe` promise of one buffer: the compressed size is
-- an `int`, and decompressing any copy of the compressed bytes gives the bytes back.
pub record RestoresBuffer (lz4_compress : Bytes → CInt → Bytes × CInt)
    (lz4_decompress : Bytes → CInt → CInt → Bytes) (source : Bytes) (size : ℕ) : Type 0 where
  pub small : (lz4_compress source size).1 < 2 ^ 31
  pub restores :
      (copy : Bytes)
      → ((k : ℕ) → k < (lz4_compress source size).1 → copy k ≡ (lz4_compress source size).0 k)
      → (k : ℕ) → k < size
      → lz4_decompress copy (lz4_compress source size).1 size k ≡ source k

behind : (bytes fresh : Bytes) (k : ℕ) → behind_header bytes fresh (k + 22) ≡ bytes k
behind bytes fresh k = ground (arith, ap bytes (cancel k))
  where
    cancel : (i : ℕ) → i + 22 - 22 ≡ i
    cancel i = omega arith

-- The 0 that ends a buffer is behind its contents.
ended :
    (terminate : Bool) (plain : Bytes) (n k : ℕ) (source : Bytes)
    → n ≢ k
    → plain k ≡ source k
    → (if terminate then update plain n 0 else plain) k ≡ source k
ended true plain n k source ne e = ground arith
ended false plain n k source ne e = e

module _ (heap_alloc : ℕ → Option Bytes) (lz4_bound : CInt → CInt)
    (lz4_compress : Bytes → CInt → Bytes × CInt)
    (lz4_decompress : Bytes → CInt → CInt → Bytes) where
  -- What `file_decompress` leaves where the heap gives it a buffer.
  Restored : (source : Bytes) (n : ℕ) (reader : Work) → Option Work → Type 0
  Restored source n reader none = ⊥
  Restored source n reader (some got) =
      (b : Bytes) × (got.buffer ≡ some b)
      × (got.size ≡ n)
      × (got.place ≡ signalled)
      × ((k : ℕ) → k < n → b k ≡ source k)
      × (reader.null_terminate ≡ true → b n ≡ 0)

  Restored-some :
      (source : Bytes) (n : ℕ) (reader : Work) (result : Option Work)
      → Restored source n reader result
      → (got : Work) × (result ≡ some got) × Restored source n reader (some got)
  unfolding Restored
  Restored-some source n reader none e = absurd e
  Restored-some source n reader (some got) e = (got, refl, e)

  -- With the size as the `int` that the header holds.
  unpack :
      (source file fresh : Bytes) (n : ℕ) (reader : Work)
      → n < 2 ^ 31
      → RestoresBuffer lz4_compress lz4_decompress source n
      → HasRoom heap_alloc
      → (let (compressed, c) = lz4_compress source n in
          (k : ℕ) → k < c + 22 → file k ≡ write_header c n (behind_header compressed fresh) k)
      → Restored source n reader
          (file_decompress heap_alloc lz4_bound lz4_compress lz4_decompress reader file)
  unfolding file_decompress Restored
  unpack source file fresh n reader small lz4 room same =
      let compressed = (lz4_compress source n).0 in
      let c = (lz4_compress source n).1 in
      let (back_c, back_n, rest) =
        header_round_trip c n (behind_header compressed fresh) file lz4.small small
          (λ p h. same p (omega arith)) in
      let copied : (k : ℕ) → k < c → drop_header file k ≡ compressed k = λ k h.
        same (k + 22) (omega arith) ∙ rest (k + 22) (omega arith) ∙ behind compressed fresh k in
      let plain : Bytes =
        lz4_decompress (drop_header file) (read_digits 10 0 file 0 0)
          (read_digits 10 0 file 11 0) in
      let plain_lem : (k : ℕ) → k < n → plain k ≡ source k = λ k h.
        ap₂ (λ (i j : ℕ). lz4_decompress (drop_header file) i j k) back_c back_n
        ∙ lz4.restores (drop_header file) copied k h in
      let size : CInt = read_digits 10 0 file 11 0 in
      let (block, given) = room (to_size (if reader.null_terminate then add32 size 1 else size)) in
      rw (given, Restored, file_decompress)
        (
          _,
          refl,
          back_n,
          refl,
          λ k h.
              ended reader.null_terminate plain _ k source (ground (arith, back_n)) (plain_lem k h),
          λ t. ground (arith, t, back_n),
        )

  packs :
      (source fresh : Bytes) (writer : Work)
      → heap_alloc (packed_room heap_alloc lz4_bound lz4_compress lz4_decompress writer.size)
        ≡ some fresh
      → let (bytes, c) =
          packed heap_alloc lz4_bound lz4_compress lz4_decompress fresh source writer.size in
        file_compress heap_alloc lz4_bound lz4_compress lz4_decompress writer source
        ≡ some (record writer { size = c + 22; buffer = some bytes; place = on_file_queue })
  unfolding file_compress
  packs source fresh writer given = rw (given, file_compress) refl

  -- As long as the heap gives no NULL: a buffer of less than 2^31 bytes is packed by `file_compress` and
  -- queued for the file thread, and if what was packed comes back from the file as it was written, it is
  -- unpacked by `file_decompress` to the same bytes and the same size, ended by 0 where the reader asks
  -- for it, and the reader is signalled, where LZ4 restores this buffer.
  pub file_decompress-file_compress :
      (source file fresh : Bytes) (writer reader : Work)
      → writer.size < 2 ^ 31
      → RestoresBuffer lz4_compress lz4_decompress source writer.size
      → HasRoom heap_alloc
      → heap_alloc (packed_room heap_alloc lz4_bound lz4_compress lz4_decompress writer.size)
        ≡ some fresh
      → let (bytes, c) =
          packed heap_alloc lz4_bound lz4_compress lz4_decompress fresh source writer.size in
        ((k : ℕ) → k < c + 22 → file k ≡ bytes k)
        → (file_compress heap_alloc lz4_bound lz4_compress lz4_decompress writer source
            ≡ some (record writer { size = c + 22; buffer = some bytes; place = on_file_queue }))
          × (got : Work) × (file_decompress heap_alloc lz4_bound lz4_compress lz4_decompress reader
                file
              ≡ some got)
          × (b : Bytes) × (got.buffer ≡ some b)
          × (got.size ≡ writer.size)
          × (got.place ≡ signalled)
          × ((k : ℕ) → k < writer.size → b k ≡ source k)
          × (reader.null_terminate ≡ true → b writer.size ≡ 0)
  unfolding packed Restored
  file_decompress-file_compress source file fresh writer reader small lz4 room given same =
      let e : writer.size % 2 ^ 32 ≡ writer.size = omega arith in
      let (got, done, restored) = Restored-some source (writer.size % 2 ^ 32) reader _ (
        unpack source file fresh (writer.size % 2 ^ 32) reader (omega arith) (rw e lz4) room
          same) in
      let (b, buf, size, place, bytes, nul) = restored in
      (
        packs source fresh writer given,
        got,
        done,
        b,
        buf,
        size ∙ e,
        place,
        λ k h. bytes k (omega arith),
        λ t. ap b (sym e) ∙ nul t,
      )
