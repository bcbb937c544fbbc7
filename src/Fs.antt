-- ===== src/Fs.antt =====
-- src/fs.c: file work on two threads, one for the files and one for compression.
-- A buffer is what it holds, by offset. The Windows calls, LZ4 and the conversion of a path are
-- parameters; a call that fails gives the code of `GetLastError`. So is the heap, which gives a buffer
-- with the contents that it happens to have, or NULL.
pub mod Header
pub mod Stages
pub mod RoundTrip
mod Tests
use evil_engine.Base.{
  ℕ, zero, suc, ◌+◌, ◌-◌, ◌*◌, ◌%◌, ◌^◌, Bool, true, false, not, ◌&&◌, Option, none, some, List,
  if◌then◌else◌, ◌==◌, ◌≡◌, ◌>>=◌, CInt, is_nonneg, minus_one, add32, sub32, div_int, mod_int,
  update, ltb,
}

abbrev pub Bytes : Type 0
Bytes = ℕ → ℕ

pub data WorkOp : Type 0 where
  read write : WorkOp

-- Where a piece of work is: on a queue, or signalled to its owner.
pub data Place : Type 0 where
  on_file_queue on_compression_queue signalled : Place

-- `fs_work_t`; `done` is its event, and the queue that it stands on is `place`.
pub record Work : Type 0 where
  pub op : WorkOp
  pub path : List ℕ
  pub null_terminate : Bool
  pub use_compression : Bool
  pub buffer : Option Bytes
  pub size : ℕ
  pub result : CInt
  pub place : Place

pub data OsCall (A : Type 0) : Type 0 where
  failed : CInt → OsCall A
  worked : A → OsCall A

-- `fs_read` and `fs_write`: the work that they queue. The memory of the record itself is given.
unfoldable pub fs_read : List ℕ → Bool → Bool → Work
fs_read path null_terminate use_compression = record {
  op = read;
  path = path;
  null_terminate = null_terminate;
  use_compression = use_compression;
  buffer = none;
  size = 0;
  result = 0;
  place = on_file_queue;
}

unfoldable pub fs_write : List ℕ → Bytes → ℕ → Bool → Work
fs_write path buffer size use_compression = record {
  op = write;
  path = path;
  null_terminate = false;
  use_compression = use_compression;
  buffer = some buffer;
  size = size;
  result = 0;
  place = if use_compression then on_compression_queue else on_file_queue;
}

-- A char of the header, and the number that a char stands for.
abbrev pub digit_char : CInt → ℕ
digit_char n = add32 b'0' (mod_int n 10) % 256

-- The state of the loop that writes the two sizes, last digit first.
pub record Digits : Type 0 where
  pub bytes : Bytes
  pub compressed_size : CInt
  pub decompressed_size : CInt

unfoldable pub write_digits : ℕ → Digits → Digits
write_digits zero s = s
write_digits (suc i) s = write_digits i (record {
  bytes =
      update (update s.bytes i (digit_char s.compressed_size)) (i + 11)
        (digit_char s.decompressed_size);
  compressed_size = div_int s.compressed_size 10;
  decompressed_size = div_int s.decompressed_size 10;
})

-- The 22 bytes in front of the compressed data.
unfoldable pub write_header : CInt → CInt → Bytes → Bytes
unfolding write_digits
write_header compressed_size decompressed_size bytes =
    let s = write_digits 10 (record {
      bytes = bytes;
      compressed_size = compressed_size;
      decompressed_size = decompressed_size;
    }) in
    update (update s.bytes 10 10) 21 10

-- One size, by the rounds left of the loop of `file_decompress`; `at` is where its digits begin. A
-- byte of a header is an ASCII char, so that `char` has no sign to extend.
unfoldable pub read_digits : ℕ → ℕ → Bytes → ℕ → CInt → CInt
read_digits zero i bytes start n = n
read_digits (suc rounds) i bytes start n =
    read_digits rounds (i + 1) bytes start
      (add32 (n * 10 % 2 ^ 32) (sub32 (bytes (i + start)) b'0'))

-- What follows the header, and a buffer with data put behind it.
abbrev pub drop_header : Bytes → Bytes
drop_header bytes p = bytes (p + 22)

abbrev pub behind_header : Bytes → Bytes → Bytes
behind_header data_bytes bytes p = if ltb p 22 then bytes p else data_bytes (p - 22)

-- An `int` as the `size_t` of an allocation.
abbrev pub to_size : CInt → ℕ
to_size n = if is_nonneg n then n else n + (2 ^ 64 - 2 ^ 32)

-- `heap_alloc` never gives NULL, which in src/heap.c it does when Windows gives no more memory.
abbrev pub HasRoom : (ℕ → Option Bytes) → Type 0
HasRoom heap_alloc = (size : ℕ) → (fresh : Bytes) × (heap_alloc size ≡ some fresh)

-- `lz4_bound size` is the most that compressing takes, `lz4_compress source size` gives the compressed
-- bytes and their number, and `lz4_decompress source compressed_size decompressed_size` fills a buffer of
-- the second size.
module _ (heap_alloc : ℕ → Option Bytes) (lz4_bound : CInt → CInt)
    (lz4_compress : Bytes → CInt → Bytes × CInt)
    (lz4_decompress : Bytes → CInt → CInt → Bytes) where
  -- What `file_compress` fills the buffer that it was given with, and its compressed size.
  unfoldable pub packed : (fresh source : Bytes) → ℕ → Bytes × CInt
  packed fresh source size =
      let (compressed, compressed_size) = lz4_compress source (size % 2 ^ 32) in
      (
        write_header compressed_size (size % 2 ^ 32) (behind_header compressed fresh),
        compressed_size,
      )

  -- The size of that buffer.
  abbrev pub packed_room : ℕ → ℕ
  packed_room size = to_size (add32 (lz4_bound (size % 2 ^ 32)) 22)

  -- `none` is a write through NULL.
  unfoldable pub file_compress : Work → Bytes → Option Work
  unfolding packed
  file_compress w source = elim (heap_alloc (packed_room w.size)) [
    | none ↦ none
    | some fresh ↦
        let (buffer', compressed_size) = packed fresh source w.size in
        some
          (record w { size = compressed_size + 22; buffer = some buffer'; place = on_file_queue })
  ]

  -- `none` is NULL given to LZ4 as the buffer to fill.
  unfoldable pub file_decompress : Work → Bytes → Option Work
  file_decompress w source =
      let compressed_size = read_digits 10 0 source 0 0 in
      let decompressed_size = read_digits 10 0 source 11 0 in
      let plain = lz4_decompress (drop_header source) compressed_size decompressed_size in
      let room = if w.null_terminate then add32 decompressed_size 1 else decompressed_size in
      elim (heap_alloc (to_size room)) [
        | none ↦ none
        | some fresh ↦ some (record w {
          buffer = some (if w.null_terminate then update plain decompressed_size 0 else plain);
          size = decompressed_size;
          place = signalled;
        })
      ]

-- The Windows calls on a disk `D` with handles `K`; `open_handles` counts handles not yet closed.
-- `read_file` gives how much was read and what the buffer then holds, and may be given NULL.
pub record Os (D K : Type 0) : Type 0 where
  pub converts : List ℕ → Bool
  pub open_existing : D → List ℕ → OsCall K
  pub get_file_size : D → K → OsCall ℕ
  pub read_file : D → K → (buffer : Option Bytes) → ℕ → OsCall (ℕ × Bytes)
  pub create_always : D → List ℕ → OsCall (K × D)
  pub write_file : D → K → Bytes → ℕ → OsCall (ℕ × D)

pub record Machine (D : Type 0) : Type 0 where
  pub disk : D
  pub open_handles : ℕ

-- `CloseHandle`, and the early returns of `file_read` and `file_write`.
abbrev pub close_handle : {D : Type 0} → Machine D → Machine D
close_handle m = record m { open_handles = m.open_handles - 1 }

abbrev pub fail_work : CInt → Work → Work
fail_work code w = record w { result = code; place = signalled }

-- The end of `file_read` with what the buffer holds after it was read into: `none` is a write of the
-- last 0 through NULL.
unfoldable pub end_read : Option Bytes → (bytes_read : ℕ) → Bytes → Work → Option Work
end_read none bytes_read bytes w =
    if w.null_terminate
    then none
    else some (record w {
      size = bytes_read;
      buffer = none;
      place = if w.use_compression then on_compression_queue else signalled;
    })
end_read (some fresh) bytes_read bytes w = some (record w {
  size = bytes_read;
  buffer = some (if w.null_terminate then update bytes bytes_read 0 else bytes);
  place = if w.use_compression then on_compression_queue else signalled;
})

module _ {D K : Type 0} (os : Os D K) (heap_alloc : ℕ → Option Bytes) where
  -- The rest of `file_read` behind a successful `CreateFile`. The size that is asked for is a DWORD.
  unfoldable pub read_opened : Machine D → K → Work → Option (Work × Machine D)
  read_opened m handle w = elim (os.get_file_size m.disk handle) [
    | failed code ↦ some (fail_work code w, close_handle m)
    | worked size ↦
        let buffer = heap_alloc (if w.null_terminate then (size + 1) % 2 ^ 64 else size) in
        elim (os.read_file m.disk handle buffer (size % 2 ^ 32)) [
          | failed code ↦
              some (fail_work code (record w { size = size; buffer = buffer }), close_handle m)
          | worked (bytes_read, bytes) ↦ do
            w' ← end_read buffer bytes_read bytes w
            some (w', close_handle m)
        ]
  ]

  unfoldable pub file_read : Machine D → Work → Option (Work × Machine D)
  file_read m w =
      if os.converts w.path
      then elim (os.open_existing m.disk w.path) [
        | failed code ↦ some (fail_work code w, m)
        | worked handle ↦ read_opened (record m { open_handles = m.open_handles + 1 }) handle w
      ]
      else some (fail_work minus_one w, m)

  -- The rest of `file_write` behind a successful `CreateFile`.
  unfoldable pub write_opened : Machine D → K → Work → Bytes → Work × Machine D
  write_opened m handle w source = elim (os.write_file m.disk handle source (w.size % 2 ^ 32)) [
    | failed code ↦ (fail_work code w, close_handle m)
    | worked (bytes_written, disk) ↦ (
      record w { size = bytes_written; place = signalled },
      close_handle (record m { disk = disk }),
    )
  ]

  unfoldable pub file_write : Machine D → Work → Bytes → Work × Machine D
  file_write m w source =
      if os.converts w.path
      then elim (os.create_always m.disk w.path) [
        | failed code ↦ (fail_work code w, m)
        | worked (handle, disk) ↦
            write_opened (record { disk = disk; open_handles = m.open_handles + 1 }) handle w source
      ]
      else (fail_work minus_one w, m)

-- What the two threads do with a piece of work that they take off their queue; work that has been
-- signalled is on none. `none` is an access through a null buffer.
module _ {D K : Type 0} (os : Os D K) (heap_alloc : ℕ → Option Bytes) (lz4_bound : CInt → CInt)
    (lz4_compress : Bytes → CInt → Bytes × CInt)
    (lz4_decompress : Bytes → CInt → CInt → Bytes) where
  unfoldable pub file_stage : Machine D → Work → WorkOp → Option (Work × Machine D)
  file_stage m w read = file_read os heap_alloc m w
  file_stage m w write = elim w.buffer [
    | none ↦ none
    | some source ↦ some (file_write os heap_alloc m w source)
  ]

  unfoldable pub compression_stage : Machine D → Work → WorkOp → Option (Work × Machine D)
  compression_stage m w op = elim w.buffer [
    | none ↦ none
    | some source ↦ elim op [
      | read ↦ do
        w' ← file_decompress heap_alloc lz4_bound lz4_compress lz4_decompress w source
        some (w', m)
      | write ↦ do
        w' ← file_compress heap_alloc lz4_bound lz4_compress lz4_decompress w source
        some (w', m)
    ]
  ]

  unfoldable pub stage : Machine D → Work → Place → Option (Work × Machine D)
  stage m w on_file_queue = file_stage m w w.op
  stage m w on_compression_queue = compression_stage m w w.op
  stage m w signalled = some (w, m)

  -- `n` stages of one piece of work.
  unfoldable pub run_stages : ℕ → Machine D → Work → Option (Work × Machine D)
  run_stages zero m w = some (w, m)
  run_stages (suc n) m w = elim (stage m w w.place) [
    | none ↦ none
    | some (w', m') ↦ run_stages n m' w'
  ]
