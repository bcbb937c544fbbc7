-- ===== src/Fs/Tests.antt =====
-- The work of src/fs.c on small inputs.
use evil_engine.Base.{ℕ, ◌+◌, ◌<◌, ◌≡◌, refl, arith, true, false, Option, some, [], CInt}
use evil_engine.Fs.{
  Bytes, Work, Os, Machine, failed, worked, fs_read, fs_write, packed, file_compress,
  file_decompress, HasRoom, on_file_queue, signalled, run_stages,
}
use evil_engine.Fs.Stages.{Finished, work_done}
use evil_engine.Fs.RoundTrip.{RestoresBuffer, file_decompress-file_compress}

abbrev zeros : Bytes
zeros k = 0

-- A compression that keeps the bytes.
abbrev store : Bytes → CInt → Bytes × CInt
store bytes n = (bytes, n)

abbrev unstore : Bytes → CInt → CInt → Bytes
unstore bytes c n = bytes

abbrev letters : Bytes
letters k = 65 + k

letters-RestoresBuffer : RestoresBuffer store unstore letters 5
letters-RestoresBuffer = record { small = omega arith; restores = λ copy same k h. same k h }

abbrev writer : Work
writer = fs_write [] letters 5 true

abbrev reader : Work
reader = fs_read [] true true

-- A heap that always gives zeros.
abbrev alloc : ℕ → Option Bytes
alloc size = some zeros

alloc-HasRoom : HasRoom alloc
alloc-HasRoom size = (zeros, refl)

abbrev bound : CInt → CInt
bound n = n + 16

abbrev sent : Bytes
sent = (packed alloc bound store unstore zeros letters 5).0

file_decompress-file_compress_example :
    (file_compress alloc bound store unstore writer letters
      ≡ some (record writer { size = 27; buffer = some sent; place = on_file_queue }))
    × (got : Work) × (file_decompress alloc bound store unstore reader sent ≡ some got)
    × (b : Bytes) × (got.buffer ≡ some b)
    × (got.size ≡ 5)
    × (got.place ≡ signalled)
    × ((k : ℕ) → k < 5 → b k ≡ letters k)
    × (true ≡ true → b 5 ≡ 0)
unfolding fs_write fs_read packed
file_decompress-file_compress_example =
    file_decompress-file_compress alloc bound store unstore letters sent zeros writer reader
      (omega arith) letters-RestoresBuffer alloc-HasRoom refl (λ k h. refl)

-- An operating system with one file of five bytes, on which a second handle cannot be opened.
abbrev one_file : Os Bytes ℕ
one_file = record {
  converts = λ path. true;
  open_existing = λ disk path. worked 4;
  create_always = λ disk path. failed 5;
  get_file_size = λ disk handle. worked 5;
  read_file = λ disk handle buffer size. worked (size, disk);
  write_file = λ disk handle bytes size. worked (size, bytes);
}

abbrev machine : Machine Bytes
machine = record { disk = letters; open_handles = 0 }

work_done_example :
    Finished machine
      (run_stages one_file alloc bound store unstore 2 machine (fs_read [] true false))
    × Finished machine
        (run_stages one_file alloc bound store unstore 2 machine (fs_write [] letters 5 false))
work_done_example =
    work_done one_file alloc bound store unstore [] true false letters 5 machine alloc-HasRoom
