-- ===== src/Fs/Stages.antt =====
-- The way of a piece of work of src/fs.c through the queues to its event.
use evil_engine.Base.{
  ap, suc, ◌∙◌, ◌+◌, inl, inr, Bool-cases, ℕ, ◌≡◌, ◌⊎◌, refl, arith, Bool, true, false, some, none,
  List, CInt, Option, ◌%◌, ◌^◌, add32, if◌then◌else◌,
}
use evil_engine.Fs.{
  Place, file_compress, write_opened, file_decompress, stage, file_stage, compression_stage,
  read_opened, end_read, HasRoom, to_size, packed, packed_room, read_digits, Bytes, Work, Os,
  Machine, fs_read, fs_write, run_stages, signalled, failed, worked, read, write, file_read,
  file_write, on_compression_queue, on_file_queue, OsCall,
}

-- Work that has been signalled, with every handle closed that was opened on the way.
abbrev pub Finished : {D : Type 0} → Machine D → Option (Work × Machine D) → Type 0
Finished m none = ⊥
Finished m (some (w, n)) = (w.place ≡ signalled) × (n.open_handles ≡ m.open_handles)

OsCall-cases :
    {A : Type 0} (r : OsCall A) → ((code : CInt) × (r ≡ failed code)) ⊎ ((a : A) × (r ≡ worked a))
OsCall-cases (failed code) = inl (code, refl)
OsCall-cases (worked a) = inr (a, refl)

-- What `file_read` leaves: signalled work, or work with a buffer for the compression thread.
pub record AfterRead {D : Type 0} (m : Machine D) (w w' : Work) (n : Machine D) : Type 0 where
  pub same_op : w'.op ≡ w.op
  pub closed : n.open_handles ≡ m.open_handles
  pub placed :
      (w'.place ≡ signalled)
      ⊎ ((w'.place ≡ on_compression_queue)
          × (w.use_compression ≡ true)
          × ((b : Bytes) × (w'.buffer ≡ some b)))

-- That it comes to such work.
abbrev ReadsTo : {D : Type 0} → Machine D → Work → Option (Work × Machine D) → Type 0
ReadsTo m w none = ⊥
ReadsTo m w (some (w', n)) = AfterRead m w w' n

ReadsTo-some :
    {D : Type 0} (m : Machine D) (w : Work) (result : Option (Work × Machine D))
    → ReadsTo m w result
    → (w' : Work) × (n : Machine D) × (result ≡ some (w', n)) × AfterRead m w w' n
ReadsTo-some m w none e = absurd e
ReadsTo-some m w (some (w', n)) after = (w', n, refl, after)

-- That decompressing ends with the signal.
abbrev Signals : Option Work → Type 0
Signals none = ⊥
Signals (some w) = w.place ≡ signalled

Signals-some :
    (result : Option Work) → Signals result → (w : Work) × (result ≡ some w) × (w.place ≡ signalled)
Signals-some none e = absurd e
Signals-some (some w) e = (w, refl, e)

module _ {D K : Type 0} (os : Os D K) (heap_alloc : ℕ → Option Bytes)
    (room : HasRoom heap_alloc) where
  read_opened-ReadsTo :
      (m : Machine D) (handle : K) (w : Work)
      → ReadsTo m w
          (read_opened os heap_alloc (record m { open_handles = m.open_handles + 1 }) handle w)
  unfolding read_opened end_read
  read_opened-ReadsTo m handle w = elim (OsCall-cases (os.get_file_size m.disk handle)) [
    | inl (code, e) ↦
        rw (e, read_opened) record { same_op = refl; closed = omega arith; placed = inl refl }
    | inr (size, e) ↦
        let asked : ℕ = if w.null_terminate then (size + 1) % 2 ^ 64 else size in
        let (fresh, given) = room asked in
        elim (OsCall-cases (os.read_file m.disk handle (some fresh) (size % 2 ^ 32))) [
          | inl (code, e') ↦
              rw (e, given, e', read_opened)
                record { same_op = refl; closed = omega arith; placed = inl refl }
          | inr ((n, bytes), e') ↦
              rw (e, given, e', given, read_opened)
                record {
                  same_op = refl;
                  closed = omega arith;
                  placed = elim (Bool-cases w.use_compression) [
                    | inl c ↦ rw c (inr (refl, refl, (_, refl)))
                    | inr c ↦ rw c (inl refl)
                  ];
                }
        ]
  ]

  pub file_read-ReadsTo : (m : Machine D) (w : Work) → ReadsTo m w (file_read os heap_alloc m w)
  unfolding file_read
  file_read-ReadsTo m w = elim (Bool-cases (os.converts w.path)) [
    | inr bad ↦ rw (bad, file_read) record { same_op = refl; closed = refl; placed = inl refl }
    | inl good ↦ elim (OsCall-cases (os.open_existing m.disk w.path)) [
      | inl (code, e) ↦
          rw (good, e, file_read) record { same_op = refl; closed = refl; placed = inl refl }
      | inr (handle, e) ↦ rw (good, e, file_read) (read_opened-ReadsTo m handle w)
    ]
  ]

module _ {D K : Type 0} (os : Os D K) (heap_alloc : ℕ → Option Bytes) where
  pub file_write_done :
      (m : Machine D) (w : Work) (source : Bytes)
      → Finished m (some (file_write os heap_alloc m w source))
  unfolding file_write write_opened
  file_write_done m w source = ground arith

module _ {D K : Type 0} (os : Os D K) (heap_alloc : ℕ → Option Bytes) (lz4_bound : CInt → CInt)
    (lz4_compress : Bytes → CInt → Bytes × CInt)
    (lz4_decompress : Bytes → CInt → CInt → Bytes) where
  abbrev run : ℕ → Machine D → Work → Option (Work × Machine D)
  run = run_stages os heap_alloc lz4_bound lz4_compress lz4_decompress

  run_next :
      (n : ℕ) (m : Machine D) (w : Work) {m' : Machine D} {w' : Work}
      → stage os heap_alloc lz4_bound lz4_compress lz4_decompress m w w.place ≡ some (w', m')
      → run (suc n) m w ≡ run n m' w'
  unfolding run_stages
  run_next n m w e = rw (e, run_stages)

  -- A stage at a known place.
  stage_at :
      (m : Machine D) (w : Work) (p : Place)
      → w.place ≡ p
      → stage os heap_alloc lz4_bound lz4_compress lz4_decompress m w w.place
        ≡ stage os heap_alloc lz4_bound lz4_compress lz4_decompress m w p
  stage_at m w p e = ap (stage os heap_alloc lz4_bound lz4_compress lz4_decompress m w) e

  -- A stage of signalled work is the end of it, and the last stage of a read decompresses.
  finish_signalled :
      (m n : Machine D) (w : Work)
      → w.place ≡ signalled
      → n.open_handles ≡ m.open_handles
      → Finished m (run 1 n w)
  unfolding stage run_stages
  finish_signalled m n w e h = rw (run_next 0 n w (stage_at n w signalled e)) (e, h)

  file_decompress-Signals :
      (w : Work) (b : Bytes)
      → HasRoom heap_alloc
      → Signals (file_decompress heap_alloc lz4_bound lz4_compress lz4_decompress w b)
  unfolding file_decompress
  file_decompress-Signals w b room =
      let size : CInt = read_digits 10 0 b 11 0 in
      let (fresh, given) = room (to_size (if w.null_terminate then add32 size 1 else size)) in
      rw (given, Signals, file_decompress) refl

  compression_stage-read :
      (m : Machine D) (w w' : Work) (b : Bytes)
      → w.buffer ≡ some b
      → file_decompress heap_alloc lz4_bound lz4_compress lz4_decompress w b ≡ some w'
      → compression_stage os heap_alloc lz4_bound lz4_compress lz4_decompress m w read
        ≡ some (w', m)
  unfolding compression_stage
  compression_stage-read m w w' b f got = ground (arith, f, got)

  decompress_stage :
      (m : Machine D) (w : Work) (b : Bytes)
      → w.place ≡ on_compression_queue
      → w.op ≡ read
      → w.buffer ≡ some b
      → HasRoom heap_alloc
      → (w' : Work) × (stage os heap_alloc lz4_bound lz4_compress lz4_decompress m w w.place
          ≡ some (w', m))
        × (w'.place ≡ signalled)
  unfolding stage compression_stage
  decompress_stage m w b e o f room =
      let (w', got, done) = Signals-some _ (file_decompress-Signals w b room) in
      (
        w',
        stage_at m w on_compression_queue e
            ∙ ap (compression_stage os heap_alloc lz4_bound lz4_compress lz4_decompress m w) o
            ∙ compression_stage-read m w w' b f got,
        done,
      )

  finish_decompress :
      (m n : Machine D) (w : Work) (b : Bytes)
      → w.place ≡ on_compression_queue
      → w.op ≡ read
      → w.buffer ≡ some b
      → n.open_handles ≡ m.open_handles
      → HasRoom heap_alloc
      → Finished m (run 1 n w)
  unfolding run_stages
  finish_decompress m n w b e o f h room =
      let (w', staged, done) = decompress_stage n w b e o f room in
      rw (run_next 0 n w staged) (done, h)

  finish_read :
      (m n : Machine D) (w w' : Work)
      → w.op ≡ read
      → AfterRead m w w' n
      → HasRoom heap_alloc
      → Finished m (run 1 n w')
  finish_read m n w w' o a room = elim (a.placed) [
    | inl e ↦ finish_signalled m n w' e a.closed
    | inr (e, c, (b, f)) ↦ finish_decompress m n w' b e (a.same_op ∙ o) f a.closed room
  ]

  file_stage-eq :
      (m : Machine D) (w : Work) (b : Bytes)
      → w.op ≡ write
      → w.buffer ≡ some b
      → stage os heap_alloc lz4_bound lz4_compress lz4_decompress m w on_file_queue
        ≡ some (file_write os heap_alloc m w b)
  unfolding stage file_stage
  file_stage-eq m w b o f = ground (arith, o, f)

  -- A write that stands on the file queue is signalled by the next stage, and stays so.
  finish_write :
      (m n : Machine D) (w : Work) (b : Bytes)
      → w.place ≡ on_file_queue
      → w.op ≡ write
      → w.buffer ≡ some b
      → n.open_handles ≡ m.open_handles
      → Finished m (run 1 n w)
  unfolding run_stages
  finish_write m n w b e o f h =
      rw (run_next 0 n w (stage_at n w on_file_queue e ∙ file_stage-eq n w b o f))
        (let d = file_write_done os heap_alloc n w b in (d.0, d.1 ∙ h))

  finish_plain_write :
      (m : Machine D) (w : Work) (b : Bytes)
      → w.place ≡ on_file_queue
      → w.op ≡ write
      → w.buffer ≡ some b
      → Finished m (run 2 m w)
  finish_plain_write m w b e o f =
      rw (run_next 1 m w (stage_at m w on_file_queue e ∙ file_stage-eq m w b o f))
        (let d = file_write_done os heap_alloc m w b in finish_signalled m _ _ d.0 d.1)

  finish_compressed_write :
      (path : List ℕ) (source : Bytes) (size : ℕ) (m : Machine D)
      → HasRoom heap_alloc
      → Finished m (run 2 m (fs_write path source size true))
  unfolding fs_write stage compression_stage file_compress
  finish_compressed_write path source size m room =
      let (fresh, given) =
        room (packed_room heap_alloc lz4_bound lz4_compress lz4_decompress size) in
      let next : Work = record (fs_write path source size true) {
        size = (packed heap_alloc lz4_bound lz4_compress lz4_decompress fresh source size).1 + 22;
        buffer = some (packed heap_alloc lz4_bound lz4_compress lz4_decompress fresh source size).0;
        place = on_file_queue;
      } in
      rw
        (run_next 1 m (fs_write path source size true) {m' = m} {w' = next}
          (rw (given, file_compress) refl))
        (finish_write m m next _ refl refl refl refl)

  -- As long as the heap gives no NULL, every read and every write, compressed or not, and whichever call
  -- of Windows fails, is signalled to its owner after at most two stages, meets no null buffer on its way,
  -- and leaves no handle open.
  pub work_done :
      (path : List ℕ) (null_terminate use_compression : Bool) (source : Bytes) (size : ℕ)
      (m : Machine D)
      → HasRoom heap_alloc
      → Finished m (run 2 m (fs_read path null_terminate use_compression))
        × Finished m (run 2 m (fs_write path source size use_compression))
  unfolding fs_read fs_write stage file_stage
  work_done path null_terminate use_compression source size m room =
      let r : Work = fs_read path null_terminate use_compression in
      let (w', n, done, after) = ReadsTo-some m r _ (file_read-ReadsTo os heap_alloc room m r) in
      (
        rw (run_next 1 m r done) (finish_read m n r w' refl after room),
        elim (Bool-cases use_compression) [
          | inl c ↦ rw c (finish_compressed_write path source size m room)
          | inr c ↦
              rw c (finish_plain_write m (fs_write path source size false) source refl refl refl)
        ],
      )
