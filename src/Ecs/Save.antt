-- ===== src/Ecs/Save.antt =====
-- `ecs_save_game` and `ecs_load_game` of src/ecs.c: the layout of the save file.
-- `ctr` runs inside one allocated buffer, so its sums do not wrap and are sums of ℕ. The heap and the
-- file system are parameters; the contents of the buffer are a function of the offset.
pub mod Sections
pub mod Components
pub mod Fields
pub mod Load
pub mod Image
pub mod Tables
pub mod RoundTrip
mod Tests
use evil_engine.Base.{
  ℕ, zero, suc, ◌+◌, ◌*◌, ◌/◌, ◌%◌, ◌^◌, Bool, true, false, Option, none, some, ◌==◌, List,
  if◌then◌else◌, update, for_loop, CInt,
}
use evil_engine.Ecs.{
  Ecs, EntityState, unused, pending_add, active, pending_remove, state_value, max_entities,
  max_component_types,
}
use evil_engine.Ecs.Component.{Memory}

-- Byte `j` of a number that is stored lowest byte first.
abbrev pub byte_of : ℕ → ℕ → ℕ
byte_of v j = (v / 256 ^ j) % 256

-- The buffer, and where the code is in it.
pub record Cursor : Type 0 where
  pub bytes : Memory
  pub ctr : ℕ

-- `for (j = 0; j < n; j++) data[j + ctr] = src[j];`
unfoldable pub copy_bytes : ℕ → (ℕ → ℕ) → ℕ → Memory → Memory
copy_bytes n src ctr bytes = for_loop n 0 (λ j d. update d (j + ctr) (src j)) bytes

-- One field of `n` bytes, and `ctr += n;`
unfoldable pub write_field : ℕ → (ℕ → ℕ) → Cursor → Cursor
unfolding copy_bytes
write_field n src c = record { bytes = copy_bytes n src c.ctr c.bytes; ctr = c.ctr + n }

-- A loop that writes a field of `width` bytes for each of `n` indices from `i` on.
unfoldable pub write_section : ℕ → (ℕ → ℕ → ℕ) → ℕ → ℕ → Cursor → Cursor
write_section width src n i c = for_loop n i (λ j d. write_field width (src j) d) c

-- The address of a type's storage, for a type that has one.
abbrev pub storage_of : Ecs → ℕ → ℕ
storage_of e t = elim (e.components t) [ none ↦ 0 | some a ↦ a ]

-- Byte `k` of the component of type `t` of entity `j`.
abbrev pub component_byte : Ecs → Memory → ℕ → ℕ → ℕ → ℕ
component_byte e memory t j k = memory (storage_of e t + (j * e.component_type_sizes t + k))

-- The body of the loop over the component types.
unfoldable pub write_component : Ecs → Memory → ℕ → Cursor → Cursor
write_component e memory t c =
    if e.save_component t
    then write_section (e.component_type_sizes t) (component_byte e memory t) max_entities 0 c
    else c

unfoldable pub write_components : Ecs → Memory → ℕ → ℕ → Cursor → Cursor
write_components e memory n t c = for_loop n t (write_component e memory) c

-- The buffer that `ecs_save_game` fills, from what the fresh allocation holds.
unfoldable pub save_data : Ecs → Memory → Memory → Cursor
save_data e memory fresh =
    let c0 = write_field 4 (byte_of e.global_sequence) (record { bytes = fresh; ctr = 0 }) in
    let c1 = write_section 4 (λ i. byte_of (e.sequences i)) max_entities 0 c0 in
    let c2 = write_section 4 (λ i. byte_of (state_value (e.entity_states i))) max_entities 0 c1 in
    let c3 = write_section 8 (λ i. byte_of (e.component_masks i)) max_entities 0 c2 in
    write_components e memory max_component_types 0 c3

-- The size that it allocates.
unfoldable pub save_size : Ecs → ℕ
save_size e =
    for_loop max_component_types 0
      (λ t size.
        if e.save_component t then size + max_entities * e.component_type_sizes t else size)
      (4 + (4 + 4 + 8) * max_entities)

-- `*((int*)p)`: `n` bytes, lowest first.
unfoldable pub read_le : Memory → ℕ → ℕ → ℕ
read_le bytes zero p = 0
read_le bytes (suc n) p = bytes p + 256 * read_le bytes n (p + 1)

-- The state while `ecs_load_game` runs.
pub record Loading : Type 0 where
  pub ecs : Ecs
  pub ctr : ℕ

-- The bodies of the loops of `ecs_load_game`.
abbrev pub load_sequence : Memory → ℕ → Loading → Loading
load_sequence bytes i s = record {
  ecs = record (s.ecs) { sequences = update s.ecs.sequences i (read_le bytes 4 s.ctr) };
  ctr = s.ctr + 4;
}

-- `decode` is what the code makes of the stored number of a state.
abbrev pub load_state : (ℕ → EntityState) → Memory → ℕ → Loading → Loading
load_state decode bytes i s = record {
  ecs = record (s.ecs) {
    entity_states = update s.ecs.entity_states i (decode (read_le bytes 4 s.ctr));
  };
  ctr = s.ctr + 4;
}

abbrev pub load_mask : Memory → ℕ → Loading → Loading
load_mask bytes i s = record {
  ecs = record (s.ecs) { component_masks = update s.ecs.component_masks i (read_le bytes 8 s.ctr) };
  ctr = s.ctr + 8;
}

-- `base` is the address of the buffer.
abbrev pub load_component : ℕ → ℕ → Loading → Loading
load_component base t s =
    if s.ecs.save_component t
    then record {
      ecs = record (s.ecs) { components = update s.ecs.components t (some (base + s.ctr)) };
      ctr = s.ctr + s.ecs.component_type_sizes t * max_entities;
    }
    else s

-- A stored number as an enumerator. `other_state` stands for what the code makes of a number that
-- is none, which a file written by `ecs_save_game` does not hold.
unfoldable pub state_of_value : (ℕ → EntityState) → ℕ → EntityState
state_of_value other_state v =
    if v == 0
    then unused
    else if v == 1
    then pending_add
    else if v == 2
    then active
    else if v == 3
    then pending_remove
    else other_state v

-- The reads of `ecs_load_game` from the buffer at address `base`.
unfoldable pub load_data : (ℕ → EntityState) → ℕ → Memory → Ecs → Loading
load_data other_state base bytes e =
    let s0 : Loading = record { ecs = record e { global_sequence = read_le bytes 4 0 }; ctr = 4 } in
    let s1 = for_loop max_entities 0 (load_sequence bytes) s0 in
    let s2 = for_loop max_entities 0 (load_state (state_of_value other_state) bytes) s1 in
    let s3 = for_loop max_entities 0 (load_mask bytes) s2 in
    for_loop max_component_types 0 (load_component base) s3

-- What `fs_read` and the wait for it give: the result code, and the buffer with its size, which
-- `ecs_load_game` does not ask for.
pub record ReadResult (H : Type 0) : Type 0 where
  pub result : CInt
  pub buffer : ℕ
  pub size : ℕ
  pub bytes : Memory
  pub heap : H

-- `none` where the heap gives NULL, through which the code then writes. The file is on disk when the
-- buffer is freed, since the call waits for the work.
module _ {H F : Type 0} (heap_alloc : H → ℕ → ℕ → Option ℕ × H) (heap_free : H → ℕ → H)
    (contents : H → ℕ → Memory) (fs_write : F → List ℕ → Memory → ℕ → F) (savegame : List ℕ) where
  unfoldable pub save_game : H → Ecs → Memory → F → Option (H × F)
  save_game heap e memory fs =
      let (address, heap') = heap_alloc heap (save_size e) 8 in
      elim address [
        | none ↦ none
        | some a ↦
            let written = (save_data e memory (contents heap' a)).bytes in
            some (heap_free heap' a, fs_write fs savegame written (save_size e))
      ]

-- A read that fails changes nothing; otherwise the buffer is freed at the end.
module _ {H F : Type 0} (heap_free : H → ℕ → H) (fs_read : F → List ℕ → H → ReadResult H)
    (savegame : List ℕ) (other_state : ℕ → EntityState) where
  unfoldable pub load_game : H → Ecs → F → H × Ecs
  load_game heap e fs =
      let r = fs_read fs savegame heap in
      if r.result == 0
      then (heap_free r.heap r.buffer, (load_data other_state r.buffer r.bytes e).ecs)
      else (r.heap, e)
