-- ===== src/Net/Packet/Delta.antt =====
-- The bytes of a packet of src/net.c as a list of updates: for each entity of the snapshot its
-- header, and its components where they differ from the acknowledged snapshot.
use evil_engine.Base.{
  ℕ, zero, suc, ◌≤◌, ◌<◌, ◌^◌, ◌≡◌, refl, sym, ap, ◌∙◌, arith, Bool, true, not, ◌==◌, some,
  if◌then◌else◌, List, [], ◌∷◌, ◌++◌, length, length-append, inl, inr, Bool-cases, CInt, int_bytes,
  read_int-int_bytes, split_bytes_exact,
}
use mathlib.Core.Path.{ap₂}
use mathlib.Core.List.{append_assoc, append-nil}
use evil_engine.Net.{Connection}
use evil_engine.Net.Packet.{
  Net, replicated_size_of, current_contents, acked_contents, packet_add_entities, read_header,
  same_bytes, compare_acked, entity_bytes, packet_loop,
}

-- An entity of a snapshot.
pub record Entity : Type 0 where
  pub type : CInt
  pub sequence : CInt
  pub payload : List ℕ

-- An entity of a packet.
pub record Update : Type 0 where
  pub type : CInt
  pub sequence : CInt
  pub diff : Bool
  pub payload : List ℕ

abbrev pub All {ℓ κ} : {A : Type ℓ} → (A → Type κ) → List A → Type κ
All P [] = Unit
All P (x ∷ xs) = P x × All P xs

-- Its numbers are C numbers, and its components are as many bytes as its type has. `kind` says which
-- type the entity of each sequence number has.
pub record IsEntity (kind : CInt → CInt) (size : CInt → ℕ) (x : Entity) : Type 0 where
  pub small_type : x.type < 2 ^ 32
  pub small_sequence : x.sequence < 2 ^ 32
  pub of_kind : x.type ≡ kind x.sequence
  pub whole : length x.payload ≡ size x.type

abbrev pub bytes_of : Entity → List ℕ
bytes_of x = int_bytes x.type ++ (int_bytes x.sequence ++ x.payload)

abbrev pub flatten : List Entity → List ℕ
flatten [] = []
flatten (x ∷ xs) = bytes_of x ++ flatten xs

abbrev pub update_bytes : Update → List ℕ
update_bytes u = entity_bytes u.type u.sequence u.diff u.payload

abbrev pub flatten_updates : List Update → List ℕ
flatten_updates [] = []
flatten_updates (u ∷ us) = update_bytes u ++ flatten_updates us

abbrev pub update_of : Bool → Entity → Update
update_of diff x = record { type = x.type; sequence = x.sequence; diff = diff; payload = x.payload }

-- The specification: the snapshots are walked side by side, and an entity that stands next in both
-- with the same bytes is sent without them.
unfoldable pub delta : List Entity → List Entity → List Update
delta [] acked = []
delta (x ∷ xs) [] = update_of true x ∷ delta xs []
delta (x ∷ xs) (a ∷ as') =
    let past = delta xs as' in
    let waiting = delta xs (a ∷ as') in
    if a.sequence == x.sequence
    then update_of (not (same_bytes x.payload a.payload)) x ∷ past
    else update_of true x ∷ waiting

pub read_header-entity :
    (type sequence : ℕ) (rest : List ℕ)
    → type < 2 ^ 32
    → sequence < 2 ^ 32
    → read_header (int_bytes type ++ (int_bytes sequence ++ rest)) ≡ some (type, sequence, rest)
unfolding read_header
read_header-entity type sequence rest h k =
    rw (read_int-int_bytes type (int_bytes sequence ++ rest) h, read_int-int_bytes sequence rest k)
      refl

compare_acked-entity :
    (sequence : CInt) (payload : List ℕ) (a : Entity) (as' : List Entity)
    → a.type < 2 ^ 32
    → a.sequence < 2 ^ 32
    → (a.sequence ≡ sequence → length a.payload ≡ length payload)
    → compare_acked sequence payload (flatten (a ∷ as')) ≡ (
        if a.sequence == sequence
        then some (not (same_bytes payload a.payload), flatten as')
        else some (true, flatten (a ∷ as')))
unfolding compare_acked
compare_acked-entity sequence payload a as' h k same =
    let header = read_header-entity a.type a.sequence (a.payload ++ flatten as') h k in
    elim (Bool-cases (a.sequence == sequence)) [
      | inl hit ↦
          let long : length a.payload ≡ length payload = same (ground arith) in
          ground (arith, header, split_bytes_exact (length payload) a.payload (flatten as') long)
      | inr miss ↦ ground (arith, header)
    ]

-- One round of the loop at an entity.
packet_loop-entity :
    (size : CInt → ℕ) (fuel : ℕ) (x : Entity) (xs : List Entity) (acked packet : List ℕ)
    (diff : Bool) (acked' : List ℕ)
    → x.type < 2 ^ 32
    → x.sequence < 2 ^ 32
    → length x.payload ≡ size x.type
    → compare_acked x.sequence x.payload acked ≡ some (diff, acked')
    → packet_loop size (suc fuel) (flatten (x ∷ xs)) acked packet
      ≡ packet_loop size fuel (flatten xs) acked' (packet ++ update_bytes (update_of diff x))
unfolding packet_loop
packet_loop-entity size fuel x xs acked packet diff acked' h k whole e =
    let header = read_header-entity x.type x.sequence (x.payload ++ flatten xs) h k in
    rw (header, split_bytes_exact (size x.type) x.payload (flatten xs) whole, e) refl

-- The loop writes the specified updates behind what is in the packet.
packet_loop-delta :
    (kind : CInt → CInt) (size : CInt → ℕ) (xs acked : List Entity) (fuel : ℕ) (packet : List ℕ)
    → All (IsEntity kind size) xs
    → All (IsEntity kind size) acked
    → length xs ≤ fuel
    → packet_loop size fuel (flatten xs) (flatten acked) packet
      ≡ some (packet ++ flatten_updates (delta xs acked))
unfolding delta
packet_loop-delta kind size [] acked fuel packet hx ha le =
    unfold packet_loop in ap some (sym (append-nil packet))
packet_loop-delta kind size (x ∷ xs) acked zero packet hx ha le = absurd (omega arith)
packet_loop-delta kind size (x ∷ xs) [] (suc fuel) packet (hx, hxs) ha le =
    packet_loop-entity size fuel x xs [] packet true [] hx.small_type hx.small_sequence hx.whole
      (unfold compare_acked in refl)
    ∙ packet_loop-delta kind size xs [] fuel _ hxs ha (omega arith)
    ∙ ap some
        (append_assoc packet (update_bytes (update_of true x)) (flatten_updates (delta xs [])))
packet_loop-delta kind size (x ∷ xs) (a ∷ as') (suc fuel) packet (hx, hxs) (ha, has) le =
    elim (Bool-cases (a.sequence == x.sequence)) [
      | inl hit ↦
          let u = update_of (not (same_bytes x.payload a.payload)) x in
          let met : compare_acked x.sequence x.payload (flatten (a ∷ as'))
              ≡ some (not (same_bytes x.payload a.payload), flatten as') =
            ack ∙ rw (hit) refl in
          packet_loop-entity size fuel x xs (flatten (a ∷ as')) packet u.diff (flatten as')
            hx.small_type hx.small_sequence hx.whole met
          ∙ packet_loop-delta kind size xs as' fuel _ hxs has (omega arith)
          ∙ rw (hit)
              (ap some (append_assoc packet (update_bytes u) (flatten_updates (delta xs as'))))
      | inr miss ↦
          let u = update_of true x in
          let met : compare_acked x.sequence x.payload (flatten (a ∷ as'))
              ≡ some (true, flatten (a ∷ as')) =
            ack ∙ rw (miss) refl in
          packet_loop-entity size fuel x xs (flatten (a ∷ as')) packet true (flatten (a ∷ as'))
            hx.small_type hx.small_sequence hx.whole met
          ∙ packet_loop-delta kind size xs (a ∷ as') fuel _ hxs (ha, has) (omega arith)
          ∙ rw (miss) (
              ap some (append_assoc packet (update_bytes u) (flatten_updates (delta xs (a ∷ as')))))
    ]
  where
    ack : compare_acked x.sequence x.payload (flatten (a ∷ as')) ≡ (
        if a.sequence == x.sequence
        then some (not (same_bytes x.payload a.payload), flatten as')
        else some (true, flatten (a ∷ as')))
    ack =
        compare_acked-entity x.sequence x.payload a as' ha.small_type ha.small_sequence
          (λ e. ha.whole ∙ ap size (ha.of_kind ∙ ap kind e ∙ sym hx.of_kind) ∙ sym hx.whole)

length-le-flatten : (xs : List Entity) → length xs ≤ length (flatten xs)
length-le-flatten [] = omega arith
length-le-flatten (x ∷ xs) =
    omega (arith, length-le-flatten xs, length-append x.payload (flatten xs))

-- What `packet_add_entities` writes is the list of updates, in bytes: from the snapshot of this frame
-- and, if it is still there, the one that the connection has acknowledged. In both snapshots the
-- numbers fit their C types, an entity with one sequence number has one type, and its components are
-- as many bytes as that type replicates.
pub packet_add_entities_lem :
    (kind : CInt → CInt) (net : Net) (c : Connection) (xs acked : List Entity)
    → All (IsEntity kind (replicated_size_of net)) xs
    → All (IsEntity kind (replicated_size_of net)) acked
    → current_contents net ≡ flatten xs
    → acked_contents net c ≡ flatten acked
    → packet_add_entities net c ≡ some (flatten_updates (delta xs acked))
unfolding packet_add_entities
packet_add_entities_lem kind net c xs acked hx ha ex ea =
    let size = replicated_size_of net in
    let loop =
      packet_loop-delta kind size xs acked (length (flatten xs)) [] hx ha (length-le-flatten xs) in
    ap₂ (λ (b : List ℕ) (a : List ℕ). packet_loop size (length b) b a []) ex ea ∙ loop
