-- ===== src/Net/Packet.antt =====
-- src/net.c: what is sent of the entities, and what a packet does to the receiver's.
-- The contents of a snapshot or of a packet are the list of its bytes, as long as `size` says, and the
-- 1024 bytes of the array are no limit of the list. `none` is an access outside: a read behind the last
-- byte, or through a component that is NULL. What an application does in its `configure_callback` is a
-- parameter of the state of an entity type.
pub mod Delta
pub mod Size
pub mod Snapshots
use evil_engine.Base.{
  ℕ, zero, suc, ◌+◌, ◌-◌, ◌%◌, ◌<◌, Bool, true, false, not, ◌&&◌, Option, none, some, List, [], ◌∷◌,
  ◌++◌, length, ◌==◌, ltb, if◌then◌else◌, ◌>>=◌, CInt, minus_one, add32, add64, le_int, test_bit,
  update, find_first, for_loop, int_bytes, read_int, split_bytes, bytes_at, put_bytes,
}
use evil_engine.Ecs.{
  Ecs, EntityRef, max_component_types, is_entity_ref_valid, entity_add, entity_remove,
  entity_get_component,
}
use evil_engine.Ecs.Component.{Memory, get_component_type_size}
use evil_engine.Net.{EntityData, Connection}

abbrev pub mtu : ℕ
mtu = 1024

abbrev pub max_entity_types : ℕ
max_entity_types = 32

abbrev pub max_snapshots : ℕ
max_snapshots = 256

abbrev pub max_net_entities : ℕ
max_net_entities = 32

-- The table of entities and the memory that its components lie in.
pub record World : Type 0 where
  pub ecs : Ecs
  pub memory : Memory

pub record EntityType : Type 0 where
  pub component_mask : ℕ
  pub replicated_component_mask : ℕ
  pub configure : World → EntityRef → CInt → World
  pub replicated_size : ℕ

pub record Snapshot : Type 0 where
  pub sequence : CInt
  pub contents : List ℕ

-- The part of `net_t` that is not its connections.
pub record Net : Type 0 where
  pub world : World
  pub sequence : CInt
  pub entity_types : CInt → EntityType
  pub entities : ℕ → EntityData
  pub snapshots : ℕ → Snapshot

-- The sum of the sizes of the components of a mask from `c` on, `n` of them.
unfoldable pub sum_sizes : Ecs → (mask n c : ℕ) → ℕ → ℕ
sum_sizes e mask n c =
    for_loop n c
      (λ i size. if test_bit mask i then add64 size (get_component_type_size e i) else size)

-- The test of `type` is on the unsigned number that an `int` is compared as.
unfoldable pub state_register_entity_type :
    Net → CInt → (mask replicated : ℕ) → (World → EntityRef → CInt → World) → Net
state_register_entity_type net type mask replicated configure =
    if ltb type max_entity_types
    then record net {
      entity_types = update net.entity_types type (record {
        component_mask = mask;
        replicated_component_mask = replicated;
        configure = configure;
        replicated_size = sum_sizes net.world.ecs replicated max_component_types 0 0;
      });
    }
    else net

unfoldable pub state_register_entity_instance : Net → CInt → EntityRef → Net
state_register_entity_instance net type ref =
    elim (find_first (λ i. not (is_entity_ref_valid net.world.ecs ((net.entities i).ref) true))
      max_net_entities 0) [
        | none ↦ net
        | some i ↦ record net {
          entities = update net.entities i (record (net.entities i) { ref = ref; type = type });
        }
      ]

-- The loop over the components of a mask that copies them out of the entity.
unfoldable pub gather : World → EntityRef → (mask n c : ℕ) → Option (List ℕ)
gather w ref mask zero c = some []
gather w ref mask (suc n) c =
    let rest = gather w ref mask n (c + 1) in
    if test_bit mask c
    then elim (entity_get_component w.ecs ref c true) [
      | none ↦ none
      | some a ↦ elim rest [
        | none ↦ none
        | some bytes ↦ some (bytes_at w.memory a (get_component_type_size w.ecs c) ++ bytes)
      ]
    ]
    else rest

-- The same loop that copies bytes into the entity, and the bytes behind them.
unfoldable pub scatter : World → EntityRef → (mask n c : ℕ) → List ℕ → Option (World × List ℕ)
scatter w ref mask zero c bytes = some (w, bytes)
scatter w ref mask (suc n) c bytes = elim (test_bit mask c) [
  | false ↦ scatter w ref mask n (c + 1) bytes
  | true ↦ elim (entity_get_component w.ecs ref c true) [
    | none ↦ none
    | some a ↦ elim (split_bytes (get_component_type_size w.ecs c) bytes) [
      | none ↦ none
      | some (front, back) ↦
          scatter (record w { memory = put_bytes w.memory a front }) ref mask n (c + 1) back
    ]
  ]
]

-- The loop of `snapshot_entities` from entity `i` on, with the bytes so far.
unfoldable pub snapshot_loop : Net → (n i : ℕ) → List ℕ → Option (List ℕ)
snapshot_loop net zero i bytes = some bytes
snapshot_loop net (suc n) i bytes =
    let d = net.entities i in
    let t = net.entity_types d.type in
    elim (is_entity_ref_valid net.world.ecs d.ref true) [
      | false ↦ some bytes
      | true ↦ elim (ltb (t.replicated_size + 8) (mtu - length bytes)) [
        | false ↦ snapshot_loop net n (i + 1) bytes
        | true ↦ elim (gather net.world d.ref t.replicated_component_mask max_component_types 0) [
          | none ↦ none
          | some payload ↦
              snapshot_loop net n (i + 1)
                (bytes ++ (int_bytes d.type ++ (int_bytes d.ref.sequence ++ payload)))
        ]
      ]
    ]

unfoldable pub snapshot_entities : Net → Option Net
snapshot_entities net = do
  bytes ← snapshot_loop net max_net_entities 0 []
  some (record net {
    snapshots =
        update net.snapshots (net.sequence % max_snapshots)
          (record { sequence = net.sequence; contents = bytes });
  })

-- The header of an entity off the front: its type, its sequence number, and the bytes behind.
unfoldable pub read_header : List ℕ → Option (CInt × CInt × List ℕ)
read_header bytes = do
  (type, behind_type) ← read_int bytes
  (sequence, behind) ← read_int behind_type
  some (type, sequence, behind)

-- `memcmp(a, b, n) == 0` on as many bytes.
unfoldable pub same_bytes : List ℕ → List ℕ → Bool
same_bytes [] [] = true
same_bytes (x ∷ xs) (y ∷ ys) = (x == y) && same_bytes xs ys
same_bytes xs ys = false

-- What the loop of `packet_add_entities` finds out about an entity whose bytes are `payload`: whether
-- it differs from the acknowledged snapshot, and what of that snapshot is left.
unfoldable pub compare_acked : CInt → List ℕ → List ℕ → Option (Bool × List ℕ)
compare_acked sequence payload [] = some (true, [])
compare_acked sequence payload (b ∷ acked) = do
  (ack_type, ack_sequence, behind) ← read_header (b ∷ acked)
  elim (ack_sequence == sequence) [
    | false ↦ some (true, b ∷ acked)
    | true ↦ elim (split_bytes (length payload) behind) [
      | none ↦ none
      | some (old, rest) ↦ some (not (same_bytes payload old), rest)
    ]
  ]

-- The bytes of an entity of a packet.
abbrev pub entity_bytes : CInt → CInt → (diff : Bool) → List ℕ → List ℕ
entity_bytes type sequence diff payload =
    int_bytes type
    ++ (int_bytes sequence ++ ((if diff then 1 else 0) ∷ (if diff then payload else [])))

-- The loop of `packet_add_entities`: `size` gives the replicated size of a type. The last argument but
-- one bounds the rounds.
unfoldable pub packet_loop : (CInt → ℕ) → ℕ → (current acked : List ℕ) → List ℕ → Option (List ℕ)
packet_loop size fuel [] acked packet = some packet
packet_loop size zero (b ∷ current) acked packet = none
packet_loop size (suc fuel) (b ∷ current) acked packet = do
  (type, sequence, behind) ← read_header (b ∷ current)
  (payload, rest) ← split_bytes (size type) behind
  (diff, acked') ← compare_acked sequence payload acked
  packet_loop size fuel rest acked' (packet ++ entity_bytes type sequence diff payload)

abbrev pub replicated_size_of : Net → CInt → ℕ
replicated_size_of net type = (net.entity_types type).replicated_size

abbrev pub current_contents : Net → List ℕ
current_contents net = (net.snapshots (net.sequence % max_snapshots)).contents

-- What is compared with: nothing, if the snapshot with the acknowledged number is no longer there.
-- The index `ack_sequence % 256` is that of the unsigned number.
abbrev pub acked_contents : Net → Connection → List ℕ
acked_contents net c =
    let old = net.snapshots (c.ack_sequence % max_snapshots) in
    if old.sequence == c.ack_sequence then old.contents else []

unfoldable pub packet_add_entities : Net → Connection → Option (List ℕ)
packet_add_entities net c =
    packet_loop (replicated_size_of net) (length (current_contents net)) (current_contents net)
      (acked_contents net c) []

-- The packet that `packet_send` puts in the queue of the connection: `size` bytes of an array of 1024. A
-- longer list stands for a packet that is written and sent beyond the end of that array, which in C is
-- undefined.
unfoldable pub packet_send : Net → Connection → Option (List ℕ)
packet_send net c = do
  entities ← packet_add_entities net c
  some (int_bytes net.sequence ++ (int_bytes c.incoming_sequence ++ entities))
