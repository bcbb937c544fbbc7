-- ===== src/Net/Receive.antt =====
-- src/net.c: what a packet does to the receiver's entities, and one frame of the net object.
pub mod Removal
pub mod Sent
pub mod Apply
pub mod Stale
use evil_engine.Base.{
  ℕ, zero, suc, ◌+◌, ◌-◌, ◌%◌, Bool, true, false, not, ◌&&◌, Option, none, some, List, [], ◌∷◌,
  ◌++◌, length, ◌==◌, if◌then◌else◌, ◌>>=◌, CInt, minus_one, add32, le_int, update, find_first,
  for_loop, read_int, split_bytes,
}
use evil_engine.Ecs.{
  Ecs, EntityRef, max_component_types, is_entity_ref_valid, entity_add, entity_remove,
}
use evil_engine.Net.{
  EntityData, Connection, Connections, max_connections, is_old, timeout_old_connections,
}
use evil_engine.Net.Packet.{
  Net, World, EntityType, max_net_entities, scatter, read_header, snapshot_entities, packet_send,
}

-- A connection and the net object, as `packet_read_entities` changes them.
abbrev pub Reader : Type 0
Reader = Connection × Net

abbrev pub set_world : Net → World → Net
set_world net w = record net { world = w }

abbrev pub is_live : Net → EntityRef → Bool
is_live net ref = is_entity_ref_valid net.world.ecs ref true

-- The first loop over the entities of the connection: the reference that belongs to a remote sequence
-- number, and the entry of it marked as seen.
unfoldable pub find_remote : CInt → Reader → EntityRef × Reader
find_remote sequence (c, net) =
    elim (find_first (λ i. (c.entities i).remote_sequence == sequence) max_net_entities 0) [
      | none ↦ (record { entity = minus_one; sequence = 0 }, (c, net))
      | some i ↦ (
        (c.entities i).ref,
        (
          record c {
            entities =
                update c.entities i (record (c.entities i) { last_recved_sequence = net.sequence });
          },
          net,
        ),
      )
    ]

-- A new entity, and the entry that it gets if one is free.
unfoldable pub add_remote : CInt → CInt → Reader → EntityRef × Reader
add_remote type sequence (c, net) =
    let t = net.entity_types type in
    let added = entity_add net.world.ecs t.component_mask in
    let net' = set_world net (t.configure (record net.world { ecs = added.1 }) added.0 type) in
    elim (find_first (λ i. not (is_live net' ((c.entities i).ref))) max_net_entities 0) [
      | none ↦ (added.0, (c, net'))
      | some i ↦ (
        added.0,
        (
          record c {
            entities = update c.entities i (record {
              ref = added.0;
              type = type;
              remote_sequence = sequence;
              last_recved_sequence = net.sequence;
            });
          },
          net',
        ),
      )
    ]

-- The entity that the header of a packet is about.
unfoldable pub resolve : CInt → CInt → Reader → EntityRef × Reader
resolve type sequence r =
    let found = find_remote sequence r in
    if is_live found.1.1 found.0 then found else add_remote type sequence found.1

-- The part of a round behind the header: the byte that says whether components follow, and these.
unfoldable pub read_components : CInt → EntityRef → Reader → List ℕ → Option (Reader × List ℕ)
read_components type ref (c, net) [] = none
read_components type ref (c, net) (b ∷ bytes) = elim (b == 0) [
  | true ↦ some ((c, net), bytes)
  | false ↦
      elim (scatter net.world ref (net.entity_types type).replicated_component_mask
        max_component_types 0 bytes) [
          | none ↦ none
          | some (w, rest) ↦ some ((c, set_world net w), rest)
        ]
]

-- The loop of `packet_read_entities` over the packet. The first argument bounds the rounds.
unfoldable pub read_loop : ℕ → List ℕ → Reader → Option Reader
read_loop fuel [] r = some r
read_loop zero (b ∷ bytes) r = none
read_loop (suc fuel) (b ∷ bytes) r = do
  (type, sequence, behind) ← read_header (b ∷ bytes)
  (r', rest) ← read_components type (resolve type sequence r).0 (resolve type sequence r).1 behind
  read_loop fuel rest r'

-- The last loop: entities of the connection that the packet did not name are removed.
unfoldable pub remove_unseen : Reader → Net
remove_unseen (c, net) =
    for_loop max_net_entities 0
      (λ i n.
        let d = c.entities i in
        if is_live n d.ref && not (d.last_recved_sequence == n.sequence)
        then set_world n (record n.world { ecs = entity_remove n.world.ecs d.ref true })
        else n)
      net

unfoldable pub packet_read_entities : List ℕ → Reader → Option Reader
packet_read_entities bytes r = do
  (c, net) ← read_loop (length bytes) bytes r
  some (c, remove_unseen (c, net))

-- A round of `packet_recv`: a packet that is not newer than the last is dropped.
unfoldable pub receive_packet : List ℕ → Reader → Option Reader
receive_packet packet (c, net) = do
  (sequence, ack_sequence, entities) ← read_header packet
  elim (le_int sequence c.incoming_sequence) [
    | true ↦ some (c, net)
    | false ↦
        packet_read_entities entities
          (record c { incoming_sequence = sequence; ack_sequence = ack_sequence }, net)
  ]

-- `packet_recv` over the packets that wait in the queue: it stops at an empty one. What it leaves in
-- the queue comes last.
unfoldable pub packet_recv : List (List ℕ) → Reader → Option (Reader × List (List ℕ))
packet_recv [] r = some (r, [])
packet_recv ([] ∷ packets) r = some (r, packets)
packet_recv ((b ∷ packet) ∷ packets) r = do
  r' ← receive_packet (b ∷ packet) r
  packet_recv packets r'

-- What a frame keeps besides the net object: the connections, and for each of them the packets that
-- have come and those that were handed to its send thread.
pub record Links : Type 0 where
  pub connections : Connections
  pub received : ℕ → List (List ℕ)
  pub sent : ℕ → List (List ℕ)

unfoldable pub update_connection : ℕ → Net × Links → Option (Net × Links)
update_connection i (net, l) =
    let c = l.connections i in
    elim (c.address.port == 0) [
      | true ↦ some (net, l)
      | false ↦ do
        packet ← packet_send net c
        (r, left) ← packet_recv (l.received i) (c, net)
        some (
          r.1,
          record l {
            connections = update l.connections i r.0;
            received = update l.received i left;
            sent = update l.sent i (l.sent i ++ (packet ∷ []));
          },
        )
    ]

-- `timeout_old_connections` with the queues of the connections that it destroys.
abbrev pub timeout_links : (now : ℕ) → Links → Links
timeout_links now l = record l {
  connections = timeout_old_connections now l.connections;
  received = λ i. if is_old now (l.connections i) then [] else l.received i;
}

-- `net_update`, with the three connections in order.
unfoldable pub net_update : (now : ℕ) → Net × Links → Option (Net × Links)
net_update now (net, l) = do
  net' ← snapshot_entities net
  let timed = timeout_links now l
  first ← update_connection 0 (net', timed)
  second ← update_connection 1 first
  (net3, l3) ← update_connection 2 second
  some (record net3 { sequence = add32 net3.sequence 1 }, l3)
