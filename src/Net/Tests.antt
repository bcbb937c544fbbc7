-- ===== src/Net/Tests.antt =====
-- The connections and the packets of src/net.c on small inputs.
use evil_engine.Base.{
  ℕ, zero, suc, inl, ◌+◌, ◌*◌, ◌^◌, ◌==◌, ◌≤◌, ◌<◌, ◌≡◌, refl, arith, true, if◌then◌else◌, some,
  List, [], ◌∷◌, length, CInt, find_first, split_bytes, put_bytes, update,
}
use evil_engine.Ecs.{
  Ecs, active, create, no_entity, is_entity_ref_valid, entity_get_component, component_address,
}
use evil_engine.Net.Packet.{
  Net, EntityType, mtu, packet_add_entities, packet_send, snapshot_entities, gather, scatter,
  current_contents, same_bytes,
}
use evil_engine.Net.Packet.Delta.{
  Entity, IsEntity, flatten, flatten_updates, delta, packet_add_entities_lem,
}
use evil_engine.Net.Packet.Size.{packet_send_bounds, packet_send_overrun}
use evil_engine.Net.Packet.Snapshots.{components_size, IsTold, IsSnapshot, snapshot_entities_lem}
use evil_engine.Net.Receive.{Reader, is_live, receive_packet}
use evil_engine.Net.Receive.Removal.{Removed}
use evil_engine.Net.Receive.Sent.{
  EntryFor, FollowsAll, no_more, one_more, receive_packet-packet_send,
}
use evil_engine.Net.Receive.Apply.{headed, store}
use evil_engine.Net.Receive.Stale.{IsKnown, unchanged_packet}
use evil_engine.Net.{
  Address, Connection, Connections, EntityData, cleared, find_or_create_connection,
}
use evil_engine.Net.Connections.{IsDistinct, Connected, find_or_create_connection_lem}

abbrev somewhere : Address
somewhere = record { ip = 16777343; port = 4000 }

abbrev nobody : Connections
nobody i = cleared

nobody-IsDistinct : IsDistinct nobody
nobody-IsDistinct i j p q used same = absurd (used refl)

find_or_create_connection_lem_example :
    Connected somewhere nobody (find_or_create_connection somewhere 7 nobody)
find_or_create_connection_lem_example =
    find_or_create_connection_lem somewhere 7 nobody (λ e. absurd (omega arith)) nobody-IsDistinct

-- One connection that was last heard of at 100.
abbrev lonely : Connections
lonely i = record cleared { address = record { ip = i; port = 4000 }; last_recv_ms = 100 }

-- A table whose entities all have one component, of four bytes.
abbrev table : Ecs
table = record create {
  sequences = λ i. 5;
  entity_states = λ i. active;
  components = λ t. some 4096;
  component_type_sizes = λ t. 4;
}

abbrev place_type : EntityType
place_type = record {
  component_mask = 1;
  replicated_component_mask = 1;
  configure = λ w ref type. w;
  replicated_size = 4;
}

abbrev entries : ℕ → EntityData
entries zero = record {
  ref = record { entity = 0; sequence = 5 };
  type = 0;
  remote_sequence = 5;
  last_recved_sequence = 0;
}
entries (suc i) = record {
  ref = no_entity;
  type = 0;
  remote_sequence = 0;
  last_recved_sequence = 0;
}

abbrev entity_with : List ℕ → Entity
entity_with payload = record { type = 0; sequence = 5; payload = payload }

abbrev now_there : List Entity
now_there = entity_with (1 ∷ 2 ∷ 3 ∷ 4 ∷ []) ∷ []

abbrev once_there : List Entity
once_there = entity_with (1 ∷ 2 ∷ 3 ∷ 5 ∷ []) ∷ []

-- Frame 8 after a frame 7, of which all others hold nothing.
abbrev frames : (old new : List Entity) → ℕ → List ℕ
frames old new i = if i == 8 then flatten new else if i == 7 then flatten old else []

abbrev host : (old new : List Entity) → Net
host old new = record {
  world = record { ecs = table; memory = λ a. 9 };
  sequence = 8;
  entity_types = λ type. place_type;
  entities = entries;
  snapshots = λ i. record { sequence = i; contents = frames old new i };
}

abbrev peer : Connection
peer = record cleared { incoming_sequence = 3; ack_sequence = 7; entities = entries }

abbrev any_kind : CInt → CInt
any_kind sequence = 0

sized :
    (size : CInt → ℕ) (payload : List ℕ)
    → length payload ≡ size 0
    → IsEntity any_kind size (entity_with payload)
sized size payload h = record {
  small_type = omega arith;
  small_sequence = omega arith;
  of_kind = refl;
  whole = h;
}

packet_add_entities_lem_example :
    packet_add_entities (host once_there now_there) peer
    ≡ some (flatten_updates (delta now_there once_there))
packet_add_entities_lem_example =
    packet_add_entities_lem any_kind (host once_there now_there) peer now_there once_there
      (sized _ _ refl, tt) (sized _ _ refl, tt) refl refl

packet_send_bounds_example :
    (packet : List ℕ) × (packet_send (host once_there now_there) peer ≡ some packet)
    × (8 + 9 * length now_there ≤ length packet)
    × (length packet ≤ 8 + length (current_contents (host once_there now_there)) + length now_there)
packet_send_bounds_example =
    packet_send_bounds any_kind (host once_there now_there) peer now_there (sized _ _ refl, tt) refl
      once_there (sized _ _ refl, tt) refl

abbrev blank : ℕ → List ℕ
blank zero = []
blank (suc n) = 0 ∷ blank n

abbrev large : List Entity
large = entity_with (blank 1009) ∷ []

abbrev large_host : Net
large_host = record (host [] large) {
  entity_types = λ type. record place_type { replicated_size = 1009 };
}

packet_send_overrun_example :
    (packet : List ℕ) × (packet_send large_host peer ≡ some packet) × (mtu < length packet)
packet_send_overrun_example =
    packet_send_overrun any_kind large_host peer large (sized _ _ refl, tt) refl refl (omega arith)

complete :
    (i : ℕ)
    → is_live (host [] []) ((entries i).ref) ≡ true
    → (p : List ℕ) × (gather (host [] []).world ((entries i).ref) 1 64 0 ≡ some p)
unfolding gather entity_get_component is_entity_ref_valid
complete zero live = (_, refl)
complete (suc i) live = absurd (grind arith)

small_type : (i : ℕ) → (entries i).type < 2 ^ 32
small_type zero = omega arith
small_type (suc i) = omega arith

small_sequence : (i : ℕ) → (entries i).ref.sequence < 2 ^ 32
small_sequence zero = omega arith
small_sequence (suc i) = omega arith

of_kind : (i : ℕ) → (entries i).type ≡ any_kind ((entries i).ref.sequence)
of_kind zero = refl
of_kind (suc i) = refl

sizes : components_size table 1 64 0 ≡ 4
unfolding components_size
sizes = refl

told : IsTold any_kind (host [] [])
told = record {
  sizes = λ type. sizes;
  small_type = small_type;
  small_sequence = small_sequence;
  of_kind = of_kind;
  complete = complete;
}

snapshot_entities_lem_example :
    (net' : Net) × (snapshot_entities (host [] []) ≡ some net')
    × IsSnapshot any_kind (host [] []) (current_contents net')
    × (net'.world ≡ (host [] []).world)
    × (net'.entities ≡ entries)
snapshot_entities_lem_example = snapshot_entities_lem any_kind (host [] []) told

-- The receiver, that has seen packet 7.
abbrev guest : Connection
guest = record peer { incoming_sequence = 7; ack_sequence = 2 }

abbrev guest_seen : Connection
guest_seen = record (headed 8 3 guest) {
  entities = update entries 0 (record (entries 0) { last_recved_sequence = 8 });
}

abbrev guest_net : Net
guest_net = record (host [] []) {
  world = record { ecs = table; memory = put_bytes (λ a. 9) 4096 (1 ∷ 2 ∷ 3 ∷ 4 ∷ []) };
}

first_entry : EntryFor (headed 8 3 guest) 5 0
first_entry = record {
  above = omega arith;
  below = omega arith;
  passes = refl;
  earliest = λ k p q. absurd (omega arith);
}

followed :
    FollowsAll (delta now_there once_there) (headed 8 3 guest, host [] []) (guest_seen, guest_net)
unfolding delta store scatter is_entity_ref_valid entity_get_component split_bytes same_bytes
    component_address
followed =
    one_more
      (record {
        ref = (entries 0).ref;
        between = (guest_seen, host [] []);
        entity =
            inl record { entry = 0; first = first_entry; live = refl; is_it = refl; after = refl };
        components = refl;
      })
      no_more

receive_packet-packet_send_example :
    (packet : List ℕ) × (after : Net) × (packet_send (host once_there now_there) peer ≡ some packet)
    × (length packet ≤ mtu)
    × (receive_packet packet (guest, host [] []) ≡ some (guest_seen, after))
    × Removed (guest_seen, guest_net) after
unfolding delta same_bytes split_bytes
receive_packet-packet_send_example =
    receive_packet-packet_send any_kind (host once_there now_there) peer now_there once_there guest
      (host [] []) (guest_seen, guest_net) (sized _ _ refl, tt) (sized _ _ refl, tt) refl refl
      (omega arith) (omega arith) (omega arith) refl followed

known : IsKnown guest (host [] []) (entity_with (1 ∷ 2 ∷ 3 ∷ 4 ∷ []))
unfolding find_first is_entity_ref_valid
known = record { place = 0; first = refl; live = refl }

-- The sender's entity is 1 2 3 4 in frames 7 and 8, and the receiver's is 9 9 9 9.
unchanged_packet_example :
    (packet : List ℕ) × (r : Reader) × (packet_send (host now_there now_there) peer ≡ some packet)
    × (receive_packet packet (guest, host [] []) ≡ some r)
    × (r.1.world.memory ≡ (λ a. 9))
unchanged_packet_example =
    unchanged_packet any_kind (host now_there now_there) peer now_there guest (host [] [])
      (sized _ _ refl, tt) refl refl (omega arith) (omega arith) refl (known, tt)
