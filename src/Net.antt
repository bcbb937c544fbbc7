-- ===== src/Net.antt =====
-- src/net.c: the connections and the replicated entities of a net object.
-- A connection's queues and its send thread are left to src/queue.c: what is kept of them here is
-- what the code reads without them. `now` is the time in milliseconds when the function is called.
pub mod Connections
pub mod Packet
pub mod Receive
mod Tests
use evil_engine.Base.{
  ℕ, ◌+◌, Bool, true, false, ◌&&◌, not, Option, none, some, ◌==◌, ltb, if◌then◌else◌, CInt,
  minus_one, add32, update, find_first, for_loop,
}
use evil_engine.Ecs.{EntityRef}

-- `k_timeout_ms` and the sizes of the arrays.
abbrev pub timeout_ms : ℕ
timeout_ms = 5000

abbrev pub max_connections : ℕ
max_connections = 3

-- `net_address_t`, its four bytes of `ip` read as one number.
pub record Address : Type 0 where
  pub ip : ℕ
  pub port : ℕ

-- `memcmp(&a, &b, sizeof(net_address_t)) == 0`
abbrev pub same_address : Address → Address → Bool
same_address a b = (a.ip == b.ip) && (a.port == b.port)

pub record EntityData : Type 0 where
  pub ref : EntityRef
  pub type : CInt
  pub remote_sequence : CInt
  pub last_recved_sequence : CInt

pub record Connection : Type 0 where
  pub address : Address
  pub incoming_sequence : CInt
  pub ack_sequence : CInt
  pub last_recv_ms : ℕ
  pub entities : ℕ → EntityData

-- `memset(c, 0, sizeof(*c))`
abbrev pub cleared : Connection
cleared = record {
  address = record { ip = 0; port = 0 };
  incoming_sequence = 0;
  ack_sequence = 0;
  last_recv_ms = 0;
  entities = λ i. record {
    ref = record { entity = 0; sequence = 0 };
    type = 0;
    remote_sequence = 0;
    last_recved_sequence = 0;
  };
}

abbrev pub Connections : Type 0
Connections = ℕ → Connection

-- The slot that `find_or_create_connection` takes for a new address.
unfoldable pub create_connection : Address → (now : ℕ) → Connection → Connection
create_connection address now c = record c {
  address = address;
  incoming_sequence = minus_one;
  ack_sequence = minus_one;
  last_recv_ms = now;
}

unfoldable pub find_or_create_connection :
    Address → (now : ℕ) → Connections → Option ℕ × Connections
find_or_create_connection address now cs =
    elim (find_first (λ i. same_address (cs i).address address) max_connections 0) [
      | some i ↦ (some i, cs)
      | none ↦ elim (find_first (λ i. (cs i).address.port == 0) max_connections 0) [
        | some i ↦ (some i, update cs i (create_connection address now (cs i)))
        | none ↦ (none, cs)
      ]
    ]

-- One round of `recv_thread_func` for a packet of `address`: whose queue it is offered to, if any.
unfoldable pub receive : Address → (now : ℕ) → Connections → Option ℕ × Connections
receive address now cs =
    let found = find_or_create_connection address now cs in
    elim found.0 [
      | none ↦ (none, found.1)
      | some i ↦ (some i, update found.1 i (record (found.1 i) { last_recv_ms = now }))
    ]

-- `c->address.port && c->last_recv_ms + k_timeout_ms < now`
abbrev pub is_old : (now : ℕ) → Connection → Bool
is_old now c = not (c.address.port == 0) && ltb (add32 c.last_recv_ms timeout_ms) now

unfoldable pub timeout_old_connections : (now : ℕ) → Connections → Connections
timeout_old_connections now =
    for_loop max_connections 0 (λ i cs. update cs i (if is_old now (cs i) then cleared else cs i))

unfoldable pub net_disconnect_all : Connections → Connections
net_disconnect_all = for_loop max_connections 0 (λ i cs. update cs i cleared)
