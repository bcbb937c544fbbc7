-- ===== src/Net/Receive/Apply.antt =====
-- A packet of src/net.c at the receiver: reading its bytes is applying its updates one by one.
use evil_engine.Base.{
  ℕ, zero, suc, ◌+◌, ◌≤◌, ◌<◌, ◌^◌, ◌≡◌, refl, ap, ◌∙◌, arith, Bool, true, false, ◌==◌, Option,
  none, some, if◌then◌else◌, inl, inr, Bool-cases, Option-cases, ◌>>=◌, List, [], ◌∷◌, ◌++◌, length,
  length-append, CInt, put_bytes, le_int, int_bytes, split_bytes, test_bit,
}
use evil_engine.Ecs.{EntityRef, max_component_types, entity_get_component}
use evil_engine.Ecs.Component.{get_component_type_size}
use evil_engine.Net.{Connection}
use evil_engine.Net.Packet.{
  Net, World, replicated_size_of, current_contents, acked_contents, packet_send, scatter,
  entity_bytes,
}
use evil_engine.Net.Packet.Delta.{
  Entity, Update, All, IsEntity, flatten, flatten_updates, delta, read_header-entity,
}
use evil_engine.Net.Packet.Size.{packet_send-delta}
use evil_engine.Net.Receive.{
  Reader, set_world, resolve, read_components, read_loop, remove_unseen, packet_read_entities,
  receive_packet,
}

-- The components of an entity are set to `payload`, which has to be as long as they are.
unfoldable pub store : CInt → EntityRef → List ℕ → Reader → Option Reader
store type ref payload (c, net) =
    elim (scatter net.world ref (net.entity_types type).replicated_component_mask
      max_component_types 0 payload) [
        | none ↦ none
        | some (w, []) ↦ some (c, set_world net w)
        | some (w, b ∷ rest) ↦ none
      ]

-- What an update is meant to do: the entity is looked up, or made, and its components are set if they
-- were sent.
unfoldable pub apply_update : Update → Reader → Option Reader
apply_update u r =
    let found = resolve u.type u.sequence r in
    elim u.diff [ true ↦ store u.type found.0 u.payload found.1 | false ↦ some found.1 ]

unfoldable pub apply_updates : List Update → Reader → Option Reader
apply_updates [] r = some r
apply_updates (u ∷ us) r = do r' ← apply_update u r; apply_updates us r'

-- Bytes behind those that are copied stay behind.
split_bytes-append_ok :
    (n : ℕ) (bytes rest : List ℕ) {front back : List ℕ}
    → split_bytes n bytes ≡ some (front, back)
    → split_bytes n (bytes ++ rest) ≡ some (front, back ++ rest)
unfolding split_bytes
split_bytes-append_ok zero bytes rest e = ground arith
split_bytes-append_ok (suc n) [] rest e = cc
split_bytes-append_ok (suc n) (b ∷ bytes) rest {front} {back} e =
    elim (Option-cases (split_bytes n bytes)) [
      | inl short ↦ ground (arith, short)
      | inr ((f, g), split) ↦ ground (arith, split, split_bytes-append_ok n bytes rest split)
    ]

scatter-append :
    (w : World) (ref : EntityRef) (mask n c : ℕ) (bytes rest : List ℕ) {w' : World} {left : List ℕ}
    → scatter w ref mask n c bytes ≡ some (w', left)
    → scatter w ref mask n c (bytes ++ rest) ≡ some (w', left ++ rest)
unfolding scatter
scatter-append w ref mask zero c bytes rest e = ground arith
scatter-append w ref mask (suc n) c bytes rest {w'} {left} e = elim (Bool-cases (test_bit mask c)) [
  | inr off ↦
      let e' : scatter w ref mask n (c + 1) bytes ≡ some (w', left) = ground (arith, off) in
      ground (arith, off, scatter-append w ref mask n (c + 1) bytes rest e')
  | inl on ↦ elim (Option-cases (entity_get_component w.ecs ref c true)) [
    | inl null ↦ ground (arith, on, null)
    | inr (a, found) ↦ elim (Option-cases (split_bytes (get_component_type_size w.ecs c) bytes)) [
      | inl short ↦ ground (arith, on, found, short)
      | inr ((front, back), split) ↦
          let w1 = record w { memory = put_bytes w.memory a front } in
          let e' : scatter w1 ref mask n (c + 1) back ≡ some (w', left) =
            ground (arith, on, found, split) in
          ground (
            arith,
            on,
            found,
            split_bytes-append_ok (get_component_type_size w.ecs c) bytes rest split,
            scatter-append w1 ref mask n (c + 1) back rest e',
          )
    ]
  ]
]

read_components-store :
    (type : CInt) (ref : EntityRef) (payload rest : List ℕ) (r : Reader) {r' : Reader}
    → store type ref payload r ≡ some r'
    → read_components type ref r (1 ∷ (payload ++ rest)) ≡ some (r', rest)
unfolding store read_components
read_components-store type ref payload rest (c, net) e =
    let mask = (net.entity_types type).replicated_component_mask in
    elim (Option-cases (scatter net.world ref mask max_component_types 0 payload)) [
      | inl short ↦ ground (arith, short)
      | inr ((w, []), done) ↦
          ground
            (arith, done, scatter-append net.world ref mask max_component_types 0 payload rest done)
      | inr ((w, b ∷ left), more) ↦ ground (arith, more)
    ]

-- A round of the loop is an update.
read_loop-update :
    (fuel type sequence : ℕ) (diff : Bool) (payload rest : List ℕ) (r : Reader) {r' : Reader}
    → type < 2 ^ 32
    → sequence < 2 ^ 32
    → apply_update (record { type = type; sequence = sequence; diff = diff; payload = payload }) r
      ≡ some r'
    → read_loop (suc fuel) (entity_bytes type sequence diff payload ++ rest) r
      ≡ read_loop fuel rest r'
unfolding read_loop apply_update
read_loop-update fuel type sequence true payload rest r h k e =
    let found = resolve type sequence r in
    rw
      (
        read_header-entity type sequence (1 ∷ (payload ++ rest)) h k,
        read_components-store type found.0 payload rest found.1 e,
      )
      refl
read_loop-update fuel type sequence false payload rest r {r'} h k e =
    let found = resolve type sequence r in
    let same : found.1 ≡ r' = ground arith in
    rw (read_header-entity type sequence (0 ∷ rest) h k)
      (unfold read_components in ap (read_loop fuel rest) same)

read_loop-updates :
    (us : List Update) (fuel : ℕ) (r : Reader) {r' : Reader}
    → All (λ (u : Update). (u.type < 2 ^ 32) × (u.sequence < 2 ^ 32)) us
    → length us ≤ fuel
    → apply_updates us r ≡ some r'
    → read_loop fuel (flatten_updates us) r ≡ some r'
unfolding apply_updates
read_loop-updates [] fuel r small le e = unfold read_loop in e
read_loop-updates (u ∷ us) zero r small le e = absurd (omega arith)
read_loop-updates (u ∷ us) (suc fuel) r {r'} ((h, k), small) le e =
    elim (Option-cases (apply_update u r)) [
      | inl failed ↦ ground (arith, failed)
      | inr (r1, applied) ↦
          read_loop-update fuel u.type u.sequence u.diff u.payload (flatten_updates us) r h k
            applied
          ∙ read_loop-updates us fuel r1 small (omega arith) (ground (arith, applied))
    ]

abbrev AreSmall : List Update → Type 0
AreSmall us = All (λ (u : Update). (u.type < 2 ^ 32) × (u.sequence < 2 ^ 32)) us

delta-AreSmall :
    (kind : CInt → CInt) (size : CInt → ℕ) (xs acked : List Entity)
    → All (IsEntity kind size) xs
    → AreSmall (delta xs acked)
unfolding delta
delta-AreSmall kind size [] acked h = tt
delta-AreSmall kind size (x ∷ xs) [] (h, hs) =
    ((h.small_type, h.small_sequence), delta-AreSmall kind size xs [] hs)
delta-AreSmall kind size (x ∷ xs) (a ∷ as') (h, hs) = elim (Bool-cases (a.sequence == x.sequence)) [
  | inl hit ↦ rw (hit) ((h.small_type, h.small_sequence), delta-AreSmall kind size xs as' hs)
  | inr miss ↦
      rw (miss) ((h.small_type, h.small_sequence), delta-AreSmall kind size xs (a ∷ as') hs)
]

length-le-flatten_updates : (us : List Update) → length us ≤ length (flatten_updates us)
length-le-flatten_updates [] = omega arith
length-le-flatten_updates (u ∷ us) = omega (
  arith,
  length-le-flatten_updates us,
  length-append (if u.diff then u.payload else []) (flatten_updates us),
)

-- The connection with the numbers of a header.
abbrev pub headed : CInt → CInt → Connection → Connection
headed sequence ack c = record c { incoming_sequence = sequence; ack_sequence = ack }

receive_packet-updates :
    (sequence ack : ℕ) (us : List Update) (d : Connection) (m : Net) {r : Reader}
    → sequence < 2 ^ 32
    → ack < 2 ^ 32
    → AreSmall us
    → le_int sequence d.incoming_sequence ≡ false
    → apply_updates us (headed sequence ack d, m) ≡ some r
    → receive_packet (int_bytes sequence ++ (int_bytes ack ++ flatten_updates us)) (d, m)
      ≡ some (r.0, remove_unseen r)
unfolding receive_packet packet_read_entities
receive_packet-updates sequence ack us d m {r} h k small newer applied =
    let loop =
      read_loop-updates us (length (flatten_updates us)) (headed sequence ack d, m) small
        (length-le-flatten_updates us) applied in
    ground (arith, read_header-entity sequence ack (flatten_updates us) h k, newer, loop)

-- A packet that `packet_send` has built, if its number is newer than the last, is the updates of
-- Delta.delta one by one, and `remove_unseen`.
pub receive_packet-delta :
    (kind : CInt → CInt) (net : Net) (c : Connection) (xs acked : List Entity) (d : Connection)
    (m : Net) (r : Reader)
    → All (IsEntity kind (replicated_size_of net)) xs
    → All (IsEntity kind (replicated_size_of net)) acked
    → current_contents net ≡ flatten xs
    → acked_contents net c ≡ flatten acked
    → net.sequence < 2 ^ 32
    → c.incoming_sequence < 2 ^ 32
    → le_int net.sequence d.incoming_sequence ≡ false
    → apply_updates (delta xs acked) (headed net.sequence c.incoming_sequence d, m) ≡ some r
    → (packet : List ℕ) × (packet_send net c ≡ some packet)
      × (receive_packet packet (d, m) ≡ some (r.0, remove_unseen r))
receive_packet-delta kind net c xs acked d m r hx ha ex ea h k newer applied = (
  _,
  packet_send-delta kind net c xs hx ex acked ha ea,
  receive_packet-updates net.sequence c.incoming_sequence (delta xs acked) d m h k
      (delta-AreSmall kind (replicated_size_of net) xs acked hx) newer applied,
)
