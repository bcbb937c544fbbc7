-- ===== src/Net/Packet/Size.antt =====
-- How long a packet of src/net.c is, whose array has room for 1024 bytes.
use evil_engine.Base.{
  ℕ, ◌+◌, ◌*◌, ◌≤◌, ◌<◌, ◌≡◌, refl, ap, arith, Bool, true, false, ◌==◌, some, inl, inr, Bool-cases,
  List, [], ◌∷◌, ◌++◌, length, length-append, CInt, int_bytes,
}
use evil_engine.Net.{Connection}
use evil_engine.Net.Packet.{
  Net, mtu, replicated_size_of, current_contents, acked_contents, packet_send,
}
use evil_engine.Net.Packet.Delta.{
  Entity, Update, All, IsEntity, flatten, flatten_updates, update_of, delta,
  packet_add_entities_lem,
}

-- The bounds for a list of entities and the updates that are sent for them.
record IsBounded (xs : List Entity) (us : List Update) : Type 0 where
  least : 9 * length xs ≤ length (flatten_updates us)
  most : length (flatten_updates us) ≤ length (flatten xs) + length xs

IsBounded-cons :
    (diff : Bool) (x : Entity) (xs : List Entity) (us : List Update)
    → IsBounded xs us
    → IsBounded (x ∷ xs) (update_of diff x ∷ us)
IsBounded-cons true x xs us b = record {
  least = omega (arith, b.least, length-append x.payload (flatten_updates us));
  most = omega (
    arith,
    b.most,
    length-append x.payload (flatten_updates us),
    length-append x.payload (flatten xs),
  );
}
IsBounded-cons false x xs us b = record {
  least = omega (arith, b.least);
  most = omega (arith, b.most, length-append x.payload (flatten xs));
}

delta-IsBounded : (xs acked : List Entity) → IsBounded xs (delta xs acked)
unfolding delta
delta-IsBounded [] acked = record { least = omega arith; most = omega arith }
delta-IsBounded (x ∷ xs) [] = IsBounded-cons true x xs _ (delta-IsBounded xs [])
delta-IsBounded (x ∷ xs) (a ∷ as') = elim (Bool-cases (a.sequence == x.sequence)) [
  | inl hit ↦ rw (hit) (IsBounded-cons _ x xs _ (delta-IsBounded xs as'))
  | inr miss ↦ rw (miss) (IsBounded-cons true x xs _ (delta-IsBounded xs (a ∷ as')))
]

delta-length_unacked :
    (xs : List Entity) → length (flatten_updates (delta xs [])) ≡ length (flatten xs) + length xs
unfolding delta
delta-length_unacked [] = refl
delta-length_unacked (x ∷ xs) = omega (
  arith,
  delta-length_unacked xs,
  length-append x.payload (flatten xs),
  length-append x.payload (flatten_updates (delta xs [])),
)

module _ (kind : CInt → CInt) (net : Net) (c : Connection) (xs : List Entity)
    (entities : All (IsEntity kind (replicated_size_of net)) xs)
    (current : current_contents net ≡ flatten xs) where
  pub packet_send-delta :
      (acked : List Entity)
      → All (IsEntity kind (replicated_size_of net)) acked
      → acked_contents net c ≡ flatten acked
      → packet_send net c
        ≡ some (
            int_bytes net.sequence
            ++ (int_bytes c.incoming_sequence ++ flatten_updates (delta xs acked)))
  unfolding packet_send
  packet_send-delta acked ha ea =
      rw (packet_add_entities_lem kind net c xs acked entities ha current ea) refl

  -- For snapshots as in Delta.packet_add_entities_lem, `packet_send` sends a packet, which has 8 bytes
  -- and for each entity 9 more at least, and at most the snapshot, 8 bytes, and one for each entity.
  pub packet_send_bounds :
      (acked : List Entity)
      → All (IsEntity kind (replicated_size_of net)) acked
      → acked_contents net c ≡ flatten acked
      → (packet : List ℕ) × (packet_send net c ≡ some packet)
        × (8 + 9 * length xs ≤ length packet)
        × (length packet ≤ 8 + length (current_contents net) + length xs)
  packet_send_bounds acked ha ea =
      let b = delta-IsBounded xs acked in
      (
        _,
        packet_send-delta acked ha ea,
        omega (arith, b.least),
        omega (arith, b.most, ap length current),
      )

  -- With nothing acknowledged, a snapshot of more than 1016 bytes less its number of entities makes a
  -- packet that is longer than the 1024 bytes of its array, although such a snapshot fits its own.
  pub packet_send_overrun :
      acked_contents net c ≡ []
      → 1016 < length (current_contents net) + length xs
      → (packet : List ℕ) × (packet_send net c ≡ some packet) × (mtu < length packet)
  packet_send_overrun ea long =
      (_, packet_send-delta [] tt ea, omega (arith, delta-length_unacked xs, ap length current))
