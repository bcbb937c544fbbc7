-- ===== src/Net/Receive/Stale.antt =====
-- What src/net.c sends of an entity that is as it was in the acknowledged snapshot.
use evil_engine.Base.{
  ℕ, ◌<◌, ◌^◌, ◌≡◌, refl, ap, ◌∙◌, arith, Bool, true, false, not, ◌&&◌, ◌==◌, some, if◌then◌else◌,
  inl, inr, Bool-cases, List, [], ◌∷◌, map, CInt, le_int, update, find_first, fun_ext,
  for_loop-same,
}
use evil_engine.Ecs.{Ecs, EntityRef, entity_remove}
use evil_engine.Net.{Connection, EntityData}
use evil_engine.Net.Packet.{
  Net, replicated_size_of, current_contents, acked_contents, packet_send, same_bytes,
  max_net_entities,
}
use evil_engine.Net.Packet.Delta.{Entity, Update, All, IsEntity, flatten, update_of, delta}
use evil_engine.Net.Receive.{
  Reader, is_live, set_world, find_remote, add_remote, resolve, remove_unseen, receive_packet,
}
use evil_engine.Net.Receive.Apply.{apply_update, apply_updates, headed, receive_packet-delta}

abbrev with_sequence : (ℕ → EntityData) → CInt → ℕ → Bool
with_sequence entities sequence i = (entities i).remote_sequence == sequence

-- The connection has an entry for the entity, whose reference is good.
pub record IsKnown (c : Connection) (m : Net) (x : Entity) : Type 0 where
  pub place : ℕ
  pub first : find_first (with_sequence c.entities x.sequence) max_net_entities 0 ≡ some place
  pub live : is_live m ((c.entities place).ref) ≡ true

-- The connection with an entry marked as seen.
abbrev seen : Connection → ℕ → CInt → Connection
seen c i sequence = record c {
  entities = update c.entities i (record (c.entities i) { last_recved_sequence = sequence });
}

seen-ref :
    (c : Connection) (i j : ℕ) (s : CInt) → ((seen c i s).entities j).ref ≡ (c.entities j).ref
seen-ref c i j s = elim (Bool-cases (i == j)) [
  | inl hit ↦ let e : i ≡ j = ground arith in rw (hit) (ap (λ (k : ℕ). (c.entities k).ref) e)
  | inr miss ↦ rw (miss) refl
]

seen-remote :
    (c : Connection) (i j : ℕ) (s : CInt)
    → ((seen c i s).entities j).remote_sequence ≡ (c.entities j).remote_sequence
seen-remote c i j s = elim (Bool-cases (i == j)) [
  | inl hit ↦
      let e : i ≡ j = ground arith in rw (hit) (ap (λ (k : ℕ). (c.entities k).remote_sequence) e)
  | inr miss ↦ rw (miss) refl
]

seen-IsKnown :
    (c : Connection) (m : Net) (i : ℕ) (s : CInt) (x : Entity)
    → IsKnown c m x
    → IsKnown (seen c i s) m x
seen-IsKnown c m i s x k = record {
  place = k.place;
  first =
      ap (λ (t : ℕ → Bool). find_first t max_net_entities 0)
        (fun_ext (λ j. ap (λ (n : ℕ). n == x.sequence) (seen-remote c i j s)))
      ∙ k.first;
  live = ap (is_live m) (seen-ref c i k.place s) ∙ k.live;
}

find_remote-known :
    (c : Connection) (m : Net) (x : Entity) (k : IsKnown c m x)
    → find_remote x.sequence (c, m) ≡ ((c.entities k.place).ref, (seen c k.place m.sequence, m))
unfolding find_remote
find_remote-known c m x k = rw (find_remote, k.first) refl

resolve-known :
    (c : Connection) (m : Net) (x : Entity) (k : IsKnown c m x)
    → (resolve x.type x.sequence (c, m)).1 ≡ (seen c k.place m.sequence, m)
unfolding resolve
resolve-known c m x k =
    rw (find_remote-known c m x k)
      (ap (λ (b : Bool). (if b then found else add_remote x.type x.sequence found.1).1) k.live)
  where
    found : EntityRef × Reader
    found = ((c.entities k.place).ref, (seen c k.place m.sequence, m))

headed-IsKnown :
    (s a : CInt) (d : Connection) (m : Net) (xs : List Entity)
    → All (IsKnown d m) xs
    → All (IsKnown (headed s a d) m) xs
headed-IsKnown s a d m [] h = tt
headed-IsKnown s a d m (x ∷ xs) (k, ks) =
    (record { place = k.place; first = k.first; live = k.live }, headed-IsKnown s a d m xs ks)

apply_update-same :
    (c : Connection) (m : Net) (x : Entity) (k : IsKnown c m x)
    → apply_update (update_of false x) (c, m) ≡ some (seen c k.place m.sequence, m)
unfolding apply_update
apply_update-same c m x k = ap some (resolve-known c m x k)

same_bytes_refl : (bytes : List ℕ) → same_bytes bytes bytes ≡ true
unfolding same_bytes
same_bytes_refl [] = refl
same_bytes_refl (b ∷ bytes) = ground (arith, same_bytes_refl bytes)

delta-same : (xs : List Entity) → delta xs xs ≡ map (update_of false) xs
unfolding delta
delta-same [] = refl
delta-same (x ∷ xs) =
    let hit : (x.sequence == x.sequence) ≡ true = ground arith in
    rw (hit, same_bytes_refl x.payload)
      (ap (λ (us : List Update). update_of false x ∷ us) (delta-same xs))

apply_updates-same :
    (xs : List Entity) (c : Connection) (m : Net)
    → All (IsKnown c m) xs
    → (c' : Connection) × (apply_updates (map (update_of false) xs) (c, m) ≡ some (c', m))
unfolding apply_updates
apply_updates-same [] c m h = (c, refl)
apply_updates-same (x ∷ xs) c m (k, ks) =
    let (c', rest) = apply_updates-same xs (seen c k.place m.sequence) m (still xs ks) in
    (c', rw (apply_update-same c m x k) rest)
  where
    still :
        (ys : List Entity) → All (IsKnown c m) ys → All (IsKnown (seen c k.place m.sequence) m) ys
    still [] h = tt
    still (y ∷ ys) (h, hs) = (seen-IsKnown c m k.place m.sequence y h, still ys hs)

remove_unseen-memory :
    (c : Connection) (m : Net) → (remove_unseen (c, m)).world.memory ≡ m.world.memory
unfolding remove_unseen
remove_unseen-memory c m =
    for_loop-same (λ (n : Net). n.world.memory) _
      (λ k n.
        keep
          (is_live n ((c.entities k).ref)
            && not ((c.entities k).last_recved_sequence == n.sequence))
          n (entity_remove n.world.ecs ((c.entities k).ref) true))
      max_net_entities 0 m
  where
    keep :
        (b : Bool) (n : Net) (e : Ecs)
        → (if b then set_world n (record n.world { ecs = e }) else n).world.memory ≡ n.world.memory
    keep true n e = refl
    keep false n e = refl

-- If every entity of the snapshot is as it was in the acknowledged one, the packet changes no
-- component of a receiver that knows them all, whatever its components hold: so a receiver that has
-- read a snapshot in between keeps that one's values, and they differ from the sender's.
pub unchanged_packet :
    (kind : CInt → CInt) (net : Net) (c : Connection) (xs : List Entity) (d : Connection) (m : Net)
    → All (IsEntity kind (replicated_size_of net)) xs
    → current_contents net ≡ flatten xs
    → acked_contents net c ≡ flatten xs
    → net.sequence < 2 ^ 32
    → c.incoming_sequence < 2 ^ 32
    → le_int net.sequence d.incoming_sequence ≡ false
    → All (IsKnown d m) xs
    → (packet : List ℕ) × (r : Reader) × (packet_send net c ≡ some packet)
      × (receive_packet packet (d, m) ≡ some r)
      × (r.1.world.memory ≡ m.world.memory)
unchanged_packet kind net c xs d m hx ex ea h k newer known =
    let d0 = headed net.sequence c.incoming_sequence d in
    let (c', applied) =
      apply_updates-same xs d0 m (headed-IsKnown net.sequence c.incoming_sequence d m xs known) in
    let (packet, sent, got) =
      receive_packet-delta kind net c xs xs d m (c', m) hx hx ex ea h k newer
        (rw (delta-same xs) applied) in
    (packet, _, sent, got, remove_unseen-memory c' m)
