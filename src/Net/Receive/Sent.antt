-- ===== src/Net/Receive/Sent.antt =====
-- A packet of src/net.c from its sender to its receiver, beside a description of what it asks for.
use mathlib.Core.Path.{ap₂}
use evil_engine.Base.{
  minus_one, int_bytes, ◌++◌, ℕ, ◌+◌, ◌≤◌, ◌<◌, ◌≡◌, ◌⊎◌, refl, ap, ◌∙◌, sym, arith, Bool, true,
  false, not, ◌==◌, ◌^◌, none, some, inl, inr, Option-cases, List, [], ◌∷◌, length, CInt, le_int,
  update, find_first, FoundAt, find_first-some, find_first_of_FoundAt, if◌then◌else◌,
}
use evil_engine.Ecs.{EntityRef, entity_add, is_entity_ref_valid}
use evil_engine.Net.{Connection}
use evil_engine.Net.Packet.{
  Net, mtu, replicated_size_of, current_contents, acked_contents, packet_send, max_net_entities,
}
use evil_engine.Net.Packet.Delta.{Entity, Update, All, IsEntity, flatten, flatten_updates, delta}
use evil_engine.Net.Packet.Size.{packet_send-delta}
use evil_engine.Net.Receive.{
  Reader, is_live, set_world, find_remote, add_remote, resolve, remove_unseen, receive_packet,
}
use evil_engine.Net.Receive.Apply.{store, apply_update, apply_updates, headed, receive_packet-delta}
use evil_engine.Net.Receive.Removal.{Removed, remove_unseen-Removed}

-- The first entry of the connection for a remote sequence number.
abbrev pub EntryFor : Connection → CInt → ℕ → Type 0
EntryFor c sequence i =
    FoundAt (λ j. (c.entities j).remote_sequence == sequence) max_net_entities 0 i

-- An entry is marked as seen in this frame.
abbrev pub marked : Reader → ℕ → Reader
marked (c, net) i = (
  record c {
    entities = update c.entities i (record (c.entities i) { last_recved_sequence = net.sequence });
  },
  net,
)

-- The connection has an entry for the remote entity, whose reference is good: this is the entity, and the
-- entry is marked.
pub record Known (sequence : CInt) (r : Reader) (ref : EntityRef) (r' : Reader) : Type 0 where
  pub entry : ℕ
  pub first : EntryFor r.0 sequence entry
  pub live : is_live r.1 ((r.0.entities entry).ref) ≡ true
  pub is_it : (r.0.entities entry).ref ≡ ref
  pub after : marked r entry ≡ r'

-- It has no entry for it, or one whose reference is no longer good, which is marked all the same.
abbrev pub Unknown : CInt → Reader → Reader → Type 0
Unknown sequence r r' =
    (((j : ℕ) → j < max_net_entities → ((r.0.entities j).remote_sequence == sequence) ≡ false)
      × (r ≡ r'))
    ⊎ ((entry : ℕ) × EntryFor r.0 sequence entry
        × (is_live r.1 ((r.0.entities entry).ref) ≡ false)
        × (marked r entry ≡ r'))

-- The world with the new entity for the type.
abbrev pub spawned : CInt → Net → EntityRef × Net
spawned type net =
    let t = net.entity_types type in
    let added = entity_add net.world.ecs t.component_mask in
    (added.0, set_world net (t.configure (record net.world { ecs = added.1 }) added.0 type))

-- An entity of the type is added, and the first entry whose reference is not good is for it, if there is
-- one.
abbrev pub Entered : CInt → CInt → Reader → Reader → Type 0
Entered type sequence (c, net) (c', net') =
    (((j : ℕ) → j < max_net_entities → is_live (spawned type net).1 ((c.entities j).ref) ≡ true)
      × (c ≡ c'))
    ⊎ ((entry : ℕ) × FoundAt (λ j. not (is_live (spawned type net).1 ((c.entities j).ref)))
          max_net_entities 0 entry
        × (record c {
          entities = update c.entities entry (record {
            ref = (spawned type net).0;
            type = type;
            remote_sequence = sequence;
            last_recved_sequence = net.sequence;
          });
        }
            ≡ c'))

pub record Made (type sequence : CInt) (r : Reader) (ref : EntityRef) (r' : Reader) : Type 0 where
  pub looked : Reader
  pub unknown : Unknown sequence r looked
  pub is_it : (spawned type looked.1).0 ≡ ref
  pub world : (spawned type looked.1).1 ≡ r'.1
  pub entered : Entered type sequence looked r'

-- What one update asks for: the entity is the known one or a new one, and its components are set if they
-- were sent.
pub record Follows (u : Update) (r r' : Reader) : Type 0 where
  pub ref : EntityRef
  pub between : Reader
  pub entity : Known u.sequence r ref between ⊎ Made u.type u.sequence r ref between
  pub components : (if u.diff then store u.type ref u.payload between else some between) ≡ some r'

-- All updates in order.
pub data FollowsAll : List Update → Reader → Reader → Type 0 where
  no_more : {r : Reader} → FollowsAll [] r r
  one_more :
      {u : Update} {us : List Update} {r r' r'' : Reader}
      → Follows u r r'
      → FollowsAll us r' r''
      → FollowsAll (u ∷ us) r r''

find_first_of_none :
    (test : ℕ → Bool) (n : ℕ) → ((j : ℕ) → j < n → test j ≡ false) → find_first test n 0 ≡ none
find_first_of_none test n all = elim (Option-cases (find_first test n 0)) [
  | inl e ↦ e
  | inr (j, e) ↦
      let f = find_first-some test n 0 e in
      absurd (ground (arith, f.passes, all j (omega (arith, f.below))))
]

find_remote-EntryFor :
    (sequence : CInt) (c : Connection) (net : Net) (i : ℕ)
    → EntryFor c sequence i
    → find_remote sequence (c, net) ≡ ((c.entities i).ref, marked (c, net) i)
unfolding find_remote
find_remote-EntryFor sequence c net i f =
    rw
      (
        find_first_of_FoundAt (λ j. (c.entities j).remote_sequence == sequence) max_net_entities 0 i
            f,
        find_remote,
      )
      refl

resolve-live :
    (type sequence : CInt) (r : Reader) (found : EntityRef × Reader)
    → find_remote sequence r ≡ found
    → is_live found.1.1 found.0 ≡ true
    → resolve type sequence r ≡ found
unfolding resolve
resolve-live type sequence r found e live = rw (e) (rw (live) refl)

resolve-dead :
    (type sequence : CInt) (r : Reader) (found : EntityRef × Reader)
    → find_remote sequence r ≡ found
    → is_live found.1.1 found.0 ≡ false
    → resolve type sequence r ≡ add_remote type sequence found.1
unfolding resolve
resolve-dead type sequence r found e dead = rw (e) (rw (dead) refl)

resolve-Known :
    (type sequence : CInt) (c : Connection) (net : Net) (ref : EntityRef) (r' : Reader)
    → Known sequence (c, net) ref r'
    → resolve type sequence (c, net) ≡ (ref, r')
resolve-Known type sequence c net ref r' k =
    resolve-live type sequence (c, net) _ (find_remote-EntryFor sequence c net k.entry k.first)
      k.live
    ∙ ap₂ (λ (a : EntityRef) (b : Reader). (a, b)) k.is_it k.after

find_remote-none :
    (sequence : CInt) (c : Connection) (net : Net)
    → ((j : ℕ) → j < max_net_entities → ((c.entities j).remote_sequence == sequence) ≡ false)
    → find_remote sequence (c, net) ≡ (record { entity = minus_one; sequence = 0 }, (c, net))
unfolding find_remote
find_remote-none sequence c net none_such =
    rw
      (
        find_first_of_none (λ j. (c.entities j).remote_sequence == sequence) max_net_entities
            none_such,
        find_remote,
      )
      refl

no_ref-dead : (net : Net) → is_live net (record { entity = minus_one; sequence = 0 }) ≡ false
unfolding is_entity_ref_valid
no_ref-dead net = refl

resolve-Unknown :
    (type sequence : CInt) (c : Connection) (net : Net) (looked : Reader)
    → Unknown sequence (c, net) looked
    → resolve type sequence (c, net) ≡ add_remote type sequence looked
resolve-Unknown type sequence c net looked (inl (none_such, same)) =
    resolve-dead type sequence (c, net) _ (find_remote-none sequence c net none_such)
      (no_ref-dead net)
    ∙ ap (add_remote type sequence) same
resolve-Unknown type sequence c net looked (inr (entry, first, dead, after)) =
    resolve-dead type sequence (c, net) _ (find_remote-EntryFor sequence c net entry first) dead
    ∙ ap (add_remote type sequence) after

add_remote-Entered :
    (type sequence : CInt) (c c' : Connection) (net net' : Net)
    → (spawned type net).1 ≡ net'
    → Entered type sequence (c, net) (c', net')
    → add_remote type sequence (c, net) ≡ ((spawned type net).0, (c', net'))
unfolding add_remote
add_remote-Entered type sequence c c' net net' world (inl (all_live, same)) =
    rw
      (
        find_first_of_none (λ j. not (is_live (spawned type net).1 ((c.entities j).ref)))
            max_net_entities (λ j h. ap not (all_live j h)),
        add_remote,
      )
      (ap₂ (λ (a : Connection) (b : Net). ((spawned type net).0, (a, b))) same world)
add_remote-Entered type sequence c c' net net' world (inr (entry, first, after)) =
    rw
      (
        find_first_of_FoundAt (λ j. not (is_live (spawned type net).1 ((c.entities j).ref)))
            max_net_entities 0 entry first,
        add_remote,
      )
      (ap₂ (λ (a : Connection) (b : Net). ((spawned type net).0, (a, b))) after world)

resolve-Made :
    (type sequence : CInt) (c : Connection) (net : Net) (ref : EntityRef) (r' : Reader)
    → Made type sequence (c, net) ref r'
    → resolve type sequence (c, net) ≡ (ref, r')
resolve-Made type sequence c net ref (c', net') m =
    resolve-Unknown type sequence c net m.looked m.unknown
    ∙ add_remote-Entered type sequence m.looked.0 c' m.looked.1 net' m.world m.entered
    ∙ ap (λ (a : EntityRef). (a, (c', net'))) m.is_it

apply_update-Follows : (u : Update) (r r' : Reader) → Follows u r r' → apply_update u r ≡ some r'
unfolding apply_update
apply_update-Follows u (c, net) r' f =
    let found : resolve u.type u.sequence (c, net) ≡ (f.ref, f.between) = elim (f.entity) [
      | inl k ↦ resolve-Known u.type u.sequence c net f.ref f.between k
      | inr m ↦ resolve-Made u.type u.sequence c net f.ref f.between m
    ] in
    parts found u.diff f.components
  where
    parts :
        resolve u.type u.sequence (c, net) ≡ (f.ref, f.between)
        → (diff : Bool)
        → (if diff then store u.type f.ref u.payload f.between else some f.between) ≡ some r'
        → (let found = resolve u.type u.sequence (c, net) in
            elim diff [ true ↦ store u.type found.0 u.payload found.1 | false ↦ some found.1 ])
          ≡ some r'
    parts found true e = ap (λ (p : EntityRef × Reader). store u.type p.0 u.payload p.1) found ∙ e
    parts found false e = ap (λ (p : EntityRef × Reader). some p.1) found ∙ e

apply_updates-FollowsAll :
    (us : List Update) (r r' : Reader) → FollowsAll us r r' → apply_updates us r ≡ some r'
unfolding apply_updates
apply_updates-FollowsAll [] r r' no_more = refl
apply_updates-FollowsAll (u ∷ us) r r' (one_more {r' = next} f fs) =
    rw (apply_update-Follows u r next f) (apply_updates-FollowsAll us next r' fs)

-- A packet of at most the 1024 bytes of its array that `packet_send` has built is accepted by
-- `packet_recv` if its number is newer than the last, and the receiver is then what it asks for, which
-- has to be possible for it: for each update of Delta.delta in order the entity is the one of the first
-- entry with the remote number, if its reference is good, and else a new one, which is entered for that
-- number if an entry is free, and its components are set if they were sent. Then exactly the entities of
-- the entries that are good and were not seen in this frame are marked to be removed, and with that no
-- sequence number of an entity, no set of components and no byte of memory changes.
pub receive_packet-packet_send :
    (kind : CInt → CInt) (net : Net) (c : Connection) (xs acked : List Entity) (d : Connection)
    (m : Net) (r : Reader)
    → All (IsEntity kind (replicated_size_of net)) xs
    → All (IsEntity kind (replicated_size_of net)) acked
    → current_contents net ≡ flatten xs
    → acked_contents net c ≡ flatten acked
    → net.sequence < 2 ^ 32
    → c.incoming_sequence < 2 ^ 32
    → length (flatten_updates (delta xs acked)) + 8 ≤ mtu
    → le_int net.sequence d.incoming_sequence ≡ false
    → FollowsAll (delta xs acked) (headed net.sequence c.incoming_sequence d, m) r
    → (packet : List ℕ) × (after : Net) × (packet_send net c ≡ some packet)
      × (length packet ≤ mtu)
      × (receive_packet packet (d, m) ≡ some (r.0, after))
      × Removed r after
receive_packet-packet_send kind net c xs acked d m r hx ha ex ea h k fits newer follows =
    let (packet, sent, received) =
      receive_packet-delta kind net c xs acked d m r hx ha ex ea h k newer
        (apply_updates-FollowsAll (delta xs acked) _ r follows) in
    let bytes : List ℕ =
      int_bytes net.sequence
      ++ (int_bytes c.incoming_sequence ++ flatten_updates (delta xs acked)) in
    let same : some packet ≡ some bytes =
      sym sent ∙ packet_send-delta kind net c xs hx ex acked ha ea in
    let e : packet ≡ bytes = cc in
    (
      packet,
      remove_unseen r,
      sent,
      omega (arith, ap length e, fits),
      received,
      remove_unseen-Removed r,
    )
