-- ===== src/Net/Packet/Snapshots.antt =====
-- The snapshot that src/net.c takes of the entities in each frame.
use mathlib.Core.List.{append_assoc, append-nil}
use evil_engine.Base.{
  ℕ, zero, suc, ◌+◌, ◌-◌, ◌%◌, ◌<◌, ◌^◌, ◌≡◌, refl, sym, ap, ◌∙◌, arith, Bool, true, ◌==◌, ltb,
  Option, none, some, if◌then◌else◌, inl, inr, Bool-cases, ltb→lt, Option-cases, List, [], ◌∷◌,
  ◌++◌, length, length-append, CInt, test_bit, int_bytes, bytes_at, length-bytes_at, update,
}
use evil_engine.Ecs.{Ecs, EntityRef, max_component_types, is_entity_ref_valid, entity_get_component}
use evil_engine.Ecs.Component.{get_component_type_size}
use evil_engine.Net.Packet.{
  Net, World, mtu, max_net_entities, max_snapshots, gather, snapshot_loop, snapshot_entities,
  replicated_size_of, current_contents,
}
use evil_engine.Net.Packet.Delta.{Entity, All, IsEntity, flatten, bytes_of}

-- How many bytes the components of a mask have, without a bound.
unfoldable pub components_size : Ecs → (mask n c : ℕ) → ℕ
components_size e mask zero c = 0
components_size e mask (suc n) c =
    let rest = components_size e mask n (c + 1) in
    if test_bit mask c then get_component_type_size e c + rest else rest

gather-length :
    (w : World) (ref : EntityRef) (mask n c : ℕ) {p : List ℕ}
    → gather w ref mask n c ≡ some p
    → length p ≡ components_size w.ecs mask n c
unfolding gather components_size
gather-length w ref mask zero c e = ground arith
gather-length w ref mask (suc n) c {p} e = elim (Bool-cases (test_bit mask c)) [
  | inr off ↦ rw (off) (gather-length w ref mask n (c + 1) (rw (off) at e))
  | inl on ↦ elim (Option-cases (entity_get_component w.ecs ref c true)) [
    | inl null ↦ let e' : none ≡ some p = rw (on, null) at e in cc
    | inr (a, found) ↦ elim (Option-cases (gather w ref mask n (c + 1))) [
      | inl failed ↦ let e' : none ≡ some p = rw (on, found, failed) at e in cc
      | inr (q, got) ↦
          let front = bytes_at w.memory a (get_component_type_size w.ecs c) in
          let e0 : some (front ++ q) ≡ some p = rw (on, found, got) at e in
          let e' : front ++ q ≡ p = cc in
          rw (on) (
            ap length (sym e')
            ∙ length-append front q
            ∙ omega (
              arith,
              length-bytes_at w.memory a (get_component_type_size w.ecs c),
              gather-length w ref mask n (c + 1) got,
            ))
    ]
  ]
]

flatten-append : (xs ys : List Entity) → flatten (xs ++ ys) ≡ flatten xs ++ flatten ys
flatten-append [] ys = refl
flatten-append (x ∷ xs) ys =
    ap (λ (b : List ℕ). bytes_of x ++ b) (flatten-append xs ys)
    ∙ sym (append_assoc (bytes_of x) (flatten xs) (flatten ys))

All-snoc :
    {A : Type 0} (P : A → Type 0) (xs : List A) (y : A) → All P xs → P y → All P (xs ++ (y ∷ []))
All-snoc P [] y h p = (p, tt)
All-snoc P (x ∷ xs) y (h, hs) p = (h, All-snoc P xs y hs p)

abbrev is_live_entry : Net → ℕ → Bool
is_live_entry net i = is_entity_ref_valid net.world.ecs ((net.entities i).ref) true

abbrev gather_entry : Net → ℕ → Option (List ℕ)
gather_entry net i =
    let d = net.entities i in
    gather net.world d.ref (net.entity_types d.type).replicated_component_mask max_component_types 0

-- What the net object has been told about its entities: the replicated size of a type is that of its
-- components, the numbers of an entry fit their C types, an entity with one sequence number has one
-- type, and a live entity has the components that are replicated.
pub record IsTold (kind : CInt → CInt) (net : Net) : Type 0 where
  pub sizes :
      (type : CInt)
      → components_size net.world.ecs
          (net.entity_types type).replicated_component_mask
          max_component_types
          0
        ≡ (net.entity_types type).replicated_size
  pub small_type : (i : ℕ) → (net.entities i).type < 2 ^ 32
  pub small_sequence : (i : ℕ) → (net.entities i).ref.sequence < 2 ^ 32
  pub of_kind : (i : ℕ) → (net.entities i).type ≡ kind ((net.entities i).ref.sequence)
  pub complete : (i : ℕ) → is_live_entry net i ≡ true → (p : List ℕ) × (gather_entry net i ≡ some p)

-- The bytes are those of entities, and fit a snapshot.
pub record IsSnapshot (kind : CInt → CInt) (net : Net) (bytes : List ℕ) : Type 0 where
  pub entities : List Entity
  pub good : All (IsEntity kind (replicated_size_of net)) entities
  pub in_order : bytes ≡ flatten entities
  pub fits : length bytes < mtu

module _ (kind : CInt → CInt) (net : Net) (told : IsTold kind net) where
  add_entity :
      (i : ℕ) (bytes payload : List ℕ)
      → IsSnapshot kind net bytes
      → gather_entry net i ≡ some payload
      → (net.entity_types (net.entities i).type).replicated_size + 8 < mtu - length bytes
      → IsSnapshot kind net (
          bytes
          ++ (int_bytes (net.entities i).type
              ++ (int_bytes (net.entities i).ref.sequence ++ payload)))
  add_entity i bytes payload s got room =
      let d = net.entities i in
      let x : Entity = record { type = d.type; sequence = d.ref.sequence; payload = payload } in
      let long =
        gather-length net.world d.ref (net.entity_types d.type).replicated_component_mask
          max_component_types 0 got
        ∙ told.sizes d.type in
      record {
        entities = s.entities ++ (x ∷ []);
        good = All-snoc (IsEntity kind (replicated_size_of net)) s.entities x s.good (record {
          small_type = told.small_type i;
          small_sequence = told.small_sequence i;
          of_kind = told.of_kind i;
          whole = long;
        });
        in_order =
            ap (λ (b : List ℕ). b ++ bytes_of x) s.in_order
            ∙ sym (
                flatten-append s.entities (x ∷ [])
                ∙ ap (λ (b : List ℕ). flatten s.entities ++ b) (append-nil (bytes_of x)));
        fits = omega (arith, length-append bytes (bytes_of x), long, room, s.fits);
      }

  loop-IsSnapshot :
      (n i : ℕ) (bytes : List ℕ)
      → IsSnapshot kind net bytes
      → (out : List ℕ) × (snapshot_loop net n i bytes ≡ some out) × IsSnapshot kind net out
  unfolding snapshot_loop
  loop-IsSnapshot zero i bytes s = (bytes, refl, s)
  loop-IsSnapshot (suc n) i bytes s = elim (Bool-cases (is_live_entry net i)) [
    | inr dead ↦ (bytes, ground (arith, dead), s)
    | inl live ↦
        let size = (net.entity_types (net.entities i).type).replicated_size in
        elim (Bool-cases (ltb (size + 8) (mtu - length bytes))) [
          | inr tight ↦
              let (out, rest, good) = loop-IsSnapshot n (i + 1) bytes s in
              (out, ground (arith, live, tight, rest), good)
          | inl room ↦
              let (payload, got) = told.complete i live in
              let (out, rest, good) =
                loop-IsSnapshot n (i + 1) _ (add_entity i bytes payload s got (ltb→lt _ _ room)) in
              (out, ground (arith, live, room, got, rest), good)
        ]
  ]

  -- Where the net object has been told the truth about its entities, `snapshot_entities` takes a
  -- snapshot that holds whole entities and is at most 1023 bytes long, and changes no entity.
  pub snapshot_entities_lem :
      (net' : Net) × (snapshot_entities net ≡ some net')
      × IsSnapshot kind net (current_contents net')
      × (net'.world ≡ net.world)
      × (net'.entities ≡ net.entities)
  unfolding snapshot_entities
  snapshot_entities_lem =
      let none_yet : IsSnapshot kind net [] = record {
        entities = [];
        good = tt;
        in_order = refl;
        fits = omega arith;
      } in
      let (out, taken, good) = loop-IsSnapshot max_net_entities 0 [] none_yet in
      let at_place : (net.sequence % max_snapshots == net.sequence % max_snapshots) ≡ true =
        ground arith in
      (
        record net {
          snapshots =
              update net.snapshots (net.sequence % max_snapshots)
                (record { sequence = net.sequence; contents = out });
        },
        rw (taken) refl,
        rw (current_contents, at_place) good,
        refl,
        refl,
      )
