-- ===== src/Ecs/Reach.antt =====
-- The entity table of src/ecs.c over time: any interleaving of spawns, removals and frame updates.
-- A spawn is counted only while the global sequence number has not come round to 2^32, and loads are
-- not counted: ecs_load_game puts the sequence numbers and the states of a file in place.
use native.Mathlib.Decide.{ℕ_discrete}
use evil_engine.Base.{
  ℕ, ◌+◌, ◌<◌, ◌^◌, ◌≡◌, ◌≢◌, ◌⊎◌, refl, Bool, true, false, arith, ltb, is_nonneg, if◌then◌else◌,
  for_loop-pointwise, inl, inr,
}
use evil_engine.Ecs.{
  Ecs, EntityRef, unused, max_entities, advance, create, ecs_update, entity_add, entity_remove,
  is_entity_ref_valid,
}
use evil_engine.Ecs.Entity.{Spawned, entity_add_lem}

-- References whose index is in the table, and those that the test of `ref.entity >= 0` turns away. The
-- code has no other test of the index, and reads behind its arrays for any other.
abbrev pub InBounds : EntityRef → Type 0
InBounds ref = (ref.entity < max_entities) ⊎ (is_nonneg ref.entity ≡ false)

pub data Step (e : Ecs) : Ecs → Type 0 where
  spawn : (mask : ℕ) → e.global_sequence + 1 < 2 ^ 32 → Step e (entity_add e mask).1
  despawn : (ref : EntityRef) (allow : Bool) → InBounds ref → Step e (entity_remove e ref allow)
  tick : Step e (ecs_update e)

pub data Reach (e : Ecs) : Ecs → Type 0 where
  here : Reach e e
  next : {f g : Ecs} → Reach e f → Step f g → Reach e g

-- The entry of every index, inside the table or not, after `ecs_update`.
ecs_update-state :
    (e : Ecs) (i : ℕ)
    → (ecs_update e).entity_states i
      ≡ (if ltb i max_entities then advance (e.entity_states i) else e.entity_states i)
unfolding ecs_update
ecs_update-state e i = ground (arith, for_loop-pointwise advance max_entities 0 e.entity_states i)

ecs_update-sequences : (e : Ecs) (i : ℕ) → (ecs_update e).sequences i ≡ e.sequences i
unfolding ecs_update
ecs_update-sequences e i = refl

ecs_update-global : (e : Ecs) → (ecs_update e).global_sequence ≡ e.global_sequence
unfolding ecs_update
ecs_update-global e = refl

-- A reference whose number has been handed out and that no longer names an entity.
abbrev pub IsStale : Ecs → EntityRef → Type 0
IsStale e ref = (ref.sequence < e.global_sequence) × (is_entity_ref_valid e ref true ≡ false)

spawn-IsStale :
    (e : Ecs) (mask : ℕ) (ref : EntityRef)
    → e.global_sequence + 1 < 2 ^ 32
    → IsStale e ref
    → IsStale (entity_add e mask).1 ref
unfolding is_entity_ref_valid
spawn-IsStale e mask ref h s = elim (entity_add_lem e mask) [
  | inl (i, sp) ↦ ground (arith, sp.state, sp.sequence, sp.next_sequence, sp.others ref.entity)
  | inr r ↦ ground (arith, r.same)
]

despawn-IsStale :
    (e : Ecs) (old : EntityRef) (allow : Bool) (ref : EntityRef)
    → IsStale e ref
    → IsStale (entity_remove e old allow) ref
unfolding entity_remove
despawn-IsStale e old allow ref s = ground arith

tick-IsStale : (e : Ecs) (ref : EntityRef) → IsStale e ref → IsStale (ecs_update e) ref
unfolding is_entity_ref_valid
tick-IsStale e ref s =
    ground
      (arith, ecs_update-state e ref.entity, ecs_update-sequences e ref.entity, ecs_update-global e)

Step-IsStale : {e f : Ecs} (ref : EntityRef) → Step e f → IsStale e ref → IsStale f ref
Step-IsStale {e} ref (spawn mask h) s = spawn-IsStale e mask ref h s
Step-IsStale {e} ref (despawn old allow b) s = despawn-IsStale e old allow ref s
Step-IsStale {e} ref tick s = tick-IsStale e ref s

-- A weak reference of the table that was handed out and no longer names an entity never names one
-- again through `ecs_entity_add`, `ecs_entity_remove` and `ecs_update`, however often its slot is reused,
-- as long as the global sequence number has not come round to 2^32 and no game is loaded.
pub Reach-IsStale :
    {e f : Ecs} (ref : EntityRef)
    → Reach e f
    → InBounds ref
    → ref.sequence < e.global_sequence
    → is_entity_ref_valid e ref true ≡ false
    → is_entity_ref_valid f ref true ≡ false
Reach-IsStale {e} ref r b h s = (go r).1
  where
    go : {g : Ecs} → Reach e g → IsStale g ref
    go here = (h, s)
    go (next r' st) = Step-IsStale ref st (go r')

-- What every table that the operations build satisfies: the numbers in use are below the global one,
-- no two slots carry one number, and a slot without a number is unused.
pub record IsTable (e : Ecs) : Type 0 where
  pub started : 0 < e.global_sequence
  pub issued : (i : ℕ) → i < max_entities → e.sequences i < e.global_sequence
  pub distinct :
      (i j : ℕ)
      → i < max_entities
      → j < max_entities
      → e.sequences i ≡ e.sequences j
      → e.sequences i ≢ 0
      → i ≡ j
  pub fresh : (i : ℕ) → i < max_entities → e.sequences i ≡ 0 → e.entity_states i ≡ unused

create-IsTable : IsTable create
unfolding create
create-IsTable = record {
  started = omega arith;
  issued = λ i small. omega arith;
  distinct = λ i j small small' p q. absurd (q refl);
  fresh = λ i small p. refl;
}

Spawned-IsTable :
    (e e' : Ecs) (mask i : ℕ) (ref : EntityRef)
    → e.global_sequence + 1 < 2 ^ 32
    → Spawned e mask i ref e'
    → IsTable e
    → IsTable e'
Spawned-IsTable e e' mask i ref h sp t = record {
  started = ground (arith, sp.next_sequence);
  issued =
      λ k small. ground (arith, sp.next_sequence, sp.sequence, sp.others k, t.issued k, split k);
  distinct = λ j k small small' p q. ground (
    arith,
    sp.sequence,
    sp.others j,
    sp.others k,
    t.issued j,
    t.issued k,
    t.distinct j k,
    split j,
    split k,
  );
  fresh = λ k small p. ground (arith, sp.sequence, t.started, sp.others k, t.fresh k, split k);
}
  where
    split : (k : ℕ) → (k ≡ i) ⊎ (k ≢ i)
    split k = elim (ℕ_discrete k i) [ yes p ↦ inl p | no p ↦ inr p ]

spawn-IsTable :
    (e : Ecs) (mask : ℕ)
    → e.global_sequence + 1 < 2 ^ 32
    → IsTable e
    → IsTable (entity_add e mask).1
spawn-IsTable e mask h t = elim (entity_add_lem e mask) [
  | inl (i, sp) ↦ Spawned-IsTable e _ mask i _ h sp t
  | inr r ↦ rw (r.same) t
]

despawn-IsTable :
    (e : Ecs) (ref : EntityRef) (allow : Bool) → IsTable e → IsTable (entity_remove e ref allow)
unfolding entity_remove
despawn-IsTable e ref allow t = record {
  started = ground (arith, t.started);
  issued = λ i small. ground (arith, t.issued i);
  distinct = λ i j small small' p q. ground (arith, t.distinct i j);
  fresh = λ i small p. ground (arith, t.fresh i);
}

tick-IsTable : (e : Ecs) → IsTable e → IsTable (ecs_update e)
tick-IsTable e t = record {
  started = ground (arith, t.started, ecs_update-global e);
  issued = λ i small. ground (arith, t.issued i, ecs_update-sequences e i, ecs_update-global e);
  distinct = λ i j small small' p q.
      ground (arith, t.distinct i j, ecs_update-sequences e i, ecs_update-sequences e j);
  fresh = λ i small p. ground (arith, t.fresh i, ecs_update-sequences e i, ecs_update-state e i);
}

Step-IsTable : {e f : Ecs} → Step e f → IsTable e → IsTable f
Step-IsTable {e} (spawn mask h) t = spawn-IsTable e mask h t
Step-IsTable {e} (despawn ref allow b) t = despawn-IsTable e ref allow t
Step-IsTable {e} tick t = tick-IsTable e t

-- In every table reached from `ecs_create` by `ecs_entity_add`, `ecs_entity_remove` and `ecs_update`,
-- while the global sequence number has not come round to 2^32: it is not 0, all numbers in the table are
-- below it, no two slots carry the same number other than 0, and a slot with number 0 is unused.
pub Reach-IsTable : {e : Ecs} → Reach create e → IsTable e
Reach-IsTable here = create-IsTable
Reach-IsTable (next r st) = Step-IsTable st (Reach-IsTable r)

-- In every table reached from `ecs_create` by `ecs_entity_add`, `ecs_entity_remove` and `ecs_update`,
-- while the global sequence number has not come round to 2^32: a good reference of the table carries a
-- number that was handed out, and two good references with one sequence number are the same reference.
pub valid_refs :
    {e : Ecs} (a b : EntityRef)
    → Reach create e
    → InBounds a
    → InBounds b
    → is_entity_ref_valid e a true ≡ true
    → is_entity_ref_valid e b true ≡ true
    → (0 < a.sequence) × (a.sequence < e.global_sequence) × (a.sequence ≡ b.sequence → a ≡ b)
unfolding is_entity_ref_valid
valid_refs {e} a b r in_a in_b p q =
    let t : IsTable e = Reach-IsTable r in
    (
      ground (arith, t.fresh a.entity),
      ground (arith, t.issued a.entity),
      λ s. ground (arith, t.distinct a.entity b.entity, t.fresh a.entity),
    )
