-- ===== src/Ecs/Query.antt =====
-- The queries of src/ecs.c: the loop `for (q = create; is_valid(q); next(q))` of the game code.
use evil_engine.Base.{
  ℕ, zero, suc, ◌+◌, ◌-◌, ◌≤◌, ◌<◌, ◌^◌, ◌≡◌, refl, true, false, none, some, arith, List, [], ◌∷◌,
  if◌then◌else◌, inl, inr, Bool-cases, Option-cases, minus_one, find_first, FoundAt,
  find_first-some, add32, ltb, ap,
}
use evil_engine.Ecs.{
  Ecs, QueryState, max_entities, query_create, query_next, query_is_valid, query_matches,
}

-- The entities that such a loop visits, in order. The fuel bounds the rounds.
unfoldable pub visit : Ecs → ℕ → QueryState → List ℕ
visit e zero q = []
visit e (suc fuel) q = elim (query_is_valid q) [
  | true ↦ q.entity ∷ visit e fuel (query_next e q)
  | false ↦ []
]

-- The specification: the indices from `i` on, `n` of them, that match.
unfoldable pub matching : Ecs → ℕ → ℕ → ℕ → List ℕ
matching e mask zero i = []
matching e mask (suc n) i =
    let rest = matching e mask n (i + 1) in if query_matches e mask i then i ∷ rest else rest

-- Up to the first match nothing matches.
matching-skip :
    (e : Ecs) (mask n i : ℕ)
    → find_first (query_matches e mask) n i ≡ none
    → matching e mask n i ≡ []
unfolding matching find_first
matching-skip e mask zero i h = refl
matching-skip e mask (suc n) i h = ground (arith, matching-skip e mask n (i + 1))

matching-first :
    (e : Ecs) (mask n i j : ℕ)
    → find_first (query_matches e mask) n i ≡ some j
    → matching e mask n i ≡ j ∷ matching e mask (i + n - (j + 1)) (j + 1)
unfolding matching find_first
matching-first e mask zero i j h = cc
matching-first e mask (suc n) i j h = elim (Bool-cases (query_matches e mask i)) [
  | inl hit ↦
      let same : i ≡ j = ground arith in
      let left : n ≡ i + suc n - (i + 1) = omega arith in rw (hit, ← same, ← left)
  | inr miss ↦
      let left : i + 1 + n - (j + 1) ≡ i + suc n - (j + 1) = omega arith in
      rw (miss, ← left) (matching-first e mask n (i + 1) j (ground arith))
]

query_next-none :
    (e : Ecs) (mask entity : ℕ)
    → find_first (query_matches e mask) (max_entities - add32 entity 1) (add32 entity 1) ≡ none
    → query_next e (record { component_mask = mask; entity = entity })
      ≡ record { component_mask = mask; entity = minus_one }
unfolding query_next
query_next-none e mask entity h = rw (h, query_next)

query_next-some :
    (e : Ecs) (mask entity j : ℕ)
    → find_first (query_matches e mask) (max_entities - add32 entity 1) (add32 entity 1) ≡ some j
    → query_next e (record { component_mask = mask; entity = entity })
      ≡ record { component_mask = mask; entity = j }
unfolding query_next
query_next-some e mask entity j h = rw (h, query_next)

visit_invalid :
    (e : Ecs) (fuel mask : ℕ)
    → visit e (suc fuel) (record { component_mask = mask; entity = minus_one }) ≡ []
unfolding visit query_is_valid
visit_invalid e fuel mask = refl

visit_valid :
    (e : Ecs) (fuel mask j : ℕ)
    → j < max_entities
    → visit e (suc fuel) (record { component_mask = mask; entity = j })
      ≡ j ∷ visit e fuel (query_next e (record { component_mask = mask; entity = j }))
unfolding visit query_is_valid
visit_valid e fuel mask j h = let v : ltb j (2 ^ 31) ≡ true = ground arith in rw (v, visit)

visit_from :
    (fuel : ℕ) (e : Ecs) (mask entity i : ℕ)
    → add32 entity 1 ≡ i
    → i ≤ max_entities
    → max_entities - i < fuel
    → visit e fuel (query_next e (record { component_mask = mask; entity = entity }))
      ≡ matching e mask (max_entities - i) i
visit_from zero e mask entity i p le lt = absurd (omega arith)
visit_from (suc fuel) e mask entity i p le lt =
    elim (Option-cases (find_first (query_matches e mask) (max_entities - i) i)) [
      | inl h ↦
          rw (query_next-none e mask entity (rw p h), visit_invalid, matching-skip e mask _ i h)
      | inr (j, h) ↦
          let f : FoundAt (query_matches e mask) (max_entities - i) i j = find_first-some _ _ _ h in
          let in_table : j < max_entities = omega (arith, f.below) in
          let left : max_entities - (j + 1) ≡ i + (max_entities - i) - (j + 1) = omega arith in
          rw
            (
              query_next-some e mask entity j (rw p h),
              visit_valid e fuel mask j in_table,
              matching-first e mask _ i j h,
              ← left,
            )
            (ap (λ l. j ∷ l)
              (visit_from fuel e mask j (j + 1) (omega arith) (omega arith)
                (omega (arith, f.above))))
    ]

-- A loop over a query visits exactly the active entities (those marked for removal included) that
-- have all the components of the mask, each once, by increasing index, and it ends.
pub query_visits :
    (e : Ecs) (mask fuel : ℕ)
    → max_entities < fuel
    → visit e fuel (query_create e mask) ≡ matching e mask max_entities 0
unfolding query_create
query_visits e mask fuel h = visit_from fuel e mask minus_one 0 refl (omega arith) h
