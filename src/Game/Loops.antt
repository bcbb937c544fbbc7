-- ===== src/Game/Loops.antt =====
-- The loops over a query of src/frogger_game.c as folds over the entities that match.
use evil_engine.Base.{
  ℕ, zero, suc, ◌+◌, ◌≤◌, ◌<◌, ◌==◌, ◌≢◌, ◌≡◌, refl, ap, ◌∙◌, arith, true, false, inl, inr,
  Bool-cases, List, [], ◌∷◌,
}
use evil_engine.Ecs.{
  Ecs, QueryState, max_entities, query_create, query_next, query_is_valid, query_matches,
}
use evil_engine.Ecs.Query.{visit, matching, query_visits}
use evil_engine.Game.{query_rounds, for_query}

unfoldable pub fold : {S : Type 0} → (ℕ → S → S) → List ℕ → S → S
fold body [] s = s
fold body (i ∷ is) s = fold body is (body i s)

query_rounds-visit :
    {S : Type 0} (ecs : S → Ecs) (body : ℕ → S → S)
    → ((i : ℕ) (s : S) → ecs (body i s) ≡ ecs s)
    → (fuel : ℕ) (q : QueryState) (s : S)
    → query_rounds ecs body fuel q s ≡ fold body (visit (ecs s) fuel q) s
unfolding query_rounds visit fold
query_rounds-visit ecs body keeps zero q s = refl
query_rounds-visit ecs body keeps (suc fuel) q s = elim (Bool-cases (query_is_valid q)) [
  | inr over ↦ rw (query_rounds, visit, over) refl
  | inl valid ↦
      rw (query_rounds, visit, valid)
        (query_rounds-visit ecs body keeps fuel _ _
          ∙ ap (λ (e : Ecs). fold body (visit e fuel (query_next e q)) (body q.entity s))
              (keeps q.entity s))
]

-- The whole loop, where its body leaves the entity table alone: by then it has ended.
pub for_query-fold :
    {S : Type 0} (ecs : S → Ecs) (mask : ℕ) (body : ℕ → S → S) (s : S)
    → ((i : ℕ) (s' : S) → ecs (body i s') ≡ ecs s')
    → for_query ecs mask body s ≡ fold body (matching (ecs s) mask max_entities 0) s
unfolding for_query
for_query-fold ecs mask body s keeps =
    query_rounds-visit ecs body keeps (max_entities + 1) (query_create (ecs s) mask) s
    ∙ ap (λ (l : List ℕ). fold body l s)
        (query_visits (ecs s) mask (max_entities + 1) (omega arith))

-- What a loop over the matching entities does to the part of the state that belongs to entity `k`,
-- where each round touches no such part but its own.
module _ {S V : Type 0} (e : Ecs) (mask k : ℕ) (view : S → V) (body : ℕ → S → S)
    (apart : (i : ℕ) (s : S) → i ≢ k → view (body i s) ≡ view s) where
  fold-behind : (n i : ℕ) (s : S) → k < i → view (fold body (matching e mask n i) s) ≡ view s
  unfolding matching fold
  fold-behind zero i s h = refl
  fold-behind (suc n) i s h = elim (Bool-cases (query_matches e mask i)) [
    | inr miss ↦ rw (matching, miss) (fold-behind n (i + 1) s (omega arith))
    | inl hit ↦
        rw (matching, hit)
          (fold-behind n (i + 1) (body i s) (omega arith) ∙ apart i s (λ same. omega arith))
  ]

  pub fold-miss :
      (n i : ℕ) (s : S)
      → query_matches e mask k ≡ false
      → view (fold body (matching e mask n i) s) ≡ view s
  unfolding matching fold
  fold-miss zero i s h = refl
  fold-miss (suc n) i s h = elim (Bool-cases (query_matches e mask i)) [
    | inr miss ↦ rw (matching, miss) (fold-miss n (i + 1) s h)
    | inl hit ↦
        let other : i ≢ k = λ same. grind (arith, ap (query_matches e mask) same) in
        rw (matching, hit) (fold-miss n (i + 1) (body i s) h ∙ apart i s other)
  ]

  pub fold-hit :
      (n i : ℕ) (s : S)
      → query_matches e mask k ≡ true
      → i ≤ k
      → k < i + n
      → (s' : S) × (view s' ≡ view s)
        × (view (fold body (matching e mask n i) s) ≡ view (body k s'))
  unfolding matching fold
  fold-hit zero i s h p q = absurd (omega arith)
  fold-hit (suc n) i s h p q = elim (Bool-cases (i == k)) [
    | inl same ↦
        let e' : i ≡ k = ground arith in
        let hit : query_matches e mask i ≡ true = rw (e') h in
        (
          s,
          refl,
          rw (matching, hit)
              (fold-behind n (i + 1) (body i s) (omega arith) ∙ ap (λ (j : ℕ). view (body j s)) e'),
        )
    | inr differs ↦
        let other : i ≢ k = ground arith in
        elim (Bool-cases (query_matches e mask i)) [
          | inr miss ↦
              let (s', kept, done) = fold-hit n (i + 1) s h (omega arith) (omega arith) in
              (s', kept, rw (matching, miss) done)
          | inl hit ↦
              let (s', kept, done) = fold-hit n (i + 1) (body i s) h (omega arith) (omega arith) in
              (s', kept ∙ apart i s other, rw (matching, hit) done)
        ]
  ]
