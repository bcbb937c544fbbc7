-- ===== src/Game/Players/Collide.antt =====
-- The collisions of src/frogger_game.c, block by block, as one question.
use mathlib.Core.Path.{ap₂}
use evil_engine.Base.{
  ℕ, zero, suc, ◌+◌, ◌≡◌, ◌≢◌, refl, ap, ◌∙◌, fun_ext, arith, Bool, true, false, ◌||◌, ◌==◌,
  if◌then◌else◌, inl, inr, Bool-cases, Option, List, [], ◌∷◌, update,
}
use evil_engine.Math.{Floats, Vec3, Transform}
use evil_engine.Ecs.{max_entities, query_matches}
use evil_engine.Ecs.Query.{matching}
use evil_engine.Game.{Game, block_mask, set_transform}
use evil_engine.Game.Loops.{fold, for_query-fold}
use evil_engine.Game.Players.{start, overlaps, collide_block, collide}

abbrev pub any : (ℕ → Bool) → List ℕ → Bool
any test [] = false
any test (i ∷ is) = test i || any test is

update_twice : {A : Type 0} (a : ℕ → A) (k : ℕ) (v : A) → update (update a k v) k v ≡ update a k v
update_twice a k v =
    fun_ext
      (λ j. elim (Bool-cases (k == j)) [ inl same ↦ rw (same) refl | inr other ↦ rw (other) refl ])

update-other : {A : Type 0} (a : ℕ → A) (k j : ℕ) (v : A) → j ≢ k → update a k v j ≡ a j
update-other a k j v differs = elim (Bool-cases (k == j)) [
  | inl same ↦ absurd (differs (ground arith))
  | inr other ↦ rw (other) refl
]

both : {A : Type 0} (b : Bool) (x : A) → (if b then x else x) ≡ x
both true x = refl
both false x = refl

if-same :
    {F : Type 0} (b : Bool) (s s' : Game F) → s'.ecs ≡ s.ecs → (if b then s' else s).ecs ≡ s.ecs
if-same true s s' h = h
if-same false s s' h = refl

module _ {F D : Type 0} (fl : Floats F) (of_ms : ℕ → F) (random : ℕ → F) (dl : Floats D)
    (widen : F → D) (save : Game F → Game F) (load : Game F → Option (Game F)) (g : Game F)
    (p : ℕ) where
  abbrev place : Vec3 F
  place = (g.transforms p).translation

  abbrev mask : ℕ
  mask = block_mask fl of_ms random g

  -- The player of `s` starts again.
  abbrev pub restart : Game F → Game F
  restart s = set_transform fl of_ms random p (start fl of_ms random dl widen save load) s

  abbrev body : ℕ → Game F → Game F
  body = collide_block fl of_ms random dl widen save load p place

  abbrev covers : Vec3 F → F → Bool
  covers = overlaps fl of_ms random dl widen save load place

  -- The player stands in the block of entity `i`.
  abbrev pub hits : ℕ → Bool
  hits i = covers ((g.transforms i).translation) (g.blocks i)

  -- A game that differs from `g` at most in the player's transform.
  record IsSame (s : Game F) : Type 0 where
    others : (i : ℕ) → i ≢ p → s.transforms i ≡ g.transforms i
    widths : s.blocks ≡ g.blocks
    restarted : restart s ≡ restart g

  restart-IsSame : IsSame (restart g)
  restart-IsSame = record {
    others = λ i differs. update-other g.transforms p i _ differs;
    widths = refl;
    restarted =
        ap (λ (t : ℕ → Transform F). record g { transforms = t }) (update_twice g.transforms p _);
  }

  body-hits : (i : ℕ) (s : Game F) → i ≢ p → IsSame s → body i s ≡ (if hits i then restart g else s)
  unfolding collide_block
  body-hits i s differs same =
      ap (λ (b : Bool). if b then restart s else s)
        (ap₂ (λ (t : Transform F) (width : F). covers (t.translation) width) (same.others i differs)
          (ap (λ (widths : ℕ → F). widths i) same.widths))
      ∙ ap (λ (r : Game F). if hits i then r else s) same.restarted

  fold-any :
      (n i : ℕ) (s : Game F)
      → query_matches g.ecs mask p ≡ false
      → IsSame s
      → fold body (matching g.ecs mask n i) s
        ≡ (if any hits (matching g.ecs mask n i) then restart g else s)
  unfolding fold matching
  fold-any zero i s apart same = refl
  fold-any (suc n) i s apart same = elim (Bool-cases (query_matches g.ecs mask i)) [
    | inr miss ↦ rw (matching, miss) (fold-any n (i + 1) s apart same)
    | inl hit ↦
        let differs : i ≢ p = λ e. grind (arith, ap (query_matches g.ecs mask) e) in
        let met = body-hits i s differs same in
        elim (Bool-cases (hits i)) [
          | inl struck ↦
              let round = met ∙ ap (λ (b : Bool). if b then restart g else s) struck in
              rw (matching, hit, struck)
                (ap (fold body (matching g.ecs mask n (i + 1))) round
                  ∙ fold-any n (i + 1) (restart g) apart restart-IsSame
                  ∙ both _ (restart g))
          | inr free ↦
              let round = met ∙ ap (λ (b : Bool). if b then restart g else s) free in
              rw (matching, hit, free)
                (ap (fold body (matching g.ecs mask n (i + 1))) round
                  ∙ fold-any n (i + 1) s apart same)
        ]
  ]

  -- A player that is no block itself starts again if, before the loop over the blocks, it stood in one
  -- of them, in whatever order they come; nothing else of the game changes.
  pub collide_lem :
      query_matches g.ecs mask p ≡ false
      → collide fl of_ms random dl widen save load p g
        ≡ (if any hits (matching g.ecs mask max_entities 0) then restart g else g)
  unfolding collide collide_block
  collide_lem apart =
      for_query-fold (λ (s : Game F). s.ecs) mask body g
        (λ i s. if-same (covers ((s.transforms i).translation) (s.blocks i)) s (restart s) refl)
      ∙ fold-any max_entities 0 g apart
          (record { others = λ i d. refl; widths = refl; restarted = refl })
