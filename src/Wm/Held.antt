-- ===== src/Wm/Held.antt =====
-- The masks of src/wm.c say which keys and buttons are held.
use evil_engine.Base.{
  ℕ, ◌<◌, ◌≡◌, ◌⊎◌, inl, inr, refl, arith, ◌∙◌, Bool, true, false, not, ◌&&◌, ◌||◌, none, some,
  List, [], ◌∷◌, ◌==◌, ltb, if◌then◌else◌, bit_or, FoundAt, find_first-some, find_first-none,
  test_bit, check_below, check_below-test, Option-cases, ltb→lt, ap, sym,
}
use evil_engine.Wm.{
  Button, left, right, middle, key_count, ga_key, Message, key_down, key_up, mouse_move, Window,
  clear_bits, window_proc, wm_create, wm_pump, find_key,
}

-- The place of the bit of a key, and of a button.
abbrev pub key_bit : ℕ → ℕ
key_bit i = if i == 0 then 2 else if i == 1 then 3 else if i == 2 then 0 else 1

abbrev pub button_bit : Button → ℕ
button_bit left = 0
button_bit right = 1
button_bit middle = 2

-- Whether a key is held at the end of a list of messages: the last message about it decides.
pub key_held : ℕ → Bool → List Message → Bool
key_held key held [] = held
key_held key held (key_down k ∷ ms) = key_held key (if k == key then true else held) ms
key_held key held (key_up k ∷ ms) = key_held key (if k == key then false else held) ms
key_held key held (m ∷ ms) = key_held key held ms

bool_eq : Bool → Bool → Bool
bool_eq true b = b
bool_eq false b = not b

bool_eq→eq : (a b : Bool) → bool_eq a b ≡ true → a ≡ b
unfolding bool_eq
bool_eq→eq a b h = ground arith

-- What a press and a release of key `i` do to the bit of key `j` of a mask.
set_row : ℕ → ℕ → ℕ → Bool
set_row i j m =
    bool_eq (test_bit (bit_or m (ga_key i)) (key_bit j)) ((i == j) || test_bit m (key_bit j))
    && ltb (bit_or m (ga_key i)) 16

clear_row : ℕ → ℕ → ℕ → Bool
clear_row i j m =
    bool_eq (test_bit (clear_bits m (ga_key i)) (key_bit j))
      (not (i == j) && test_bit m (key_bit j))
    && ltb (clear_bits m (ga_key i)) 16

table :
    check_below 4 (λ i. check_below 4 (λ j. check_below 16 (λ m. set_row i j m && clear_row i j m)))
    ≡ true
unfolding check_below set_row clear_row bool_eq
table = refl

both : {a b : Bool} → (a && b) ≡ true → (a ≡ true) × (b ≡ true)
both {a} {b} h = ground arith

row : (i j m : ℕ) → i < 4 → j < 4 → m < 16 → (set_row i j m && clear_row i j m) ≡ true
row i j m hi hj hm =
    check_below-test 16 (λ n. set_row i j n && clear_row i j n) m
      (check_below-test 4 (λ k. check_below 16 (λ n. set_row i k n && clear_row i k n)) j
        (check_below-test 4
          (λ l. check_below 4 (λ k. check_below 16 (λ n. set_row l k n && clear_row l k n))) i table
          hi)
        hj)
      hm

set_bit :
    (i j m : ℕ)
    → i < 4
    → j < 4
    → m < 16
    → (test_bit (bit_or m (ga_key i)) (key_bit j) ≡ ((i == j) || test_bit m (key_bit j)))
      × (bit_or m (ga_key i) < 16)
unfolding set_row
set_bit i j m hi hj hm =
    let r = row i j m hi hj hm in
    let (a, b) = both r in let (eq, small) = both a in (bool_eq→eq _ _ eq, ltb→lt _ _ small)

clear_bit :
    (i j m : ℕ)
    → i < 4
    → j < 4
    → m < 16
    → (test_bit (clear_bits m (ga_key i)) (key_bit j) ≡ (not (i == j) && test_bit m (key_bit j)))
      × (clear_bits m (ga_key i) < 16)
unfolding clear_row
clear_bit i j m hi hj hm =
    let r = row i j m hi hj hm in
    let (a, b) = both r in let (eq, small) = both b in (bool_eq→eq _ _ eq, ltb→lt _ _ small)

module _ (virtual_key : ℕ → ℕ)
    (distinct : (i j : ℕ)
      → i < key_count
      → j < key_count
      → virtual_key i ≡ virtual_key j
      → i ≡ j) where
  -- The key that a message names is key `i` of the map, or none of the map.
  which_key :
      (key j : ℕ)
      → j < key_count
      → ((find_key virtual_key key ≡ none) × ((key == virtual_key j) ≡ false))
        ⊎ ((i : ℕ) × (find_key virtual_key key ≡ some i)
            × (i < key_count)
            × ((key == virtual_key j) ≡ (i == j)))
  which_key key j hj = elim (Option-cases (find_key virtual_key key)) [
    | inl e ↦ inl (
      e,
      ground (arith, find_first-none (λ i. virtual_key i == key) key_count 0 j e (omega arith) hj),
    )
    | inr (i, e) ↦
        let f : FoundAt (λ k. virtual_key k == key) key_count 0 i = find_first-some _ _ _ e in
        inr (i, e, f.below, ground (arith, f.passes, distinct i j f.below hj))
  ]

  -- One message.
  step_lem :
      (win : Window) (m : Message) (j : ℕ)
      → j < key_count
      → win.key_mask < 16
      → ((window_proc virtual_key win m).key_mask < 16)
        × (test_bit (window_proc virtual_key win m).key_mask (key_bit j)
            ≡ key_held (virtual_key j) (test_bit win.key_mask (key_bit j)) (m ∷ []))
  unfolding window_proc key_held
  step_lem win (key_down key) j hj small = elim (which_key key j hj) [
    | inl (e, no_key) ↦ rw (e, window_proc) (small, ground (arith, no_key))
    | inr (i, e, hi, same) ↦
        rw (e, window_proc) (ground (arith, same, set_bit i j win.key_mask hi hj small))
  ]
  step_lem win (key_up key) j hj small = elim (which_key key j hj) [
    | inl (e, no_key) ↦ rw (e, window_proc) (small, ground (arith, no_key))
    | inr (i, e, hi, same) ↦
        rw (e, window_proc) (ground (arith, same, clear_bit i j win.key_mask hi hj small))
  ]
  step_lem win (mouse_move a b c d) j hj small = ground arith
  step_lem win m j hj small = (small, refl)

  -- The held state after a first message.
  key_held-cons :
      (key : ℕ) (held : Bool) (m : Message) (ms : List Message)
      → key_held key held (m ∷ ms) ≡ key_held key (key_held key held (m ∷ [])) ms
  unfolding key_held
  key_held-cons key held (key_down k) ms = refl
  key_held-cons key held m ms = refl

  held_from :
      (ms : List Message) (win : Window) (j : ℕ)
      → j < key_count
      → win.key_mask < 16
      → test_bit (wm_pump virtual_key win ms).key_mask (key_bit j)
        ≡ key_held (virtual_key j) (test_bit win.key_mask (key_bit j)) ms
  unfolding wm_pump key_held
  held_from [] win j hj small = refl
  held_from (m ∷ ms) win j hj small =
      let (small', now) = step_lem win m j hj small in
      held_from ms (window_proc virtual_key win m) j hj small'
      ∙ ap (λ h. key_held (virtual_key j) h ms) now
      ∙ sym (key_held-cons (virtual_key j) (test_bit win.key_mask (key_bit j)) m ms)

  -- In a window that has handled any messages since it was created, the bit of each of the four keys
  -- is set exactly if the last message about that key was a press, where the four keys have four codes.
  pub keys_held :
      (ms : List Message) (x y : ℕ) (j : ℕ)
      → j < key_count
      → test_bit (wm_pump virtual_key (wm_create x y) ms).key_mask (key_bit j)
        ≡ key_held (virtual_key j) false ms
  unfolding wm_create bool_eq check_below
  keys_held ms x y j hj =
      held_from ms (wm_create x y) j hj (omega arith)
      ∙ ap (λ h. key_held (virtual_key j) h ms)
          (bool_eq→eq _ _
            (check_below-test 4 (λ i. bool_eq (test_bit 0 (key_bit i)) false) j refl hj))
