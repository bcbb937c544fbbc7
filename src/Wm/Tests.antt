-- ===== src/Wm/Tests.antt =====
-- The window of src/wm.c on small inputs.
use evil_engine.Base.{ℕ, ◌≡◌, arith, List, [], ◌∷◌, false, test_bit}
use evil_engine.Wm.{Message, key_down, key_up, wm_create, wm_pump}
use evil_engine.Wm.Held.{key_bit, key_held, keys_held}

-- The codes of the four keys.
abbrev codes : ℕ → ℕ
codes i = i

abbrev messages : List Message
messages = key_down 0 ∷ key_down 2 ∷ key_up 0 ∷ []

keys_held_example :
    test_bit (wm_pump codes (wm_create 5 6) messages).key_mask (key_bit 2)
    ≡ key_held 2 false messages
keys_held_example = keys_held codes (λ i j p q e. e) messages 5 6 2 (omega arith)
