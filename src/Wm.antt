-- ===== src/Wm.antt =====
-- src/wm.c and src/wm.h: the input state of a window, driven by the messages of Windows.
-- A message carries what the window procedure asks of Windows while it handles it: a mouse move the
-- cursor before and after it is put back. The codes of the virtual keys are a parameter, `virtual_key`
-- at the places of `k_key_map`.
pub mod Held
mod Tests
use evil_engine.Base.{
  ℕ, ◌-◌, ◌^◌, Bool, true, false, Option, none, some, List, [], ◌∷◌, ◌==◌, if◌then◌else◌, CInt,
  sub32, bit_and, bit_or, find_first,
}

pub data Button : Type 0 where
  left right middle : Button

-- `k_mouse_button_left` and the others.
abbrev pub button_mask : Button → ℕ
button_mask left = 1
button_mask right = 2
button_mask middle = 4

-- `k_key_map`: left, right, up, down.
abbrev pub key_count : ℕ
key_count = 4

abbrev pub ga_key : ℕ → ℕ
ga_key i = if i == 0 then 4 else if i == 1 then 8 else if i == 2 then 1 else 2

pub data Message : Type 0 where
  key_down key_up : ℕ → Message
  button_down button_up : Button → Message
  mouse_move : (old_x old_y new_x new_y : CInt) → Message
  activate_app : Bool → Message
  close : Message
  other : Message

pub record Window : Type 0 where
  pub quit : Bool
  pub has_focus : Bool
  pub mouse_mask : ℕ
  pub key_mask : ℕ
  pub mouse_x : CInt
  pub mouse_y : CInt

-- `m & ~bits` on `uint32_t`.
abbrev pub clear_bits : ℕ → ℕ → ℕ
clear_bits m bits = bit_and m (2 ^ 32 - 1 - bits)

-- The window that `wm_create` leaves; the mouse movement is not set there.
unfoldable pub wm_create : CInt → CInt → Window
wm_create fresh_x fresh_y = record {
  quit = false;
  has_focus = false;
  mouse_mask = 0;
  key_mask = 0;
  mouse_x = fresh_x;
  mouse_y = fresh_y;
}

-- The place of a key in `k_key_map`, by the loop of `_window_proc`.
abbrev pub find_key : (ℕ → ℕ) → ℕ → Option ℕ
find_key virtual_key key = find_first (λ i. virtual_key i == key) key_count 0

unfoldable pub window_proc : (ℕ → ℕ) → Window → Message → Window
window_proc virtual_key win (key_down key) = elim (find_key virtual_key key) [
  | none ↦ win
  | some i ↦ record win { key_mask = bit_or win.key_mask (ga_key i) }
]
window_proc virtual_key win (key_up key) = elim (find_key virtual_key key) [
  | none ↦ win
  | some i ↦ record win { key_mask = clear_bits win.key_mask (ga_key i) }
]
window_proc virtual_key win (button_down b) = record win {
  mouse_mask = bit_or win.mouse_mask (button_mask b);
}
window_proc virtual_key win (button_up b) = record win {
  mouse_mask = clear_bits win.mouse_mask (button_mask b);
}
window_proc virtual_key win (mouse_move old_x old_y new_x new_y) =
    if win.has_focus
    then record win { mouse_x = sub32 old_x new_x; mouse_y = sub32 old_y new_y }
    else win
window_proc virtual_key win (activate_app focus) = record win { has_focus = focus }
window_proc virtual_key win close = record win { quit = true }
window_proc virtual_key win other = win

-- `wm_pump`: the messages that wait, in order; it returns `quit`.
unfoldable pub wm_pump : (ℕ → ℕ) → Window → List Message → Window
unfolding window_proc
wm_pump virtual_key win [] = win
wm_pump virtual_key win (m ∷ messages) =
    wm_pump virtual_key (window_proc virtual_key win m) messages
