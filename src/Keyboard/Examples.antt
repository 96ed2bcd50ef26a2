-- ===== src/Keyboard/Examples.antt =====
-- keyboard/keyboard.go and keyboard/irq.go: runs with a layout of one letter.
use go_dav_os.Base.{
  ℕ, ◌≡◌, ◌⊎◌, refl, true, false, none, some, [], ◌∷◌, ◌++◌, ◌==◌, if◌then◌else◌, arith,
}
use go_dav_os.Keyboard.{
  Layout, Keyboard, push, try_read, handle_modifier, translate_scancode, shift_active, differ,
  is_ascii_letter, to_lower_ascii,
}
use go_dav_os.Keyboard.Ring.{
  IsValid, contents, waiting_count, push-contents, try_read-contents, push-IsValid,
}
use go_dav_os.Keyboard.Letters.{is_upper, translate_scancode_letter}

abbrev layout : Layout
layout = record {
  get_key = λ sc. if sc == 0x1E then some 97 else none;
  get_shift_digit_symbol = λ r. none;
}

-- Shift is held, and the ring is about to wrap.
abbrev keyboard : Keyboard
keyboard = record {
  left_shift_down = true;
  right_shift_down = false;
  caps_lock_on = false;
  buf = λ i. 0;
  head = 255;
  tail = 255;
}

keyboard-IsValid : IsValid keyboard
keyboard-IsValid = record { head_inside = omega arith; tail_inside = omega arith }

push-contents_example :
    contents (push 65 keyboard)
    ≡ (if waiting_count keyboard == 255 then contents keyboard else contents keyboard ++ 65 ∷ [])
push-contents_example = push-contents 65 keyboard-IsValid

try_read-contents_example :
    ((try_read (push 65 keyboard) ≡ (push 65 keyboard, none)) × (contents (push 65 keyboard) ≡ []))
    ⊎ ((r : ℕ) × ((try_read (push 65 keyboard)).1 ≡ some r)
        × (contents (push 65 keyboard) ≡ r ∷ contents (try_read (push 65 keyboard)).0))
try_read-contents_example = try_read-contents (push-IsValid 65 keyboard-IsValid)

translate_scancode_letter_example :
    (c : ℕ) × (translate_scancode layout 0x1E keyboard ≡ (keyboard, some c))
    × (is_upper c ≡ differ (shift_active keyboard) keyboard.caps_lock_on)
    × (to_lower_ascii c ≡ to_lower_ascii 97)
unfolding handle_modifier is_ascii_letter
translate_scancode_letter_example =
    translate_scancode_letter layout 0x1E keyboard 97 refl (omega arith) refl refl
