-- ===== src/Keyboard/Letters.antt =====
-- keyboard/keyboard.go, `translateScancode`: which letter a key gives.
use go_dav_os.Base.{
  ℕ, ◌/◌, ◌%◌, ◌≡◌, refl, Bool, true, false, ◌&&◌, ◌||◌, none, some, leb, ◌==◌, arith, Bool-cases,
  inl, inr,
}
use go_dav_os.Keyboard.{
  Layout, Keyboard, handle_modifier, shift_active, is_ascii_letter, to_upper_ascii, to_lower_ascii,
  differ, shifted, translate_scancode,
}

abbrev pub is_upper : ℕ → Bool
is_upper r = leb 65 r && leb r 90

handle_modifier_other :
    (sc : ℕ) (k : Keyboard) → (handle_modifier sc k).1 ≡ false → handle_modifier sc k ≡ (k, false)
unfolding handle_modifier
handle_modifier_other sc k e = ground arith

-- The case of a letter key is upper exactly if one of shift and caps lock is on, and not both; but for
-- its case the letter is the layout's, and the modifiers stay as they are.
pub translate_scancode_letter :
    (layout : Layout) (sc : ℕ) (k : Keyboard) (r : ℕ)
    → (handle_modifier sc k).1 ≡ false
    → (sc / 128) % 2 ≡ 0
    → layout.get_key sc ≡ some r
    → is_ascii_letter r ≡ true
    → (c : ℕ) × (translate_scancode layout sc k ≡ (k, some c))
      × (is_upper c ≡ differ (shift_active k) k.caps_lock_on)
      × (to_lower_ascii c ≡ to_lower_ascii r)
unfolding translate_scancode shifted is_ascii_letter to_upper_ascii to_lower_ascii
translate_scancode_letter layout sc k r plain press key letter =
    let same = handle_modifier_other sc k plain in
    let down : ((sc / 128) % 2 == 1) ≡ false = ground arith in
    elim (Bool-cases (differ (shift_active k) k.caps_lock_on)) [
      | inl y ↦ (
        to_upper_ascii r,
        rw (same, down, key) (rw same (rw (letter, y) refl)),
        rw y (ground arith),
        ground arith,
      )
      | inr n ↦ (
        to_lower_ascii r,
        rw (same, down, key) (rw same (rw (letter, n) refl)),
        rw n (ground arith),
        ground arith,
      )
    ]

-- A modifier's key, or the release of a key, gives no character.
pub translate_scancode_quiet :
    (layout : Layout) (sc : ℕ) (k : Keyboard)
    → ((handle_modifier sc k).1 || (sc / 128) % 2 == 1) ≡ true
    → (translate_scancode layout sc k).1 ≡ none
unfolding translate_scancode
translate_scancode_quiet layout sc k e = ground arith
