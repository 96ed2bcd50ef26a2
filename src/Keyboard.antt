-- ===== src/Keyboard.antt =====
-- keyboard/keyboard.go and keyboard/irq.go: scan codes become characters, which wait in a ring. The
-- ports are read by code that is not modelled: a scan code comes as an argument.
pub mod Ring
pub mod Letters
mod Examples
use go_dav_os.Base.{
  ℕ, zero, suc, ◌+◌, ◌-◌, ◌/◌, ◌%◌, Bool, true, false, not, ◌&&◌, ◌||◌, Option, none, some, Array,
  update, leb, ◌==◌, if◌then◌else◌,
}

abbrev pub buf_size : ℕ
buf_size = 256

-- The interface `Layout`.
pub record Layout : Type 0 where
  pub get_key : ℕ → Option ℕ
  pub get_shift_digit_symbol : ℕ → Option ℕ

-- The package's variables.
pub record Keyboard : Type 0 where
  pub left_shift_down : Bool
  pub right_shift_down : Bool
  pub caps_lock_on : Bool
  pub buf : Array ℕ
  pub head : ℕ
  pub tail : ℕ

-- `handleModifier`: whether the scan code is a modifier's.
unfoldable pub handle_modifier : ℕ → Keyboard → Keyboard × Bool
handle_modifier sc k =
    if sc == 0x2A
    then (record k { left_shift_down = true }, true)
    else if sc == 0xAA
    then (record k { left_shift_down = false }, true)
    else if sc == 0x36
    then (record k { right_shift_down = true }, true)
    else if sc == 0xB6
    then (record k { right_shift_down = false }, true)
    else if sc == 0x3A
    then (record k { caps_lock_on = not k.caps_lock_on }, true)
    else (k, false)

unfoldable pub shift_active : Keyboard → Bool
shift_active k = k.left_shift_down || k.right_shift_down

unfoldable pub is_ascii_letter : ℕ → Bool
is_ascii_letter r = (leb 97 r && leb r 122) || (leb 65 r && leb r 90)

unfoldable pub is_ascii_digit : ℕ → Bool
is_ascii_digit r = leb 48 r && leb r 57

unfoldable pub to_upper_ascii : ℕ → ℕ
to_upper_ascii r = if leb 97 r && leb r 122 then r - 97 + 65 else r

unfoldable pub to_lower_ascii : ℕ → ℕ
to_lower_ascii r = if leb 65 r && leb r 90 then r - 65 + 97 else r

abbrev pub differ : Bool → Bool → Bool
differ true b = not b
differ false b = b

-- The character of a key, for the layout's character `r`.
unfoldable pub shifted : Layout → Keyboard → ℕ → ℕ
shifted layout k r =
    if is_ascii_letter r
    then (if differ (shift_active k) k.caps_lock_on then to_upper_ascii r else to_lower_ascii r)
    else if is_ascii_digit r && shift_active k
    then elim (layout.get_shift_digit_symbol r) [ none ↦ r | some symbol ↦ symbol ]
    else r

-- `translateScancode`; `none` stands for an answer that is not OK.
unfoldable pub translate_scancode : Layout → ℕ → Keyboard → Keyboard × Option ℕ
translate_scancode layout sc k =
    let (k', handled) = handle_modifier sc k in
    if handled
    then (k', none)
    else if (sc / 128) % 2 == 1
    then (k', none)
    else elim (layout.get_key sc) [ none ↦ (k', none) | some r ↦ (k', some (shifted layout k' r)) ]

-- `push`
unfoldable pub push : ℕ → Keyboard → Keyboard
push r k =
    let next = (k.head + 1) % buf_size in
    if next == k.tail then k else record k { buf = update k.buf k.head r; head = next }

-- `TryRead`
unfoldable pub try_read : Keyboard → Keyboard × Option ℕ
try_read k =
    if k.tail == k.head
    then (k, none)
    else (record k { tail = (k.tail + 1) % buf_size }, some (k.buf k.tail))

-- `IRQHandler`, for the scan code that the port gave.
unfoldable pub irq_handler : Layout → ℕ → Keyboard → Keyboard
irq_handler layout sc k =
    let (k', key) = translate_scancode layout sc k in elim key [ none ↦ k' | some r ↦ push r k' ]
