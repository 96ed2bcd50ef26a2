-- ===== src/Terminal/Numbers.antt =====
-- terminal/format.go, and `PrintInt` and `PrintHex` of terminal/terminal.go: numbers as text.
use go_dav_os.Base.{
  ℕ, zero, suc, ◌+◌, ◌-◌, ◌/◌, ◌%◌, ◌^◌, Option, none, some, List, [], ◌∷◌, Array, update, ltb,
  ◌==◌, if◌then◌else◌,
}
use go_dav_os.Base.Ints.{ℤ, pos, negsuc}
use go_dav_os.Terminal.{Terminal, put_rune, print}

-- The loop of `FormatInt`, from the place `start` of the buffer down; out of the buffer it panics.
unfoldable pub digits_loop : ℕ → ℕ → Array ℕ → Option (Array ℕ × ℕ)
digits_loop zero u buf = if u == 0 then some (buf, 0) else none
digits_loop (suc start) u buf =
    let rest = digits_loop start (u / 10) (update buf start (48 + u % 10)) in
    if u == 0 then some (buf, suc start) else rest

-- The minus sign before the digits, which panics where there is no place left.
unfoldable pub put_sign : Array ℕ × ℕ → Option (Array ℕ × ℕ)
put_sign (buf, zero) = none
put_sign (buf, suc start) = some (update buf start b'-', start)

abbrev pub empty_buffer : Array ℕ
empty_buffer i = 0

-- `FormatInt`: the buffer of 20 bytes, and where the text starts. `negsuc n` is -(n + 1), of which the
-- code negates -n and adds one.
unfoldable pub format_int : ℤ → Option (Array ℕ × ℕ)
format_int (pos n) =
    if n == 0
    then some (update empty_buffer 19 b'0', 19)
    else digits_loop 20 (n % 2 ^ 64) empty_buffer
format_int (negsuc n) = elim (digits_loop 20 ((n % 2 ^ 64 + 1) % 2 ^ 64) empty_buffer) [
  | none ↦ none
  | some r ↦ put_sign r
]

-- `for _, b := range buf[start:]`
unfoldable pub put_bytes_from : ℕ → ℕ → Array ℕ → Terminal → Terminal
put_bytes_from zero i buf t = t
put_bytes_from (suc n) i buf t = put_bytes_from n (i + 1) buf (put_rune (buf i) t)

-- `PrintInt`
unfoldable pub print_int : ℤ → Terminal → Option Terminal
print_int v t = elim (format_int v) [
  | none ↦ none
  | some (buf, start) ↦ some (put_bytes_from (20 - start) start buf t)
]

-- `digits[v%16]`
abbrev pub hex_char : ℕ → ℕ
hex_char d = if ltb d 10 then 48 + d else 55 + d

-- The loops of `PrintHex`, over at most 16 digits: the digits from the lowest one on, in front of which
-- each next one is put.
unfoldable pub hex_text : ℕ → ℕ → List ℕ → List ℕ
hex_text zero v text = text
hex_text (suc n) v text =
    let rest = hex_text n (v / 16) (hex_char (v % 16) ∷ text) in if v == 0 then text else rest

-- `PrintHex`
unfoldable pub print_hex : ℕ → Terminal → Terminal
print_hex v t =
    let s = print (b'0' ∷ b'x' ∷ []) t in
    if v == 0 then print (b'0' ∷ []) s else print (hex_text 16 v []) s
