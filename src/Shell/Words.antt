-- ===== src/Shell/Words.antt =====
-- shell/shell.go: the words of a line, and the numbers that they spell.
use go_dav_os.Base.{
  ℕ, zero, suc, ◌+◌, ◌-◌, ◌*◌, ◌%◌, ◌^◌, Bool, true, not, ◌&&◌, ◌||◌, Option, none, some, List, [],
  ◌∷◌, Array, update, ltb, leb, ◌==◌, if◌then◌else◌,
}
use go_dav_os.Shell.{max_line}

-- `isSpace`
abbrev pub is_space : ℕ → Bool
is_space b = b == b' ' || b == 9

unfoldable pub length : List ℕ → ℕ
length [] = 0
length (_ ∷ rest) = suc (length rest)

-- The value of a hexadecimal digit.
unfoldable pub hex_value : ℕ → Option ℕ
hex_value c =
    if leb 48 c && leb c 57
    then some (c - 48)
    else if leb 97 c && leb c 102
    then some (c - 97 + 10)
    else if leb 65 c && leb c 70
    then some (c - 65 + 10)
    else none

module _ (line : Array ℕ) where
  -- The loops of `trimLeft`, `trimRight` and `firstToken`, over what is left of the range.
  unfoldable pub trim_left_loop : ℕ → ℕ → ℕ
  trim_left_loop zero i = i
  trim_left_loop (suc n) i =
      let rest = trim_left_loop n (i + 1) in if ltb i max_line && is_space (line i) then rest else i

  -- `trimLeft`
  unfoldable pub trim_left : ℕ → ℕ → ℕ
  trim_left start end_at = trim_left_loop (end_at - start) start

  unfoldable pub trim_right_loop : ℕ → ℕ → ℕ
  trim_right_loop zero i = i
  trim_right_loop (suc n) i =
      let rest = trim_right_loop n (i - 1) in
      if ltb (i - 1) max_line && is_space (line (i - 1)) then rest else i

  -- `trimRight`
  unfoldable pub trim_right : ℕ → ℕ → ℕ
  trim_right start end_at = trim_right_loop (end_at - start) end_at

  unfoldable pub token_loop : ℕ → ℕ → ℕ
  token_loop zero i = i
  token_loop (suc n) i =
      let rest = token_loop n (i + 1) in
      if ltb i max_line && not (is_space (line i)) then rest else i

  -- `firstToken`
  unfoldable pub first_token : ℕ → ℕ → ℕ × ℕ
  first_token start end_at = (start, token_loop (end_at - start) start)

  -- `nextArg`
  unfoldable pub next_arg : ℕ → ℕ → Option (ℕ × ℕ)
  next_arg start end_at =
      let i = trim_left start end_at in
      let (s, e) = first_token i end_at in
      if leb end_at i then none else if leb e s then none else some (s, e)

  unfoldable pub match_bytes : ℕ → List ℕ → Bool
  match_bytes at_byte [] = true
  match_bytes at_byte (c ∷ rest) =
      not (leb max_line at_byte) && (line at_byte == c && match_bytes (at_byte + 1) rest)

  -- `matchLiteral`
  unfoldable pub match_literal : ℕ → ℕ → List ℕ → Bool
  match_literal start end_at lit =
      leb start end_at && (end_at - start == length lit && match_bytes start lit)

  unfoldable pub dec_loop : ℕ → ℕ → ℕ → Option ℕ
  dec_loop zero i n = some n
  dec_loop (suc k) i n =
      let rest = dec_loop k (i + 1) ((n * 10 + (line i - 48)) % 2 ^ 64) in
      if ltb (line i) 48 || ltb 57 (line i) then none else rest

  -- `parseDec`, whose result is an int of 64 bits, here as the number below 2 ^ 64 with these bits.
  unfoldable pub parse_dec : ℕ → ℕ → Option ℕ
  parse_dec start end_at = if leb end_at start then none else dec_loop (end_at - start) start 0

  -- A shift by four bits, and the digit.
  unfoldable pub hex_loop : ℕ → ℕ → ℕ → Option ℕ
  hex_loop zero i v = some v
  hex_loop (suc k) i v = elim (hex_value (line i)) [
    | none ↦ none
    | some d ↦ hex_loop k (i + 1) (v * 2 ^ 4 % 2 ^ 64 + d)
  ]

  -- `parseHex64`
  unfoldable pub parse_hex64 : ℕ → ℕ → Option ℕ
  parse_hex64 start end_at =
      let prefixed =
        leb 2 (end_at - start)
        && (line start == b'0' && (line (start + 1) == b'x' || line (start + 1) == b'X')) in
      let from = if prefixed then start + 2 else start in
      if leb end_at start
      then none
      else if leb end_at from
      then none
      else hex_loop (end_at - from) from 0

  -- The loop of `copyNameFromRange` and `copyDataFromRange`.
  unfoldable pub copy_range : ℕ → ℕ → ℕ → Array ℕ → Array ℕ
  copy_range start zero i dst = dst
  copy_range start (suc n) i dst = copy_range start n (i + 1) (update dst i (line (start + i)))

  -- `copyNameFromRange`, into a buffer that is set to zeros.
  unfoldable pub copy_name_from_range : ℕ → ℕ → Option (Array ℕ × ℕ)
  copy_name_from_range start end_at =
      let n = end_at - start in
      if leb end_at start || ltb 16 n then none else some (copy_range start n 0 (λ i. 0), n)

  -- `copyDataFromRange`
  unfoldable pub copy_data_from_range : ℕ → ℕ → Array ℕ → Array ℕ × ℕ
  copy_data_from_range start end_at data_buf =
      let n = if ltb 4096 (end_at - start) then 4096 else end_at - start in
      if ltb end_at start then (data_buf, 0) else (copy_range start n 0 data_buf, n)
