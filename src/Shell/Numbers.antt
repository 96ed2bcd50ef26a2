-- ===== src/Shell/Numbers.antt =====
-- shell/shell.go: the numbers, names and lines that the shell prints, and the commands it suggests.
use go_dav_os.Base.{
  ℕ, zero, suc, ◌+◌, ◌-◌, ◌/◌, ◌%◌, ◌^◌, not, List, [], ◌∷◌, Array, ltb, ◌==◌, if◌then◌else◌,
}
use go_dav_os.Terminal.{Terminal, put_rune, print}
use go_dav_os.Shell.{Shell, max_line, max_history}
use go_dav_os.Shell.Words.{length}
use go_dav_os.Shell.Distance.{calculate_distance}

-- `hexDigits[d]`
abbrev pub hex_char : ℕ → ℕ
hex_char d = if ltb d 10 then 48 + d else 55 + d

-- The `n` lowest hexadecimal digits of `v`.
unfoldable pub hex_text : ℕ → ℕ → List ℕ
hex_text zero v = []
hex_text (suc i) v = hex_char (v / 16 ^ i % 16) ∷ hex_text i v

-- `printHexU64`, `printHex32`, `printHex64` and `printHex8`
unfoldable pub print_hex_u64 : ℕ → Terminal → Terminal
print_hex_u64 v t = print (hex_text 16 v) t

unfoldable pub print_hex32 : ℕ → Terminal → Terminal
print_hex32 v t = print (hex_text 8 v) t

unfoldable pub print_hex64 : ℕ → ℕ → Terminal → Terminal
print_hex64 hi lo t = print_hex32 lo (print_hex32 hi t)

unfoldable pub print_hex8 : ℕ → Terminal → Terminal
print_hex8 b t = print (hex_text 2 b) t

-- The digits of `printUint`, in front of which the next ones are put; 10 places are enough for 32 bits.
unfoldable pub dec_text : ℕ → ℕ → List ℕ → List ℕ
dec_text zero u text = text
dec_text (suc n) u text =
    let rest = dec_text n (u / 10) ((48 + u % 10) ∷ text) in if u == 0 then text else rest

-- `printUint`
unfoldable pub print_uint : ℕ → Terminal → Terminal
print_uint v t =
    if v == 0
    then put_rune b'0' t
    else if not (v / 2 ^ 32 == 0)
    then print_hex_u64 v (print (b'0' ∷ b'x' ∷ []) t)
    else print (dec_text 10 (v % 2 ^ 32) []) t

-- The loops of `printRange` and `printName`.
unfoldable pub print_bytes : ℕ → ℕ → Array ℕ → Terminal → Terminal
print_bytes zero i b t = t
print_bytes (suc n) i b t = print_bytes n (i + 1) b (put_rune (b i) t)

-- `printRange`: up to the end of the range and of the line.
unfoldable pub print_range : Array ℕ → ℕ → ℕ → Terminal → Terminal
print_range line start end_at t =
    let last = if ltb end_at max_line then end_at else max_line in
    print_bytes (last - start) start line t

-- `printName`
unfoldable pub print_name : Array ℕ → ℕ → Terminal → Terminal
print_name name len t = print_bytes len 0 name t

-- The loop of `printHistory`, from the entry `i` on.
unfoldable pub print_entries : {W : Type 0} → Shell W → ℕ → ℕ → Terminal → Terminal
print_entries s zero i t = t
print_entries s (suc n) i t =
    let idx = ((s.history_head + max_history - s.history_count) % max_history + i) % max_history in
    print_entries s n (i + 1) (
      put_rune 10 (
        print_bytes (s.history_len idx) 0 (s.history_buf idx)
          (print (b' ' ∷ []) (print_uint (i + 1) t))))

-- `printHistory`
unfoldable pub print_history : {W : Type 0} → Shell W → Shell W
print_history s = record s { screen = print_entries s s.history_count 0 s.screen }

-- `commandBuf`
abbrev pub commands : List (List ℕ)
commands =
    (b'h' ∷ b'e' ∷ b'l' ∷ b'p' ∷ [])
    ∷ (b'h' ∷ b'i' ∷ b's' ∷ b't' ∷ b'o' ∷ b'r' ∷ b'y' ∷ [])
    ∷ (b'c' ∷ b'l' ∷ b'e' ∷ b'a' ∷ b'r' ∷ [])
    ∷ (b'e' ∷ b'c' ∷ b'h' ∷ b'o' ∷ [])
    ∷ (b't' ∷ b'i' ∷ b'c' ∷ b'k' ∷ b's' ∷ [])
    ∷ (b'u' ∷ b'p' ∷ b't' ∷ b'i' ∷ b'm' ∷ b'e' ∷ [])
    ∷ (b'm' ∷ b'e' ∷ b'm' ∷ [])
    ∷ (b'm' ∷ b'm' ∷ b'a' ∷ b'p' ∷ [])
    ∷ (b'm' ∷ b'm' ∷ b'a' ∷ b'p' ∷ b'm' ∷ b'a' ∷ b'x' ∷ [])
    ∷ (b'p' ∷ b'f' ∷ b'a' ∷ [])
    ∷ (b'a' ∷ b'l' ∷ b'l' ∷ b'o' ∷ b'c' ∷ [])
    ∷ (b'f' ∷ b'r' ∷ b'e' ∷ b'e' ∷ [])
    ∷ (b'l' ∷ b's' ∷ [])
    ∷ (b'w' ∷ b'r' ∷ b'i' ∷ b't' ∷ b'e' ∷ [])
    ∷ (b'c' ∷ b'a' ∷ b't' ∷ [])
    ∷ (b'r' ∷ b'm' ∷ [])
    ∷ (b's' ∷ b't' ∷ b'a' ∷ b't' ∷ [])
    ∷ (b'd' ∷ b'i' ∷ b's' ∷ b'k' ∷ [])
    ∷ (b'f' ∷ b'a' ∷ b't' ∷ b'i' ∷ b'n' ∷ b'i' ∷ b't' ∷ [])
    ∷ (b'f' ∷ b'a' ∷ b't' ∷ b'f' ∷ b'o' ∷ b'r' ∷ b'm' ∷ b'a' ∷ b't' ∷ [])
    ∷ (b'f' ∷ b'a' ∷ b't' ∷ b'i' ∷ b'n' ∷ b'f' ∷ b'o' ∷ [])
    ∷ (b'f' ∷ b'a' ∷ b't' ∷ b'l' ∷ b's' ∷ [])
    ∷ (b'f' ∷ b'a' ∷ b't' ∷ b'c' ∷ b'r' ∷ b'e' ∷ b'a' ∷ b't' ∷ b'e' ∷ [])
    ∷ (b'f' ∷ b'a' ∷ b't' ∷ b'r' ∷ b'e' ∷ b'a' ∷ b'd' ∷ [])
    ∷ (b'l' ∷ b'a' ∷ b'y' ∷ b'o' ∷ b'u' ∷ b't' ∷ [])
    ∷ (b'v' ∷ b'e' ∷ b'r' ∷ b's' ∷ b'i' ∷ b'o' ∷ b'n' ∷ [])
    ∷ (b'r' ∷ b'u' ∷ b'n' ∷ [])
    ∷ (b'a' ∷ b'g' ∷ b'e' ∷ b'n' ∷ b't' ∷ [])
    ∷ []

-- The characters of a command, as an array.
unfoldable pub char_at : List ℕ → ℕ → ℕ
char_at [] i = 0
char_at (c ∷ rest) i = if i == 0 then c else char_at rest (i - 1)

-- The commands that are near to the word: the loop at the end of `execute`.
unfoldable pub suggestions : Array ℕ → ℕ → ℕ → List (List ℕ) → List (List ℕ)
suggestions line start end_at [] = []
suggestions line start end_at (cmd ∷ rest) =
    let later = suggestions line start end_at rest in
    if ltb (calculate_distance line start end_at (char_at cmd) (length cmd)) 3
    then cmd ∷ later
    else later
