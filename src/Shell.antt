-- ===== src/Shell.antt =====
-- shell/shell.go: the line editor and the history.
pub mod Words
pub mod Distance
pub mod Numbers
pub mod History
pub mod HexText
pub mod Editor
mod Examples
use go_dav_os.Base.{
  ℕ, zero, suc, ◌+◌, ◌-◌, ◌*◌, ◌/◌, ◌%◌, ◌^◌, Bool, true, false, not, ◌&&◌, ◌||◌, Option, none,
  some, List, [], ◌∷◌, ◌++◌, Array, update, ltb, leb, ◌==◌, if◌then◌else◌,
}
use go_dav_os.Terminal.{Terminal, put_rune, print, backspace}

abbrev pub max_line : ℕ
max_line = 128

abbrev pub max_history : ℕ
max_history = 32

abbrev pub prompt : List ℕ
prompt = b'>' ∷ b' ' ∷ []

-- The package's variables of the line editor and of the history, and the screen. `W` is what else
-- commands act on.
pub record Shell (W : Type 0) : Type 0 where
  pub line_buf : Array ℕ
  pub line_len : ℕ
  pub history_buf : ℕ → Array ℕ
  pub history_len : Array ℕ
  pub history_head : ℕ
  pub history_count : ℕ
  pub screen : Terminal
  pub world : W

abbrev pub on_screen : {W : Type 0} → (Terminal → Terminal) → Shell W → Shell W
on_screen draw s = record s { screen = draw s.screen }

-- `Init`, with the reset of the agent's context.
unfoldable pub init : {W : Type 0} → (W → W) → Shell W → Shell W
init reset s = record s {
  line_len = 0;
  world = reset s.world;
  screen = print prompt (
      print
        (b'W' ∷ b'e' ∷ b'l' ∷ b'c' ∷ b'o' ∷ b'm' ∷ b'e' ∷ b' ' ∷ b't' ∷ b'o' ∷ b' ' ∷ b'D' ∷ b'a'
          ∷ b'v' ∷ b'O' ∷ b'S' ∷ b' ' ∷ b'0' ∷ b'.' ∷ b'5' ∷ b'.' ∷ b'0' ∷ 10 ∷ [])
        s.screen);
}

-- `FeedRune`, with `execute`: 13 is the carriage return, 10 the new line, 8 the backspace.
unfoldable pub feed_rune : {W : Type 0} → (Shell W → Shell W) → ℕ → Shell W → Shell W
feed_rune execute r s =
    let c = if r == 13 then 10 else r in
    if c == 8
    then (if s.line_len == 0
        then s
        else record s { line_len = s.line_len - 1; screen = backspace s.screen })
    else if c == 10
    then on_screen (print prompt) (record (execute (on_screen (put_rune 10) s)) { line_len = 0 })
    else if ltb c 32 || ltb 126 c
    then s
    else if leb max_line s.line_len
    then s
    else record s {
      line_buf = update s.line_buf s.line_len (c % 2 ^ 8);
      line_len = s.line_len + 1;
      screen = put_rune c s.screen;
    }

-- `for i := 0; i < n; i++`: whether the bytes of `a` and of `b` from `i` on are the same.
unfoldable pub same_bytes : ℕ → ℕ → Array ℕ → Array ℕ → Bool
same_bytes zero i a b = true
same_bytes (suc n) i a b = a i == b i && same_bytes n (i + 1) a b

unfoldable pub copy_bytes : ℕ → ℕ → Array ℕ → Array ℕ → Array ℕ
copy_bytes zero i src dst = dst
copy_bytes (suc n) i src dst = copy_bytes n (i + 1) src (update dst i (src i))

-- Whether the line is the newest entry of the history.
unfoldable pub is_duplicate : {W : Type 0} → Array ℕ → ℕ → Shell W → Bool
is_duplicate line len s =
    let last = (s.history_head + max_history - 1) % max_history in
    ltb 0 s.history_count
    && (s.history_len last == len && same_bytes len 0 (s.history_buf last) line)

-- The part of `execute` that puts the command, the `len` bytes of `line`, into the history, unless it is
-- empty or repeats the newest one.
unfoldable pub add_history : {W : Type 0} → Array ℕ → ℕ → Shell W → Shell W
add_history line len s =
    let idx = s.history_head in
    if len == 0 then s else if is_duplicate line len s then s else record s {
      history_buf = update s.history_buf idx (copy_bytes len 0 line (s.history_buf idx));
      history_len = update s.history_len idx len;
      history_head = (idx + 1) % max_history;
      history_count =
          if ltb s.history_count max_history then s.history_count + 1 else s.history_count;
    }
