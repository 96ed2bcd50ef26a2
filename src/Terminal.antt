-- ===== src/Terminal.antt =====
-- terminal/terminal.go: the screen, its cursor, and what is printed.
pub mod Numbers
pub mod Scrolling
pub mod Screen
pub mod Text
pub mod Decimal
mod Examples
use go_dav_os.Base.{
  ℕ, zero, suc, ◌+◌, ◌-◌, ◌*◌, ◌/◌, ◌%◌, ◌^◌, Bool, true, false, not, ◌&&◌, ◌||◌, Option, none,
  some, List, [], ◌∷◌, ◌++◌, Array, update, ltb, leb, ◌==◌, if◌then◌else◌,
}
use go_dav_os.Base.Ints.{ℤ, pos, negsuc, add_nat}

abbrev pub vga_width : ℕ
vga_width = 80

abbrev pub vga_height : ℕ
vga_height = 25

abbrev pub cursor_index_port : ℕ
cursor_index_port = 0x3D4

abbrev pub cursor_data_port : ℕ
cursor_data_port = 0x3D5

-- What goes to the hardware: a byte to a port, a character to the debug console.
pub data Event : Type 0 where
  out_byte : ℕ → ℕ → Event
  debug_char : ℕ → Event

-- The package's variables and the video memory, whose cells hold a character and a colour.
pub record Terminal : Type 0 where
  pub column : ℕ
  pub row : ℕ
  pub color : ℕ
  pub cells : ℕ → ℕ → ℕ × ℕ
  pub events : List Event

-- `makeColor`
abbrev pub make_color : ℕ → ℕ → ℕ
make_color fg bg = (fg + bg * 2 ^ 4) % 2 ^ 8

-- `vidMem[r][c] = v`
abbrev pub set_cell : ℕ → ℕ → ℕ × ℕ → Terminal → Terminal
set_cell r c v t = record t { cells = λ i j. if i == r && j == c then v else t.cells i j }

-- `updateCursor`
unfoldable pub update_cursor : Terminal → Terminal
update_cursor t =
    let at_cell = (t.row * vga_width + t.column) % 2 ^ 16 in
    record t {
      events =
          t.events
          ++ out_byte cursor_index_port 0x0F
            ∷ out_byte cursor_data_port (at_cell % 256)
            ∷ out_byte cursor_index_port 0x0E
            ∷ out_byte cursor_data_port (at_cell / 2 ^ 8 % 256)
            ∷ [];
    }

-- A loop of `Clear` and of `scroll` over `n` cells of the row `r` from column `c` on.
unfoldable pub blank_row : ℕ → ℕ → ℕ → Terminal → Terminal
blank_row r zero c t = t
blank_row r (suc n) c t = blank_row r n (c + 1) (set_cell r c (b' ', t.color) t)

unfoldable pub blank_rows : ℕ → ℕ → Terminal → Terminal
blank_rows zero r t = t
blank_rows (suc n) r t = blank_rows n (r + 1) (blank_row r vga_width 0 t)

-- `Clear`
unfoldable pub clear : Terminal → Terminal
clear t = update_cursor (record (blank_rows vga_height 0 t) { column = 0; row = 0 })

-- `Init`: light grey on black.
unfoldable pub init : Terminal → Terminal
init t = clear (record t { color = make_color 7 0; column = 0; row = 0 })

-- The loops of `scroll`, which copy each row to the one above it.
unfoldable pub copy_row : ℕ → ℕ → ℕ → Terminal → Terminal
copy_row r zero c t = t
copy_row r (suc n) c t = copy_row r n (c + 1) (set_cell (r - 1) c (t.cells r c) t)

unfoldable pub copy_rows : ℕ → ℕ → Terminal → Terminal
copy_rows zero r t = t
copy_rows (suc n) r t = copy_rows n (r + 1) (copy_row r vga_width 0 t)

-- `scroll`
unfoldable pub scroll : Terminal → Terminal
scroll t = blank_row (vga_height - 1) vga_width 0 (copy_rows (vga_height - 1) 1 t)

-- The start of the row `r`, or of the last row of a screen that has been scrolled.
unfoldable pub new_line : ℕ → Terminal → Terminal
new_line r t =
    if leb vga_height r
    then record (scroll (record t { column = 0; row = r })) { row = vga_height - 1 }
    else record t { column = 0; row = r }

-- `Backspace`
unfoldable pub backspace : Terminal → Terminal
backspace t = update_cursor (
    if ltb 0 t.column
    then set_cell t.row (t.column - 1) (b' ', t.color) (record t { column = t.column - 1 })
    else if ltb 0 t.row
    then set_cell (t.row - 1) (vga_width - 1) (b' ', t.color)
        (record t { row = t.row - 1; column = vga_width - 1 })
    else t)

-- `putRune`, and `PutRune`: 8 is the backspace and 10 the new line.
unfoldable pub put_rune : ℕ → Terminal → Terminal
put_rune ch t =
    let s = set_cell t.row t.column (ch % 2 ^ 8, t.color) t in
    let u = record s { events = s.events ++ debug_char (ch % 2 ^ 8) ∷ []; column = s.column + 1 } in
    if ch == 8
    then backspace t
    else if ch == 10
    then update_cursor (new_line (t.row + 1) t)
    else if leb vga_width u.column
    then update_cursor (new_line (u.row + 1) u)
    else update_cursor u

-- `Print`
unfoldable pub print : List ℕ → Terminal → Terminal
print [] t = t
print (ch ∷ rest) t = print rest (put_rune ch t)

-- `putRuneAt` on the screen.
unfoldable pub put_rune_on : ℕ → ℕ → ℕ → Terminal → Terminal
put_rune_on col curr_row ch t =
    let s = set_cell curr_row col (ch % 2 ^ 8, t.color) t in
    let u = record s { column = col + 1; row = curr_row } in
    if leb vga_width col
    then t
    else if leb vga_height curr_row
    then t
    else if ch == 10
    then update_cursor (new_line (curr_row + 1) t)
    else if leb vga_width u.column
    then update_cursor (new_line (curr_row + 1) u)
    else update_cursor u

-- `putRuneAt`
unfoldable pub put_rune_at : ℤ → ℤ → ℕ → Terminal → Terminal
put_rune_at (pos col) (pos curr_row) ch t = put_rune_on col curr_row ch t
put_rune_at (pos col) (negsuc curr_row) ch t = t
put_rune_at (negsuc col) curr_row ch t = t

-- `PrintAt`
unfoldable pub print_at : ℤ → ℤ → List ℕ → Terminal → Terminal
print_at col curr_row [] t = t
print_at col curr_row (ch ∷ rest) t =
    print_at (add_nat col 1) curr_row rest (put_rune_at col curr_row ch t)
