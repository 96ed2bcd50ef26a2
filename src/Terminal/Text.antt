-- ===== src/Terminal/Text.antt =====
-- terminal/terminal.go: the cells of what is printed, and `Backspace`.
use go_dav_os.Base.{
  ℕ, suc, ◌+◌, ◌-◌, ◌*◌, ◌%◌, ◌^◌, ◌<◌, ◌≡◌, ◌≢◌, sym, ap, ◌∙◌, true, false, ◌&&◌, List, [], ◌∷◌,
  ◌++◌, ltb, leb, ◌==◌, if◌then◌else◌, arith, Bool-cases, inl, inr,
}
use go_dav_os.Terminal.{Terminal, debug_char, set_cell, new_line, backspace, put_rune}
use go_dav_os.Terminal.Screen.{IsValid, update_cursor_lem}

-- A character with a cell of its own.
pub record IsPlain (ch : ℕ) : Type 0 where
  pub byte : ch < 256
  pub not_back : ch ≢ 8
  pub not_line : ch ≢ 10

-- A plain character before the right edge is put under the cursor, which moves right.
put_rune-plain :
    (ch : ℕ) (t : Terminal)
    → IsPlain ch
    → t.column < 79
    → let u = put_rune ch t in
      (u.row ≡ t.row)
      × (u.column ≡ t.column + 1)
      × (u.color ≡ t.color)
      × (u.cells ≡ (set_cell t.row t.column (ch, t.color) t).cells)
unfolding put_rune
put_rune-plain ch t p lt =
    let back : (ch == 8) ≡ false = ground (arith, p.not_back) in
    let line : (ch == 10) ≡ false = ground (arith, p.not_line) in
    let byte : ch % 2 ^ 8 ≡ ch = omega (arith, p.byte) in
    let inside : leb 80 (t.column + 1) ≡ false = ground (arith, lt) in
    let s = set_cell t.row t.column (ch, t.color) t in
    rw (back, line, byte, inside)
      (update_cursor_lem
        (record s { events = s.events ++ debug_char ch ∷ []; column = s.column + 1 }))

-- The length of a text, and its characters; after the end 0.
unfoldable pub length : List ℕ → ℕ
length [] = 0
length (_ ∷ rest) = suc (length rest)

unfoldable pub char_at : List ℕ → ℕ → ℕ
char_at [] i = 0
char_at (ch ∷ rest) i = if i == 0 then ch else char_at rest (i - 1)

abbrev pub ArePlain : List ℕ → Type 0
ArePlain text = (i : ℕ) → i < length text → IsPlain (char_at text i)

-- A plain character at the right edge, above the last row, sends the cursor to the next row.
put_rune-edge :
    (ch : ℕ) (t : Terminal)
    → IsPlain ch
    → t.column ≡ 79
    → t.row < 24
    → let u = put_rune ch t in
      (u.row ≡ t.row + 1)
      × (u.column ≡ 0)
      × (u.color ≡ t.color)
      × (u.cells ≡ (set_cell t.row t.column (ch, t.color) t).cells)
unfolding put_rune new_line
put_rune-edge ch t p edge lt =
    let back : (ch == 8) ≡ false = ground (arith, p.not_back) in
    let line : (ch == 10) ≡ false = ground (arith, p.not_line) in
    let byte : ch % 2 ^ 8 ≡ ch = omega (arith, p.byte) in
    let past : leb 80 (t.column + 1) ≡ true = ground (arith, edge) in
    let above : leb 25 (t.row + 1) ≡ false = ground (arith, lt) in
    let s = set_cell t.row t.column (ch, t.color) t in
    rw (back, line, byte, past, above)
      (update_cursor_lem
        (record s { events = s.events ++ debug_char ch ∷ []; column = 0; row = t.row + 1 }))

backspace-inside :
    (u : Terminal) (row col : ℕ)
    → u.row ≡ row
    → u.column ≡ col + 1
    → ((backspace u).row ≡ row)
      × ((backspace u).column ≡ col)
      × ((backspace u).cells ≡ (set_cell row col (b' ', u.color) u).cells)
unfolding backspace
backspace-inside u row col r c =
    let right : ltb 0 (col + 1) ≡ true = ground arith in
    let back : col + 1 - 1 ≡ col = omega arith in
    let v = set_cell row col (b' ', u.color) (record u { column = col; row = row }) in
    let (row', column', _, cells') = update_cursor_lem v in
    rw (c, r, right, back) (row', column', cells')

backspace-edge :
    (u : Terminal) (row : ℕ)
    → u.row ≡ row + 1
    → u.column ≡ 0
    → ((backspace u).row ≡ row)
      × ((backspace u).column ≡ 79)
      × ((backspace u).cells ≡ (set_cell row 79 (b' ', u.color) u).cells)
unfolding backspace
backspace-edge u row r c =
    let under : ltb 0 (row + 1) ≡ true = ground arith in
    let back : row + 1 - 1 ≡ row = omega arith in
    let v = set_cell row 79 (b' ', u.color) (record u { row = row; column = 79 }) in
    let (row', column', _, cells') = update_cursor_lem v in
    rw (c, r, under, back) (row', column', cells')

blank_again :
    (row col color ch i j : ℕ) (t : Terminal)
    → (set_cell row col (b' ', color) (set_cell row col (ch, color) t)).cells i j
      ≡ (if i == row && j == col then (b' ', color) else t.cells i j)
blank_again row col color ch i j t = ground arith

-- A plain character that is not in the last cell of the screen is taken back by `Backspace`: the cursor
-- stands where it stood, and its cell is blank.
pub backspace-put_rune :
    (ch : ℕ) {t : Terminal}
    → IsPlain ch
    → IsValid t
    → t.row * 80 + t.column < 1999
    → let u = backspace (put_rune ch t) in
      (u.row ≡ t.row)
      × (u.column ≡ t.column)
      × ((i j : ℕ)
          → u.cells i j ≡ (if i == t.row && j == t.column then (b' ', t.color) else t.cells i j))
unfolding backspace
backspace-put_rune ch {t} p v inside = elim (Bool-cases (ltb t.column 79)) [
  | inl left ↦
      let (row, column, color, cells) = put_rune-plain ch t p (ground (arith, left)) in
      let (row', column', cells') = backspace-inside (put_rune ch t) t.row t.column row column in
      (
        row',
        column',
        λ i j.
            ap (λ f. f i j) cells'
            ∙ rw (color, cells) (blank_again t.row t.column t.color ch i j t),
      )
  | inr right ↦
      let edge : t.column ≡ 79 = ground (arith, right, v.column_low) in
      let (row, column, color, cells) = put_rune-edge ch t p edge (omega (arith, inside, edge)) in
      let (row', column', cells') = backspace-edge (put_rune ch t) t.row row column in
      (
        row',
        column' ∙ sym edge,
        λ i j.
            ap (λ f. f i j) cells'
            ∙ rw (color, cells, ← edge) (blank_again t.row t.column t.color ch i j t),
      )
]
