-- ===== src/Terminal/Screen.antt =====
-- terminal/terminal.go: the cursor, and the memory of the screen.
use go_dav_os.Base.{
  ℕ, ◌+◌, ◌-◌, ◌*◌, ◌/◌, ◌%◌, ◌^◌, ◌<◌, ◌≤◌, ◌≡◌, ◌⊎◌, refl, ◌∙◌, ◌&&◌, List, [], ◌∷◌, ◌++◌, ltb,
  leb, ◌==◌, if◌then◌else◌, arith, Bool-cases, inl, inr,
}
use go_dav_os.Base.Ints.{ℤ, pos, negsuc, add_nat}
use go_dav_os.Terminal.{
  Terminal, Event, out_byte, debug_char, set_cell, update_cursor, clear, init, new_line, backspace,
  put_rune, print, put_rune_on, put_rune_at, print_at, make_color,
}
use go_dav_os.Terminal.Scrolling.{scroll_lem, with_cells, blank_rows_lem, rows_blanked}

-- The bytes that move the hardware's cursor to the cell `n`.
abbrev pub cursor_bytes : ℕ → List Event
cursor_bytes n =
    out_byte 0x3D4 0x0F
    ∷ out_byte 0x3D5 (n % 256)
    ∷ out_byte 0x3D4 0x0E
    ∷ out_byte 0x3D5 (n / 256)
    ∷ []

-- The cursor is on the screen, and the hardware's cursor was last moved to it.
pub record IsValid (t : Terminal) : Type 0 where
  pub column_low : t.column < 80
  pub row_low : t.row < 25
  pub before : List Event
  pub shown : t.events ≡ before ++ cursor_bytes (t.row * 80 + t.column)

-- The colour and the memory outside the screen are the same.
pub record SameOutside (t u : Terminal) : Type 0 where
  pub color : u.color ≡ t.color
  pub outside : (i j : ℕ) → (25 ≤ i) ⊎ (80 ≤ j) → u.cells i j ≡ t.cells i j

SameOutside-refl : (t : Terminal) → SameOutside t t
SameOutside-refl t = record { color = refl; outside = λ i j o. refl }

SameOutside-trans : {t u v : Terminal} → SameOutside t u → SameOutside u v → SameOutside t v
SameOutside-trans p q = record {
  color = q.color ∙ p.color;
  outside = λ i j o. q.outside i j o ∙ p.outside i j o;
}

update_cursor-IsValid : (t : Terminal) → t.column < 80 → t.row < 25 → IsValid (update_cursor t)
unfolding update_cursor
update_cursor-IsValid t c r =
    let place : (t.row * 80 + t.column) % 2 ^ 16 ≡ t.row * 80 + t.column = omega (arith, c, r) in
    let high : (t.row * 80 + t.column) / 2 ^ 8 % 256 ≡ (t.row * 80 + t.column) / 256 =
      omega (arith, c, r) in
    record { column_low = c; row_low = r; before = t.events; shown = rw (place, high) refl }

pub update_cursor_lem :
    (t : Terminal)
    → ((update_cursor t).row ≡ t.row)
      × ((update_cursor t).column ≡ t.column)
      × ((update_cursor t).color ≡ t.color)
      × ((update_cursor t).cells ≡ t.cells)
unfolding update_cursor
update_cursor_lem t = (refl, refl, refl, refl)

update_cursor-SameOutside : (t u : Terminal) → SameOutside t u → SameOutside t (update_cursor u)
unfolding update_cursor
update_cursor-SameOutside t u s = record { color = s.color; outside = s.outside }

set_cell-SameOutside :
    (r c : ℕ) (v : ℕ × ℕ) (t : Terminal) → r < 25 → c < 80 → SameOutside t (set_cell r c v t)
set_cell-SameOutside r c v t lr lc = record {
  color = refl;
  outside = λ i j o. ground (arith, lr, lc, o);
}

-- What an operation on a cursor that is on the screen leaves.
pub record Stays (t u : Terminal) : Type 0 where
  pub column_low : u.column < 80
  pub row_low : u.row < 25
  pub same : SameOutside t u

Stays-shown :
    {t u : Terminal} → Stays t u → IsValid (update_cursor u) × SameOutside t (update_cursor u)
Stays-shown {t} {u} s =
    (update_cursor-IsValid u s.column_low s.row_low, update_cursor-SameOutside t u s.same)

new_line-Stays : (r : ℕ) (t : Terminal) → r ≤ 25 → Stays t (new_line r t)
unfolding new_line
new_line-Stays r t le = elim (Bool-cases (leb 25 r)) [
  | inr inside ↦
      rw (inside, new_line)
        (record {
          column_low = omega arith;
          row_low = ground (arith, inside);
          same = record { color = refl; outside = λ i j o. refl };
        })
  | inl past ↦
      rw (past, scroll_lem (record t { column = 0; row = r }), new_line)
        (record {
          column_low = omega arith;
          row_low = omega arith;
          same = record { color = refl; outside = λ i j o. ground (arith, o) };
        })
]

-- What each operation keeps: a cursor on the screen, shown, and the memory outside.
abbrev pub Keeps : Terminal → Terminal → Type 0
Keeps t u = IsValid u × SameOutside t u

backspace-Keeps : {t : Terminal} → IsValid t → Keeps t (backspace t)
unfolding backspace
backspace-Keeps {t} v = elim (Bool-cases (ltb 0 t.column)) [
  | inl right ↦
      let low : t.column - 1 < 80 = omega (arith, v.column_low) in
      let blank = set_cell-SameOutside t.row (t.column - 1) (b' ', t.color) t v.row_low low in
      rw (right, backspace)
        (Stays-shown (record {
          column_low = low;
          row_low = v.row_low;
          same = record { color = refl; outside = blank.outside };
        }))
  | inr left ↦ elim (Bool-cases (ltb 0 t.row)) [
    | inl under ↦
        let low : t.row - 1 < 25 = omega (arith, v.row_low) in
        let blank = set_cell-SameOutside (t.row - 1) 79 (b' ', t.color) t low (omega arith) in
        rw (left, under, backspace)
          (Stays-shown (record {
            column_low = omega arith;
            row_low = low;
            same = record { color = refl; outside = blank.outside };
          }))
    | inr top ↦
        rw (left, top, backspace)
          (Stays-shown
            (record { column_low = v.column_low; row_low = v.row_low; same = SameOutside-refl t }))
  ]
]

-- A cell of the screen is written, and the cursor goes behind it.
put_cell-Keeps :
    (r c ch : ℕ) (t u : Terminal)
    → r < 25
    → c < 80
    → u.cells ≡ (set_cell r c (ch, t.color) t).cells
    → u.color ≡ t.color
    → u.column ≡ c + 1
    → u.row ≡ r
    → Keeps t (if leb 80 u.column then update_cursor (new_line (r + 1) u) else update_cursor u)
put_cell-Keeps r c ch t u lr lc cells color column row =
    let put = set_cell-SameOutside r c (ch, t.color) t lr lc in
    let same : SameOutside t u = record { color = color; outside = rw cells put.outside } in
    elim (Bool-cases (leb 80 u.column)) [
      | inl past ↦
          let s = new_line-Stays (r + 1) u (omega (arith, lr)) in
          rw past (
            Stays-shown (record {
              column_low = s.column_low;
              row_low = s.row_low;
              same = SameOutside-trans same s.same;
            }))
      | inr inside ↦ rw inside (
          Stays-shown
            (record { column_low = ground (arith, inside); row_low = rw row lr; same = same }))
    ]

put_rune-Keeps : (ch : ℕ) {t : Terminal} → IsValid t → Keeps t (put_rune ch t)
unfolding put_rune
put_rune-Keeps ch {t} v = elim (Bool-cases (ch == 8)) [
  | inl back ↦ rw (back, put_rune) (backspace-Keeps v)
  | inr visible ↦ elim (Bool-cases (ch == 10)) [
    | inl line ↦
        rw (visible, line, put_rune)
          (Stays-shown (new_line-Stays (t.row + 1) t (omega (arith, v.row_low))))
    | inr plain ↦
        let s = set_cell t.row t.column (ch % 2 ^ 8, t.color) t in
        let u = record s {
          events = s.events ++ debug_char (ch % 2 ^ 8) ∷ [];
          column = s.column + 1;
        } in
        rw (visible, plain, put_rune)
          (put_cell-Keeps t.row t.column (ch % 2 ^ 8) t u v.row_low v.column_low refl refl refl
            refl)
  ]
]

Keeps-trans : {t u w : Terminal} → Keeps t u → Keeps u w → Keeps t w
Keeps-trans (_, s) (v, s') = (v, SameOutside-trans s s')

pub print-Keeps : (text : List ℕ) {t : Terminal} → IsValid t → Keeps t (print text t)
unfolding print
print-Keeps [] {t} v = (v, SameOutside-refl t)
print-Keeps (ch ∷ rest) v =
    let first = put_rune-Keeps ch v in Keeps-trans first (print-Keeps rest first.0)

put_rune_on-Keeps : (col row ch : ℕ) {t : Terminal} → IsValid t → Keeps t (put_rune_on col row ch t)
unfolding put_rune_on
put_rune_on-Keeps col row ch {t} v = elim (Bool-cases (leb 80 col)) [
  | inl right ↦ rw (right, put_rune_on) (v, SameOutside-refl t)
  | inr left ↦ elim (Bool-cases (leb 25 row)) [
    | inl under ↦ rw (left, under, put_rune_on) (v, SameOutside-refl t)
    | inr above ↦ elim (Bool-cases (ch == 10)) [
      | inl line ↦
          rw (left, above, line, put_rune_on)
            (Stays-shown (new_line-Stays (row + 1) t (ground (arith, above))))
      | inr plain ↦
          let s = set_cell row col (ch % 2 ^ 8, t.color) t in
          let u = record s { column = col + 1; row = row } in
          rw (left, above, plain, put_rune_on)
            (put_cell-Keeps row col (ch % 2 ^ 8) t u (ground (arith, above)) (ground (arith, left))
              refl refl refl refl)
    ]
  ]
]

put_rune_at-Keeps :
    (col row : ℤ) (ch : ℕ) {t : Terminal} → IsValid t → Keeps t (put_rune_at col row ch t)
unfolding put_rune_at
put_rune_at-Keeps (pos c) (pos r) ch v = put_rune_on-Keeps c r ch v
put_rune_at-Keeps (pos c) (negsuc r) ch {t} v = (v, SameOutside-refl t)
put_rune_at-Keeps (negsuc c) row ch {t} v = (v, SameOutside-refl t)

pub print_at-Keeps :
    (col row : ℤ) (text : List ℕ) {t : Terminal} → IsValid t → Keeps t (print_at col row text t)
unfolding print_at
print_at-Keeps col row [] {t} v = (v, SameOutside-refl t)
print_at-Keeps col row (ch ∷ rest) v =
    let first = put_rune_at-Keeps col row ch v in
    Keeps-trans first (print_at-Keeps (add_nat col 1) row rest first.0)

-- `Print` of any text, and `PrintAt` of any text at any place, also off the screen or across its edge,
-- keep the cursor on the screen and the hardware's cursor at it, do not change the colour, and write to
-- no memory outside the screen.
pub print-print_at-Keeps :
    (text : List ℕ) (col row : ℤ) {t : Terminal}
    → IsValid t
    → Keeps t (print text t) × Keeps t (print_at col row text t)
print-print_at-Keeps text col row v = (print-Keeps text v, print_at-Keeps col row text v)

-- `Init` blanks the screen in light grey on black, with the cursor, shown, in its first cell, whatever
-- the variables were.
pub init-IsValid :
    (t : Terminal)
    → IsValid (init t)
      × ((init t).row ≡ 0)
      × ((init t).column ≡ 0)
      × ((i j : ℕ) → (init t).cells i j ≡ (if ltb i 25 && ltb j 80 then (b' ', 7) else t.cells i j))
unfolding init clear update_cursor
init-IsValid t =
    let s = record t { color = make_color 7 0; column = 0; row = 0 } in
    let u = with_cells (rows_blanked 0 25 s) s in
    rw (blank_rows_lem 25 0 25 s refl)
      (update_cursor-IsValid u (omega arith) (omega arith), refl, refl, λ i j. ground arith)
