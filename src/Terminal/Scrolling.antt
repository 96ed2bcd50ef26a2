-- ===== src/Terminal/Scrolling.antt =====
-- terminal/terminal.go: what the loops of `Clear` and `scroll` leave on the screen.
use go_dav_os.Base.{
  ℕ, zero, suc, ◌+◌, ◌-◌, ◌<◌, ◌≡◌, refl, ap, ◌∙◌, fun_ext, ◌&&◌, ltb, leb, ◌==◌, ==_iff,
  if◌then◌else◌, arith, Bool-cases, inl, inr,
}
use go_dav_os.Terminal.{Terminal, set_cell, blank_row, blank_rows, copy_row, copy_rows, scroll}

-- The terminal with other cells.
abbrev pub with_cells : (ℕ → ℕ → ℕ × ℕ) → Terminal → Terminal
with_cells f t = record t { cells = f }

with_cells_ext :
    (t : Terminal) (f g : ℕ → ℕ → ℕ × ℕ)
    → ((i j : ℕ) → f i j ≡ g i j)
    → with_cells f t ≡ with_cells g t
with_cells_ext t f g same = ap (λ h. with_cells h t) (fun_ext (λ i. fun_ext (same i)))

-- The row `r` blank in the columns from `c` on and before `last`.
abbrev pub row_blanked : ℕ → ℕ → ℕ → Terminal → ℕ → ℕ → ℕ × ℕ
row_blanked r c last t i j =
    if i == r && (leb c j && ltb j last) then (b' ', t.color) else t.cells i j

pub blank_row_lem :
    (r n c last : ℕ) (t : Terminal)
    → c + n ≡ last
    → blank_row r n c t ≡ with_cells (row_blanked r c last t) t
unfolding blank_row
blank_row_lem r zero c last t e =
    with_cells_ext t t.cells (row_blanked r c last t) (λ i j. ground (arith, e))
blank_row_lem r (suc n) c last t e =
    let u = set_cell r c (b' ', t.color) t in
    blank_row_lem r n (c + 1) last u (omega (arith, e))
    ∙ with_cells_ext t (row_blanked r (c + 1) last u) (row_blanked r c last t)
        (λ i j. ground (arith, e))

abbrev pub rows_blanked : ℕ → ℕ → Terminal → ℕ → ℕ → ℕ × ℕ
rows_blanked r last t i j =
    if leb r i && ltb i last && ltb j 80 then (b' ', t.color) else t.cells i j

pub blank_rows_lem :
    (n r last : ℕ) (t : Terminal)
    → r + n ≡ last
    → blank_rows n r t ≡ with_cells (rows_blanked r last t) t
unfolding blank_rows
blank_rows_lem zero r last t e =
    with_cells_ext t t.cells (rows_blanked r last t) (λ i j. ground (arith, e))
blank_rows_lem (suc n) r last t e = rw (blank_row_lem r 80 0 80 t refl) (
    blank_rows_lem n (r + 1) last (with_cells (row_blanked r 0 80 t) t) (omega (arith, e))
    ∙ with_cells_ext t (rows_blanked (r + 1) last (with_cells (row_blanked r 0 80 t) t))
        (rows_blanked r last t) (λ i j. ground (arith, e)))

abbrev pub row_copied : ℕ → ℕ → ℕ → Terminal → ℕ → ℕ → ℕ × ℕ
row_copied r c last t i j =
    if i == r && (leb c j && ltb j last) then t.cells (r + 1) j else t.cells i j

-- One cell more is copied.
copied_cell :
    (r c last i j : ℕ) (t : Terminal)
    → c < last
    → row_copied r (c + 1) last (set_cell r c (t.cells (r + 1) c) t) i j ≡ row_copied r c last t i j
copied_cell r c last i j t lt = elim (Bool-cases (j == c)) [
  | inl same ↦ let e = (==_iff j c).0 same in rw e (ground (arith, lt))
  | inr other ↦ ground (arith, other)
]

copy_row_lem :
    (r n c last : ℕ) (t : Terminal)
    → c + n ≡ last
    → copy_row (r + 1) n c t ≡ with_cells (row_copied r c last t) t
unfolding copy_row
copy_row_lem r zero c last t e =
    with_cells_ext t t.cells (row_copied r c last t) (λ i j. ground (arith, e))
copy_row_lem r (suc n) c last t e =
    let back : r + 1 - 1 ≡ r = omega arith in
    let u = set_cell r c (t.cells (r + 1) c) t in
    rw back (
      copy_row_lem r n (c + 1) last u (omega (arith, e))
      ∙ with_cells_ext t (row_copied r (c + 1) last u) (row_copied r c last t)
          (λ i j. copied_cell r c last i j t (omega (arith, e))))

-- The rows from `r` on and before `last` hold what stood one row below.
abbrev pub rows_copied : ℕ → ℕ → Terminal → ℕ → ℕ → ℕ × ℕ
rows_copied r last t i j =
    if leb r i && ltb i last && ltb j 80 then t.cells (i + 1) j else t.cells i j

copied_row :
    (r last i j : ℕ) (t : Terminal)
    → r < last
    → rows_copied (r + 1) last (with_cells (row_copied r 0 80 t) t) i j ≡ rows_copied r last t i j
copied_row r last i j t lt = elim (Bool-cases (i == r)) [
  | inl same ↦ let e = (==_iff i r).0 same in rw e (ground (arith, lt))
  | inr other ↦ ground (arith, other)
]

copy_rows_lem :
    (n r last : ℕ) (t : Terminal)
    → r + n ≡ last
    → copy_rows n (r + 1) t ≡ with_cells (rows_copied r last t) t
unfolding copy_rows
copy_rows_lem zero r last t e =
    with_cells_ext t t.cells (rows_copied r last t) (λ i j. ground (arith, e))
copy_rows_lem (suc n) r last t e =
    let u = with_cells (row_copied r 0 80 t) t in
    rw (copy_row_lem r 80 0 80 t refl) (
      copy_rows_lem n (r + 1) last u (omega (arith, e))
      ∙ with_cells_ext t (rows_copied (r + 1) last u) (rows_copied r last t)
          (λ i j. copied_row r last i j t (omega (arith, e))))

-- The screen one row up, with a blank last row.
abbrev pub scrolled : Terminal → ℕ → ℕ → ℕ × ℕ
scrolled t i j =
    if ltb i 24 && ltb j 80
    then t.cells (i + 1) j
    else if i == 24 && ltb j 80
    then (b' ', t.color)
    else t.cells i j

-- The loops of `scroll`, which copy cell by cell in place, move the screen one row up, blank its last
-- row, and change nothing else.
pub scroll_lem : (t : Terminal) → scroll t ≡ with_cells (scrolled t) t
unfolding scroll
scroll_lem t =
    let u = with_cells (rows_copied 0 24 t) t in
    rw (copy_rows_lem 24 0 24 t refl) (
      blank_row_lem 24 80 0 80 u refl
      ∙ with_cells_ext t (row_blanked 24 0 80 u) (scrolled t) (λ i j. ground arith))
