-- ===== src/Shell/Distance.antt =====
-- shell/shell.go: the edit distance by which the shell suggests a command.
use go_dav_os.Base.{
  ℕ, zero, suc, ◌+◌, ◌-◌, ◌<◌, ◌≤◌, ◌≡◌, refl, sym, ap, ◌∙◌, Array, update, ltb, ◌==◌, ==_iff,
  if◌then◌else◌, arith, Bool-cases, inl, inr,
}

-- `minInt`
unfoldable pub min_int : ℕ → ℕ → ℕ
min_int a b = if ltb a b then a else b

-- `for j := 0; j <= lenB; j++ { prev[j] = j }`
unfoldable pub first_row : ℕ → ℕ → Array ℕ → Array ℕ
first_row zero j prev = prev
first_row (suc n) j prev = first_row n (j + 1) (update prev j j)

-- `for j := 0; j <= lenB; j++ { prev[j] = curr[j] }`
unfoldable pub copy_cells : ℕ → ℕ → Array ℕ → Array ℕ → Array ℕ
copy_cells zero j curr prev = prev
copy_cells (suc n) j curr prev = copy_cells n (j + 1) curr (update prev j (curr j))

module _ (line cmd : Array ℕ) (start : ℕ) where
  -- The cost of putting the character `cmd[j-1]` for `lineBuf[start+i-1]`.
  abbrev pub cost : ℕ → ℕ → ℕ
  cost i j = if line (start + i - 1) == cmd (j - 1) then 0 else 1

  -- `for j := 1; j <= lenB; j++`
  unfoldable pub row_loop : ℕ → ℕ → ℕ → Array ℕ → Array ℕ → Array ℕ
  row_loop i zero j prev curr = curr
  row_loop i (suc n) j prev curr =
      row_loop i n (j + 1) prev (
        update curr j (min_int (min_int (prev j + 1) (curr (j - 1) + 1)) (prev (j - 1) + cost i j)))

  -- `for i := 1; i <= lenA; i++`
  unfoldable pub distance_loop : ℕ → ℕ → ℕ → Array ℕ → Array ℕ → Array ℕ
  distance_loop len_b zero i prev curr = prev
  distance_loop len_b (suc n) i prev curr =
      let filled = row_loop i len_b 1 prev (update curr 0 i) in
      distance_loop len_b n (i + 1) (copy_cells (len_b + 1) 0 filled prev) filled

-- `calculateDistance`
unfoldable pub calculate_distance : Array ℕ → ℕ → ℕ → Array ℕ → ℕ → ℕ
calculate_distance line start end_at cmd len_b =
    let blank : Array ℕ = λ j. 0 in
    let prev = first_row (len_b + 1) 0 blank in
    distance_loop line cmd start len_b (end_at - start) 1 prev blank len_b

-- The edit distance between the first `i` characters of `a` and the first `j` of `b`, by its recursion:
-- a character is dropped, added, or put for another.
unfoldable pub edit_distance : Array ℕ → Array ℕ → ℕ → ℕ → ℕ
edit_distance a b zero j = j
edit_distance a b (suc i) zero = suc i
edit_distance a b (suc i) (suc j) =
    min_int (min_int (edit_distance a b i (suc j) + 1) (edit_distance a b (suc i) j + 1))
      (edit_distance a b i j + (if a i == b j then 0 else 1))

-- A cell more of an array that is filled from the left with the values of `g`.
fill_next :
    (f g : Array ℕ) (j v m : ℕ)
    → ((k : ℕ) → k < j → f k ≡ g k)
    → v ≡ g j
    → m < j + 1
    → update f j v m ≡ g m
fill_next f g j v m done here lt = elim (Bool-cases (m == j)) [
  | inl same ↦ rw (same, (==_iff m j).0 same) here
  | inr other ↦ rw other (done m (ground (arith, other, lt)))
]

first_row_lem :
    (n j : ℕ) (prev : Array ℕ) (k : ℕ)
    → ((m : ℕ) → m < j → prev m ≡ m)
    → k < j + n
    → first_row n j prev k ≡ k
unfolding first_row
first_row_lem zero j prev k done lt = done k (omega (arith, lt))
first_row_lem (suc n) j prev k done lt =
    first_row_lem n (j + 1) (update prev j j) k (λ m lo. fill_next prev (λ k. k) j j m done refl lo)
      (omega (arith, lt))

copy_cells_lem :
    (n j : ℕ) (curr prev : Array ℕ) (k : ℕ)
    → ((m : ℕ) → m < j → prev m ≡ curr m)
    → k < j + n
    → copy_cells n j curr prev k ≡ curr k
unfolding copy_cells
copy_cells_lem zero j curr prev k done lt = done k (omega (arith, lt))
copy_cells_lem (suc n) j curr prev k done lt =
    copy_cells_lem n (j + 1) curr (update prev j (curr j)) k
      (λ m lo. fill_next prev curr j (curr j) m done refl lo) (omega (arith, lt))

module _ (line cmd : Array ℕ) (start : ℕ) where
  -- The row `i` of the table.
  abbrev lev : ℕ → ℕ → ℕ
  lev i j = edit_distance (λ k. line (start + k)) cmd i j

  first_cell : (i : ℕ) (curr : Array ℕ) (m : ℕ) → m < 1 → update curr 0 (i + 1) m ≡ lev (suc i) m
  unfolding edit_distance
  first_cell i curr m lt = let first : m ≡ 0 = omega (arith, lt) in rw first (omega arith)

  cell_value :
      (i j : ℕ) (prev curr : Array ℕ) (len : ℕ)
      → 1 ≤ j
      → j ≤ len
      → ((m : ℕ) → m ≤ len → prev m ≡ lev i m)
      → ((m : ℕ) → m < j → curr m ≡ lev (suc i) m)
      → min_int
          (min_int (prev j + 1) (curr (j - 1) + 1))
          (prev (j - 1) + cost line cmd start (i + 1) j)
        ≡ lev (suc i) j
  unfolding edit_distance
  cell_value i zero prev curr len one le above done = absurd (omega (arith, one))
  cell_value i (suc j) prev curr len one le above done =
      let back : suc j - 1 ≡ j = omega arith in
      let place : start + (i + 1) - 1 ≡ start + i = omega arith in
      rw (back, place, above (suc j) le, done j (omega arith), above j (omega (arith, le))) refl

  row_loop_lem :
      (i n j : ℕ) (prev curr : Array ℕ) (k len : ℕ)
      → 1 ≤ j
      → j + n ≡ len + 1
      → ((m : ℕ) → m ≤ len → prev m ≡ lev i m)
      → ((m : ℕ) → m < j → curr m ≡ lev (suc i) m)
      → k ≤ len
      → row_loop line cmd start (i + 1) n j prev curr k ≡ lev (suc i) k
  unfolding row_loop
  row_loop_lem i zero j prev curr k len one e above done le = done k (omega (arith, e, le))
  row_loop_lem i (suc n) j prev curr k len one e above done le =
      row_loop_lem i n (j + 1) prev
        (update curr j (
          min_int (min_int (prev j + 1) (curr (j - 1) + 1))
            (prev (j - 1) + cost line cmd start (i + 1) j)))
        k len (omega arith) (omega (arith, e)) above
        (λ m lo.
          fill_next curr (lev (suc i)) j
            (min_int (min_int (prev j + 1) (curr (j - 1) + 1))
              (prev (j - 1) + cost line cmd start (i + 1) j))
            m done (cell_value i j prev curr len one (omega (arith, e)) above done) lo)
        le

  distance_loop_lem :
      (len n i : ℕ) (prev curr : Array ℕ)
      → ((m : ℕ) → m ≤ len → prev m ≡ lev i m)
      → (m : ℕ) → m ≤ len
      → distance_loop line cmd start len n (i + 1) prev curr m ≡ lev (i + n) m
  unfolding distance_loop
  distance_loop_lem len zero i prev curr above m le =
      let plus : i + 0 ≡ i = omega arith in rw plus (above m le)
  distance_loop_lem len (suc n) i prev curr above m le =
      let plus : i + suc n ≡ i + 1 + n = omega arith in
      let next : i + 1 ≡ suc i = omega arith in
      let filled = row_loop line cmd start (i + 1) len 1 prev (update curr 0 (i + 1)) in
      let row : (k : ℕ) → k ≤ len → filled k ≡ lev (i + 1) k = λ k lk.
        row_loop_lem i len 1 prev (update curr 0 (i + 1)) k len (omega arith) (omega arith) above
          (first_cell i curr) lk
        ∙ ap (λ x. lev x k) (sym next) in
      rw plus (
        distance_loop_lem len n (i + 1) (copy_cells (len + 1) 0 filled prev) filled
          (λ k lk.
            copy_cells_lem (len + 1) 0 filled prev k (λ j lo. absurd (omega (arith, lo)))
              (omega (arith, lk))
            ∙ row k lk)
          m le)

  -- `calculateDistance` is the edit distance of the range of the line and the command.
  pub calculate_distance-edit_distance :
      (end_at len : ℕ)
      → calculate_distance line start end_at cmd len
        ≡ edit_distance (λ k. line (start + k)) cmd (end_at - start) len
  unfolding calculate_distance edit_distance
  calculate_distance-edit_distance end_at len =
      let plus : 0 + (end_at - start) ≡ end_at - start = omega arith in
      rw plus at (
        distance_loop_lem len (end_at - start) 0 (first_row (len + 1) 0 (λ j. 0)) (λ j. 0)
          (λ m le.
            first_row_lem (len + 1) 0 (λ j. 0) m (λ k lo. absurd (omega (arith, lo)))
              (omega (arith, le)))
          len (omega arith))
