-- ===== src/Shell/Editor.antt =====
-- shell/shell.go: the line editor as an editor on a list.
use go_dav_os.Base.{
  ℕ, zero, suc, ◌+◌, ◌-◌, ◌%◌, ◌^◌, ◌<◌, ◌≤◌, ◌≡◌, refl, false, ◌||◌, List, [], ◌∷◌, Array, update,
  ltb, leb, ◌==◌, ==_refl, ==_iff, if◌then◌else◌, arith, Bool-cases, inl, inr,
}
use go_dav_os.Shell.{Shell, feed_rune}

-- The line as it has been typed, the last character first.
unfoldable pub line_of : ℕ → Array ℕ → List ℕ
line_of zero b = []
line_of (suc n) b = b n ∷ line_of n b

abbrev pub typed : {W : Type 0} → Shell W → List ℕ
typed s = line_of s.line_len s.line_buf

line_of_ext : (n : ℕ) (a b : Array ℕ) → ((k : ℕ) → k < n → a k ≡ b k) → line_of n a ≡ line_of n b
unfolding line_of
line_of_ext zero a b same = refl
line_of_ext (suc n) a b same =
    rw (same n (omega arith), line_of_ext n a b (λ k lt. same k (omega (arith, lt)))) refl

abbrev pub drop_first : List ℕ → List ℕ
drop_first [] = []
drop_first (_ ∷ rest) = rest

line_of_back : (n : ℕ) (b : Array ℕ) → line_of (n - 1) b ≡ drop_first (line_of n b)
unfolding line_of
line_of_back zero b = refl
line_of_back (suc n) b = let back : suc n - 1 ≡ n = omega arith in rw back refl

line_of_put : (n c : ℕ) (b : Array ℕ) → line_of (n + 1) (update b n c) ≡ c ∷ line_of n b
unfolding line_of
line_of_put n c b =
    let next : n + 1 ≡ suc n = omega arith in
    rw
      (
        next,
        ==_refl n,
        line_of_ext n (update b n c) b
            (λ k lt. let other : (k == n) ≡ false = ground (arith, lt) in rw other refl),
        line_of,
      )
      refl

-- The editor on a list: what a rune does to the line `text` of `n` characters.
unfoldable pub edit : ℕ → ℕ → List ℕ → List ℕ
edit r n text =
    if r == 8
    then drop_first text
    else if r == 10 || r == 13
    then []
    else if ltb r 32 || ltb 126 r
    then text
    else if leb 128 n
    then text
    else r ∷ text

module _ {W : Type 0} (execute : Shell W → Shell W) where
  -- Each rune keeps the length of the line within its buffer, and does to the typed line what the editor on a
  -- list does: a backspace takes the last character, if there is one, a new line or a carriage return
  -- starts over whatever the command did, a printable character is added while there is room, and any
  -- other is ignored.
  pub feed_rune-edit :
      (r : ℕ) (s : Shell W)
      → s.line_len ≤ 128
      → ((feed_rune execute r s).line_len ≤ 128)
        × (typed (feed_rune execute r s) ≡ edit r s.line_len (typed s))
  unfolding feed_rune edit line_of
  feed_rune-edit r s le = elim (Bool-cases (r == 13)) [
    | inl return ↦ let e = (==_iff r 13).0 return in rw (e, feed_rune, edit) (omega arith, refl)
    | inr other ↦ elim (Bool-cases (r == 8)) [
      | inl back ↦ elim (Bool-cases (s.line_len == 0)) [
        | inl empty ↦
            let e = (==_iff s.line_len 0).0 empty in
            rw (other, back, empty, feed_rune, edit) (le, rw e refl)
        | inr some_left ↦
            rw (other, back, some_left, feed_rune, edit)
              (omega (arith, le), line_of_back s.line_len s.line_buf)
      ]
      | inr forward ↦ elim (Bool-cases (r == 10)) [
        | inl line ↦ rw (other, forward, line, feed_rune, edit) (omega arith, refl)
        | inr in_line ↦ elim (Bool-cases (ltb r 32 || ltb 126 r)) [
          | inl hidden ↦ rw (other, forward, in_line, hidden, feed_rune, edit) (le, refl)
          | inr shown ↦ elim (Bool-cases (leb 128 s.line_len)) [
            | inl full ↦ rw (other, forward, in_line, shown, full, feed_rune, edit) (le, refl)
            | inr room ↦
                let byte : r % 2 ^ 8 ≡ r = ground (arith, shown) in
                rw (other, forward, in_line, shown, room, byte, feed_rune, edit)
                  (ground (arith, room, le), line_of_put s.line_len r s.line_buf)
          ]
        ]
      ]
    ]
  ]
