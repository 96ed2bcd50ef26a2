-- ===== src/Shell/History.antt =====
-- shell/shell.go: the ring buffer of the history, as the list of the newest commands.
use go_dav_os.Base.{
  ℕ, zero, suc, ◌+◌, ◌-◌, ◌%◌, ◌<◌, ◌≤◌, ◌≡◌, ◌≢◌, ◌⊎◌, refl, ap, true, false, List, [], ◌∷◌, Array,
  update, ltb, ◌==◌, ==_iff, ==_refl, if◌then◌else◌, arith, Bool-cases, inl, inr,
}
use go_dav_os.Shell.{Shell, same_bytes, copy_bytes, is_duplicate, add_history}

-- The ring's variables are in bounds.
pub record IsValid {W : Type 0} (s : Shell W) : Type 0 where
  pub head_low : s.history_head < 32
  pub count_low : s.history_count ≤ 32

-- The `n` bytes from place `i` on.
unfoldable pub bytes : ℕ → ℕ → Array ℕ → List ℕ
bytes zero i b = []
bytes (suc n) i b = b i ∷ bytes n (i + 1) b

-- The place of the command that is `k` commands older than the newest, and the command.
abbrev pub place_of : {W : Type 0} → Shell W → ℕ → ℕ
place_of s k = (s.history_head + 31 - k) % 32

abbrev pub command : {W : Type 0} → Shell W → ℕ → List ℕ
command s k = bytes (s.history_len (place_of s k)) 0 (s.history_buf (place_of s k))

bytes_ext :
    (n i : ℕ) (a b : Array ℕ)
    → ((k : ℕ) → i ≤ k → k < i + n → a k ≡ b k)
    → bytes n i a ≡ bytes n i b
unfolding bytes
bytes_ext zero i a b same = refl
bytes_ext (suc n) i a b same =
    rw
      (
        same i (omega arith) (omega arith),
        bytes_ext n (i + 1) a b (λ k lo hi. same k (omega (arith, lo)) (omega (arith, hi))),
      )
      refl

copy_bytes_lem :
    (n i : ℕ) (src dst : Array ℕ) (k : ℕ)
    → ((m : ℕ) → m < i → dst m ≡ src m)
    → k < i + n
    → copy_bytes n i src dst k ≡ src k
unfolding copy_bytes
copy_bytes_lem zero i src dst k done lt = done k (omega (arith, lt))
copy_bytes_lem (suc n) i src dst k done lt =
    copy_bytes_lem n (i + 1) src (update dst i (src i)) k
      (λ m lo. elim (Bool-cases (m == i)) [
        | inl same ↦ rw (same, (==_iff m i).0 same) refl
        | inr other ↦ rw other (done m (ground (arith, other, lo)))
      ])
      (omega (arith, lt))

-- The comparison of `execute` finds out whether the bytes are the same.
same_bytes_cases :
    (n i : ℕ) (a b : Array ℕ)
    → ((same_bytes n i a b ≡ true) × (bytes n i a ≡ bytes n i b))
      ⊎ ((same_bytes n i a b ≡ false) × (bytes n i a ≢ bytes n i b))
unfolding same_bytes bytes
same_bytes_cases zero i a b = inl (refl, refl)
same_bytes_cases (suc n) i a b = elim (Bool-cases (a i == b i)) [
  | inr differs ↦
      inr (
        rw differs refl,
        λ e. let first : a i ≡ b i = cc in absurd (ground (arith, differs, first)),
      )
  | inl agrees ↦ elim (same_bytes_cases n (i + 1) a b) [
    | inl (t, e) ↦ inl (rw (agrees, t) refl, rw ((==_iff (a i) (b i)).0 agrees, e) refl)
    | inr (f, ne) ↦ inr (rw (agrees, f) refl, λ e. ne cc)
  ]
]

bytes_length : (n m i : ℕ) (a b : Array ℕ) → bytes n i a ≡ bytes m i b → n ≡ m
unfolding bytes
bytes_length zero zero i a b e = refl
bytes_length zero (suc m) i a b e = cc
bytes_length (suc n) zero i a b e = cc
bytes_length (suc n) (suc m) i a b e =
    let later : bytes n (i + 1) a ≡ bytes m (i + 1) b = cc in
    ap suc (bytes_length n m (i + 1) a b later)

module _ {W : Type 0} where
  -- Whether the newest command is the line.
  abbrev pub Repeats : Shell W → Array ℕ → ℕ → Type 0
  Repeats s line len = (0 < s.history_count) × (command s 0 ≡ bytes len 0 line)

  is_duplicate_cases :
      (line : Array ℕ) (len : ℕ) {s : Shell W}
      → IsValid s
      → ((is_duplicate line len s ≡ true) × Repeats s line len)
        ⊎ ((is_duplicate line len s ≡ false) × (Repeats s line len → ⊥))
  unfolding is_duplicate
  is_duplicate_cases line len {s} v =
      let last : (s.history_head + 32 - 1) % 32 ≡ place_of s 0 = omega (arith, v.head_low) in
      let p = place_of s 0 in
      elim (Bool-cases (ltb 0 s.history_count)) [
        | inr empty ↦ inr (rw empty refl, λ (lt, _). absurd (ground (arith, empty, lt)))
        | inl some_there ↦ elim (Bool-cases (s.history_len p == len)) [
          | inr differs ↦ inr (
            rw (some_there, last, differs) refl,
            λ (_, e).
                let same = bytes_length (s.history_len p) len 0 (s.history_buf p) line e in
                absurd (ground (arith, differs, same)),
          )
          | inl agrees ↦ elim (same_bytes_cases len 0 (s.history_buf p) line) [
            | inl (t, e) ↦ inl (
              rw (some_there, last, agrees, t) refl,
              (ground (arith, some_there), rw ((==_iff (s.history_len p) len).0 agrees) e),
            )
            | inr (f, ne) ↦ inr (
              rw (some_there, last, agrees, f) refl,
              λ (_, e). ne (rw ((==_iff (s.history_len p) len).0 agrees) at e),
            )
          ]
        ]
      ]

  -- The line is the newest command of `t`, and the others are those of `s`, of which the oldest is
  -- given up when there were 32.
  pub record Pushes (s : Shell W) (line : Array ℕ) (len : ℕ) (t : Shell W) : Type 0 where
    pub count : t.history_count ≡ (if ltb s.history_count 32 then s.history_count + 1 else 32)
    pub newest : command t 0 ≡ bytes len 0 line
    pub older : (k : ℕ) → k + 1 < t.history_count → command t (k + 1) ≡ command s k

  abbrev pushed : Array ℕ → ℕ → Shell W → Shell W
  pushed line len s = record s {
    history_buf =
        update s.history_buf s.history_head (copy_bytes len 0 line (s.history_buf s.history_head));
    history_len = update s.history_len s.history_head len;
    history_head = (s.history_head + 1) % 32;
    history_count = if ltb s.history_count 32 then s.history_count + 1 else s.history_count;
  }

  pushed-IsValid :
      (line : Array ℕ) (len : ℕ) {s : Shell W} → IsValid s → IsValid (pushed line len s)
  pushed-IsValid line len {s} v = record {
    head_low = omega arith;
    count_low = let low = v.count_low in ground arith;
  }

  pushed-Pushes :
      (line : Array ℕ) (len : ℕ) {s : Shell W} → IsValid s → Pushes s line len (pushed line len s)
  pushed-Pushes line len {s} v =
      let h = s.history_head in
      let t = pushed line len s in
      let first : ((h + 1) % 32 + 31 - 0) % 32 ≡ h = omega (arith, v.head_low) in
      record {
        count = let low = v.count_low in ground arith;
        newest = rw first (
            rw (==_refl h) (
              bytes_ext len 0 (copy_bytes len 0 line (s.history_buf h)) line (λ k lo hi.
                copy_bytes_lem len 0 line (s.history_buf h) k (λ m lt. absurd (omega (arith, lt)))
                  hi)));
        older = λ k lt.
            let low : t.history_count ≤ 32 = (pushed-IsValid line len v).count_low in
            let place : ((h + 1) % 32 + 31 - (k + 1)) % 32 ≡ (h + 31 - k) % 32 =
              omega (arith, v.head_low, lt, low) in
            let other : ((h + 31 - k) % 32 == h) ≡ false = ground (arith, v.head_low, lt, low) in
            rw (place, other) refl;
      }

  -- An empty command, and one that repeats the newest one of the history, leave the history as it is; any
  -- other becomes the newest, the others follow in their order, and no more than 32 are kept.
  pub add_history_cases :
      (line : Array ℕ) (len : ℕ) {s : Shell W}
      → IsValid s
      → IsValid (add_history line len s)
        × ((((len ≡ 0) ⊎ Repeats s line len) × (add_history line len s ≡ s))
            ⊎ ((1 ≤ len) × (Repeats s line len → ⊥) × Pushes s line len (add_history line len s)))
  unfolding add_history
  add_history_cases line len {s} v = elim (Bool-cases (len == 0)) [
    | inl empty ↦ rw (empty, add_history) (v, inl (inl ((==_iff len 0).0 empty), refl))
    | inr some_text ↦ elim (is_duplicate_cases line len v) [
      | inl (dup, again) ↦ rw (some_text, dup, add_history) (v, inl (inr again, refl))
      | inr (fresh, differs) ↦
          rw (some_text, fresh, add_history)
            (
              pushed-IsValid line len v,
              inr (ground (arith, some_text), differs, pushed-Pushes line len v),
            )
    ]
  ]
