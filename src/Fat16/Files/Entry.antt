-- ===== src/Fat16/Files/Entry.antt =====
-- fs/fat16/fat16.go: the directory entry that `CreateFile` writes, as `ReadFile` reads it.
use go_dav_os.Base.{
  ℕ, zero, suc, ◌+◌, ◌-◌, ◌^◌, ◌<◌, ◌≤◌, ◌≡◌, ◌≢◌, refl, true, false, some, Array, ltb, leb, ◌==◌,
  arith,
}
use go_dav_os.Fat16.{word16, word32}
use go_dav_os.Fat16.Directory.{bytes_match, entry_matches, answer}
use go_dav_os.Fat16.Files.{read_step, put_entry}

pub bytes_match_ext :
    (n j : ℕ) (b c : Array ℕ) (i : ℕ) (name : Array ℕ)
    → ((m : ℕ) → j ≤ m → m < j + n → b (i + m) ≡ c (i + m))
    → bytes_match n j b i name ≡ bytes_match n j c i name
unfolding bytes_match
bytes_match_ext zero j b c i name same = refl
bytes_match_ext (suc n) j b c i name same =
    let here = same j (omega arith) (omega arith) in
    let later =
      bytes_match_ext n (j + 1) b c i name
        (λ m lo hi. same m (omega (arith, lo)) (omega (arith, hi))) in
    rw (here, later) refl

pub bytes_match-true :
    (n j : ℕ) (b : Array ℕ) (i : ℕ) (name : Array ℕ)
    → ((m : ℕ) → j ≤ m → m < j + n → b (i + m) ≡ name m)
    → bytes_match n j b i name ≡ true
unfolding bytes_match
bytes_match-true zero j b i name same = refl
bytes_match-true (suc n) j b i name same = ground (
  arith,
  same j (omega arith) (omega arith),
  bytes_match-true n (j + 1) b i name (λ m lo hi. same m (omega (arith, lo)) (omega (arith, hi))),
)

module _ (name ext : Array ℕ) where
  -- A step of `ReadFile` reads the 32 bytes of its entry only.
  pub read_step-ext :
      (b c : Array ℕ) (off : ℕ)
      → ((m : ℕ) → m < 32 → b (off + m) ≡ c (off + m))
      → read_step name ext b off ≡ read_step name ext c off
  unfolding read_step entry_matches
  read_step-ext b c off same =
      let at = λ (m k : ℕ) (e : off + m ≡ k) (lt : m < 32). rw e at (same m lt) in
      let first : b off ≡ c off = at 0 off (omega arith) (omega arith) in
      let names = bytes_match_ext 8 0 b c off name (λ m _ hi. same m (omega (arith, hi))) in
      let exts =
        bytes_match_ext 3 0 b c (off + 8) ext
          (λ m _ hi. at (m + 8) (off + 8 + m) (omega arith) (omega (arith, hi))) in
      ground (
        arith,
        first,
        names,
        exts,
        at 26 (off + 26) refl (omega arith),
        at 27 (off + 26 + 1) (omega arith) (omega arith),
        at 28 (off + 28) refl (omega arith),
        at 29 (off + 28 + 1) (omega arith) (omega arith),
        at 30 (off + 28 + 2) (omega arith) (omega arith),
        at 31 (off + 28 + 3) (omega arith) (omega arith),
      )

  pub put_entry-name :
      (b : Array ℕ) (off cluster len m : ℕ)
      → m < 8
      → put_entry off name ext cluster len b (off + m) ≡ name m
  unfolding put_entry
  put_entry-name b off cluster len m lt =
      let low : ltb (off + m) off ≡ false = ground arith in
      let high : leb (off + 32) (off + m) ≡ false = ground arith in
      let here : off + m - off ≡ m = omega arith in
      let part : ltb m 8 ≡ true = ground arith in rw (low, high, here, part) refl

  pub put_entry-ext :
      (b : Array ℕ) (off cluster len m : ℕ)
      → m < 3
      → put_entry off name ext cluster len b (off + 8 + m) ≡ ext m
  unfolding put_entry
  put_entry-ext b off cluster len m lt =
      let low : ltb (off + 8 + m) off ≡ false = ground arith in
      let high : leb (off + 32) (off + 8 + m) ≡ false = ground arith in
      let here : off + 8 + m - off ≡ m + 8 = omega arith in
      let back : m + 8 - 8 ≡ m = omega arith in
      let part : ltb (m + 8) 8 ≡ false = ground arith in
      let part' : ltb (m + 8) 11 ≡ true = ground arith in
      rw (low, high, here, part, part', back) refl

  -- Past the names the byte at a place does not depend on where the entry is.
  pub put_entry-tail :
      (b : Array ℕ) (off cluster len k m : ℕ)
      → k ≡ off + m
      → m < 32
      → put_entry off name ext cluster len b k ≡ put_entry 0 name ext cluster len b m
  unfolding put_entry
  put_entry-tail b off cluster len k m e lt =
      let low : ltb k off ≡ false = ground arith in
      let high : leb (off + 32) k ≡ false = ground arith in
      let here : k - off ≡ m = omega (arith, e) in
      let past : leb (0 + 32) m ≡ false = ground arith in
      let low' : ltb m 0 ≡ false = ground arith in
      let here' : m - 0 ≡ m = omega arith in rw (low, high, here, past, low', here') refl

  pub put_entry-cluster :
      (b : Array ℕ) (off cluster len : ℕ)
      → cluster < 2 ^ 16
      → word16 (put_entry off name ext cluster len b) (off + 26) ≡ cluster
  unfolding put_entry
  put_entry-cluster b off cluster len hc =
      rw
        (
          put_entry-tail b off cluster len (off + 26) 26 refl (omega arith),
          put_entry-tail b off cluster len (off + 26 + 1) 27 (omega arith) (omega arith),
        )
        (omega (arith, hc))

  pub put_entry-len :
      (b : Array ℕ) (off cluster len : ℕ)
      → len < 2 ^ 32
      → word32 (put_entry off name ext cluster len b) (off + 28) ≡ len
  unfolding put_entry
  put_entry-len b off cluster len hl =
      rw
        (
          put_entry-tail b off cluster len (off + 28) 28 refl (omega arith),
          put_entry-tail b off cluster len (off + 28 + 1) 29 (omega arith) (omega arith),
          put_entry-tail b off cluster len (off + 28 + 2) 30 (omega arith) (omega arith),
          put_entry-tail b off cluster len (off + 28 + 3) 31 (omega arith) (omega arith),
        )
        (omega (arith, hl))

  -- The entries before it are not touched.
  pub put_entry-before :
      (b : Array ℕ) (off cluster len k : ℕ) → k < off → put_entry off name ext cluster len b k ≡ b k
  unfolding put_entry
  put_entry-before b off cluster len k lt = let low : ltb k off ≡ true = ground arith in rw low refl

  -- Nor are those after it.
  pub put_entry-after :
      (b : Array ℕ) (off cluster len k : ℕ)
      → off + 32 ≤ k
      → put_entry off name ext cluster len b k ≡ b k
  unfolding put_entry
  put_entry-after b off cluster len k le =
      let high : leb (off + 32) k ≡ true = ground (arith, le) in
      let low : ltb k off ≡ false = ground (arith, le) in rw (low, high) refl

  -- The new entry is found, with its cluster and its size.
  pub read_step-put_entry :
      (b : Array ℕ) (off cluster len : ℕ)
      → name 0 ≢ 0
      → name 0 ≢ 0xE5
      → cluster < 2 ^ 16
      → len < 2 ^ 32
      → read_step name ext (put_entry off name ext cluster len b) off ≡ answer (some (cluster, len))
  unfolding read_step entry_matches
  read_step-put_entry b off cluster len n0 n5 hc hl =
      let nb = put_entry off name ext cluster len b in
      let plus : off + 0 ≡ off = omega arith in
      let first : nb off ≡ name 0 = rw plus at (put_entry-name b off cluster len 0 (omega arith)) in
      let names =
        bytes_match-true 8 0 nb off name
          (λ m _ hi. put_entry-name b off cluster len m (omega (arith, hi))) in
      let exts =
        bytes_match-true 3 0 nb (off + 8) ext
          (λ m _ hi. put_entry-ext b off cluster len m (omega (arith, hi))) in
      let no_end : (nb off == 0x00) ≡ false = ground (arith, first, n0) in
      let no_gap : (nb off == 0xE5) ≡ false = ground (arith, first, n5) in
      rw
        (
          no_end,
          no_gap,
          names,
          exts,
          put_entry-cluster b off cluster len hc,
          put_entry-len b off cluster len hl,
        )
        refl
