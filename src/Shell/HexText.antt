-- ===== src/Shell/HexText.antt =====
-- shell/shell.go: `parseHex64` on the text of `printHexU64`.
use native.Mathlib.Nat.{pow-suc, div-div-eq-div-mul, div-le_self}
use go_dav_os.Base.{
  ℕ, zero, suc, ◌+◌, ◌-◌, ◌*◌, ◌/◌, ◌%◌, ◌^◌, ◌<◌, ◌≤◌, ◌≡◌, refl, sym, ap, ◌∙◌, true, false, ◌&&◌,
  some, List, ◌∷◌, Array, ltb, leb, ◌==◌, arith, Bool-cases, inl, inr,
}
use go_dav_os.Shell.Words.{length, hex_value, hex_loop, parse_hex64}
use go_dav_os.Shell.Numbers.{hex_char, hex_text, char_at}

-- The line holds the text from place `start` on.
pub record HoldsText (line : Array ℕ) (start : ℕ) (text : List ℕ) : Type 0 where
  pub here : (i : ℕ) → i < length text → line (start + i) ≡ char_at text i

HoldsText-head :
    (line : Array ℕ) (start c : ℕ) (rest : List ℕ)
    → HoldsText line start (c ∷ rest)
    → (line start ≡ c) × HoldsText line (start + 1) rest
unfolding length char_at
HoldsText-head line start c rest h =
    let plus : start + 0 ≡ start = omega arith in
    (
      rw plus at (h.here 0 (omega arith)),
      record {
        here = λ i lt.
            let next : (suc i == 0) ≡ false = ground arith in
            let back : suc i - 1 ≡ i = omega arith in
            let place : start + suc i ≡ start + 1 + i = omega arith in
            rw (place, next, back) at (h.here (suc i) (omega (arith, lt)));
      },
    )

hex_value-hex_char : (d : ℕ) → d < 16 → hex_value (hex_char d) ≡ some d
unfolding hex_value
hex_value-hex_char d lt = elim (Bool-cases (ltb d 10)) [
  | inl low ↦
      let back : 48 + d - 48 ≡ d = omega arith in
      let digit : (leb 48 (48 + d) && leb (48 + d) 57) ≡ true = ground (arith, low) in
      rw (low, digit, back) refl
  | inr high ↦
      let back : 55 + d - 65 + 10 ≡ d = ground (arith, high) in
      let digit : (leb 48 (55 + d) && leb (55 + d) 57) ≡ false = ground (arith, high) in
      let lower : (leb 97 (55 + d) && leb (55 + d) 102) ≡ false = ground (arith, lt) in
      let upper : (leb 65 (55 + d) && leb (55 + d) 70) ≡ true = ground (arith, high, lt) in
      rw (high, digit, lower, upper, back) refl
]

hex_loop_digit :
    (line : Array ℕ) (n i v d : ℕ)
    → hex_value (line i) ≡ some d
    → hex_loop line (suc n) i v ≡ hex_loop line n (i + 1) (v * 2 ^ 4 % 2 ^ 64 + d)
unfolding hex_loop
hex_loop_digit line n i v d e = rw (e, hex_loop) refl

-- The digits that are left, after those of `v / 16 ^ n`.
hex_loop-hex_text :
    (line : Array ℕ) (n start v : ℕ)
    → v < 2 ^ 64
    → HoldsText line start (hex_text n v)
    → hex_loop line n start (v / 16 ^ n) ≡ some v
unfolding hex_loop hex_text
hex_loop-hex_text line zero start v small h = let whole : v / 1 ≡ v = omega arith in rw whole refl
hex_loop-hex_text line (suc n) start v small h =
    let (first, later) = HoldsText-head line start (hex_char (v / 16 ^ n % 16)) (hex_text n v) h in
    let q = v / 16 ^ n in
    let above : v / 16 ^ suc n ≡ q / 16 =
      ap (λ p. v / p) (pow-suc 16 n) ∙ sym (div-div-eq-div-mul v (16 ^ n) 16) in
    let below : q ≤ v = div-le_self v (16 ^ n) in
    let shifted : q / 16 * 2 ^ 4 % 2 ^ 64 + q % 16 ≡ q = omega (arith, below, small) in
    let digit = ap hex_value first ∙ hex_value-hex_char (q % 16) (omega arith) in
    rw above (
      hex_loop_digit line n start (q / 16) (q % 16) digit
      ∙ rw shifted (hex_loop-hex_text line n (start + 1) v small later))

length-hex_text : (n v : ℕ) → length (hex_text n v) ≡ n
unfolding length hex_text
length-hex_text zero v = refl
length-hex_text (suc n) v = ap suc (length-hex_text n v)

-- A number of 64 bits that stands in the line as `0x` and the 16 digits of `printHexU64` is read back by
-- `parseHex64`.
pub parse_hex64-hex_text :
    (line : Array ℕ) (start v : ℕ)
    → v < 2 ^ 64
    → HoldsText line start (b'0' ∷ b'x' ∷ hex_text 16 v)
    → parse_hex64 line start (start + 18) ≡ some v
unfolding parse_hex64
parse_hex64-hex_text line start v small h =
    let (nought, h') = HoldsText-head line start b'0' (b'x' ∷ hex_text 16 v) h in
    let (mark, digits) = HoldsText-head line (start + 1) b'x' (hex_text 16 v) h' in
    let none_above : v / 16 ^ 16 ≡ 0 = omega (arith, small) in
    let size : start + 18 - start ≡ 18 = omega arith in
    let here : leb (start + 18) start ≡ false = ground arith in
    let there : leb (start + 18) (start + 2) ≡ false = ground arith in
    let left : start + 18 - (start + 2) ≡ 16 = omega arith in
    let place : start + 1 + 1 ≡ start + 2 = omega arith in
    rw (size, nought, mark, here, there, left)
      (rw (place, none_above) at (hex_loop-hex_text line 16 (start + 1 + 1) v small digits))
