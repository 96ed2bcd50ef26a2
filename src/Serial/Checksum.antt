-- ===== src/Serial/Checksum.antt =====
-- serial/frame.go, `updateChecksum`: the checksum of a list of bytes, its range, and that one more
-- byte loses nothing.
use mathlib.Core.Path.{sym, ap, ◌∙◌}
use go_dav_os.Base.{
  ℕ, zero, suc, ◌+◌, ◌*◌, ◌/◌, ◌%◌, ◌^◌, ◌<◌, ◌≡◌, ◌≢◌, refl, bit_xor, Bool, true, List, [], ◌∷◌,
  ◌++◌, ◌==◌, ==_iff, if◌then◌else◌, arith, All,
}
use go_dav_os.Base.Loops.{all_below, all_below_sound}
use go_dav_os.Base.Xor.{bit_xor-lt, xor_cancel, xor_comm}
use go_dav_os.Serial.{shift_once, shift_times, update_checksum}

-- The checksum after each of the bytes.
abbrev pub crc : ℕ → List ℕ → ℕ
crc c [] = c
crc c (b ∷ bs) = crc (update_checksum c b) bs

abbrev pub IsByte : ℕ → Type 0
IsByte b = b < 256

shift_once-lt : (c : ℕ) → shift_once c < 2 ^ 16
unfolding shift_once
shift_once-lt c = ground (arith, bit_xor-lt 16 (c * 2 % 2 ^ 16) 0x1021 (omega arith) (omega arith))

-- The checksum stays within 16 bits.
pub update_checksum-lt : (c b : ℕ) → update_checksum c b < 2 ^ 16
unfolding update_checksum
update_checksum-lt c b = shift_once-lt _

pub crc-lt : (c : ℕ) (bs : List ℕ) → c < 2 ^ 16 → crc c bs < 2 ^ 16
crc-lt c [] h = h
crc-lt c (b ∷ bs) h = crc-lt (update_checksum c b) bs (update_checksum-lt c b)

pub crc-append : (c : ℕ) (xs ys : List ℕ) → crc c (xs ++ ys) ≡ crc (crc c xs) ys
crc-append c [] ys = refl
crc-append c (x ∷ xs) ys = crc-append (update_checksum c x) xs ys

-- The inverse of a round: the lowest bit tells whether the polynomial went in.
unshift : ℕ → ℕ
unshift y = if y % 2 == 0 then y / 2 else bit_xor y 0x1021 / 2 + 2 ^ 15

unshift_block : ℕ → ℕ → Bool
unfolding unshift shift_once
unshift_block hi lo = unshift (shift_once (hi * 256 + lo)) == hi * 256 + lo

unshift_table : all_below 256 (λ hi. all_below 256 (unshift_block hi)) ≡ true
unfolding all_below unshift_block
unshift_table = refl

unshift-shift_once : (c : ℕ) → c < 2 ^ 16 → unshift (shift_once c) ≡ c
unfolding unshift_block
unshift-shift_once c h =
    let e : c / 256 * 256 + c % 256 ≡ c = omega arith in
    let row =
      all_below_sound 256 (λ hi. all_below 256 (unshift_block hi)) unshift_table (c / 256)
        (omega arith) in
    let cell = all_below_sound 256 (unshift_block (c / 256)) row (c % 256) (omega arith) in
    rw e at ((==_iff _ _).0 cell)

shift_once_injective : (c d : ℕ) → c < 2 ^ 16 → d < 2 ^ 16 → shift_once c ≡ shift_once d → c ≡ d
shift_once_injective c d hc hd e =
    sym (unshift-shift_once c hc) ∙ ap unshift e ∙ unshift-shift_once d hd

shift_times_injective :
    (n c d : ℕ) → c < 2 ^ 16 → d < 2 ^ 16 → shift_times n c ≡ shift_times n d → c ≡ d
unfolding shift_times
shift_times_injective zero c d hc hd e = e
shift_times_injective (suc n) c d hc hd e =
    shift_once_injective c d hc hd
      (shift_times_injective n (shift_once c) (shift_once d) (shift_once-lt c) (shift_once-lt d) e)

update_injective :
    (c d a b : ℕ)
    → c < 2 ^ 16
    → d < 2 ^ 16
    → IsByte a
    → IsByte b
    → update_checksum c a ≡ update_checksum d b
    → bit_xor c (a * 2 ^ 8) ≡ bit_xor d (b * 2 ^ 8)
unfolding update_checksum
update_injective c d a b hc hd ha hb e =
    shift_times_injective 8 _ _ (bit_xor-lt 16 c (a * 2 ^ 8) hc (omega arith))
      (bit_xor-lt 16 d (b * 2 ^ 8) hd (omega arith)) e

-- The same byte takes different checksums to different ones.
pub update_checksum-injective_left :
    (c d a : ℕ)
    → c < 2 ^ 16
    → d < 2 ^ 16
    → IsByte a
    → update_checksum c a ≡ update_checksum d a
    → c ≡ d
update_checksum-injective_left c d a hc hd ha e =
    sym (xor_cancel c (a * 2 ^ 8))
    ∙ ap (λ x. bit_xor x (a * 2 ^ 8)) (update_injective c d a a hc hd ha ha e)
    ∙ xor_cancel d (a * 2 ^ 8)

-- Different bytes take the same checksum to different ones.
pub update_checksum-injective_right :
    (c a b : ℕ)
    → c < 2 ^ 16
    → IsByte a
    → IsByte b
    → update_checksum c a ≡ update_checksum c b
    → a ≡ b
update_checksum-injective_right c a b hc ha hb e =
    let same = update_injective c c a b hc hc ha hb e in
    let left : a * 2 ^ 8 ≡ b * 2 ^ 8 =
      sym (xor_cancel (a * 2 ^ 8) c)
      ∙ ap (λ x. bit_xor x c) (xor_comm (a * 2 ^ 8) c ∙ same ∙ xor_comm c (b * 2 ^ 8))
      ∙ xor_cancel (b * 2 ^ 8) c in
    omega (arith, left)

crc_injective :
    (c d : ℕ) (bs : List ℕ) → c < 2 ^ 16 → d < 2 ^ 16 → All IsByte bs → crc c bs ≡ crc d bs → c ≡ d
crc_injective c d [] hc hd h e = e
crc_injective c d (b ∷ bs) hc hd (hb, h) e = update_checksum-injective_left c d b hc hd hb (
    crc_injective (update_checksum c b) (update_checksum d b) bs (update_checksum-lt c b)
      (update_checksum-lt d b) h e)

-- Byte strings that agree but for one byte, and have the same checksum, agree in that byte.
pub crc_same_byte :
    (c : ℕ) (xs ys : List ℕ) (a b : ℕ)
    → c < 2 ^ 16
    → IsByte a
    → IsByte b
    → All IsByte ys
    → crc c (xs ++ a ∷ ys) ≡ crc c (xs ++ b ∷ ys)
    → a ≡ b
crc_same_byte c xs ys a b hc ha hb hys e =
    let c' = crc c xs in
    let split = sym (crc-append c xs (a ∷ ys)) ∙ e ∙ crc-append c xs (b ∷ ys) in
    update_checksum-injective_right c' a b (crc-lt c xs hc) ha hb (
      crc_injective (update_checksum c' a) (update_checksum c' b) ys (update_checksum-lt c' a)
        (update_checksum-lt c' b) hys split)

-- Two byte strings that differ in one byte only have different checksums.
pub crc_detects_one_byte :
    (c : ℕ) (xs ys : List ℕ) (a b : ℕ)
    → c < 2 ^ 16
    → IsByte a
    → IsByte b
    → All IsByte ys
    → a ≢ b
    → crc c (xs ++ a ∷ ys) ≢ crc c (xs ++ b ∷ ys)
crc_detects_one_byte c xs ys a b hc ha hb hys ne =
    λ e. ne (crc_same_byte c xs ys a b hc ha hb hys e)
