-- ===== src/Base/Bits.antt =====
-- Single bits of a byte: reading, setting and clearing bit `k`.
use go_dav_os.Base.Tests.{◌==◌, and_split, if◌then◌else◌}
use go_dav_os.Base.Loops.{all_below, all_below_sound}
use Prim.Native.Nat.{ℕ, ◌-◌, ◌/◌, ◌^◌, ◌<◌, bit_and, bit_or}
use mathlib.Core.Path.{◌≡◌, refl}
use mathlib.Core.Bool.{Bool, true, false, not, ◌&&◌}
use native.Mathlib.Omega.{arith}

-- `b & (1 << k) != 0`
abbrev pub test_bit : ℕ → ℕ → Bool
test_bit b k = not (bit_and b (2 ^ k) == 0)

-- `b | (1 << k)`
abbrev pub set_bit : ℕ → ℕ → ℕ
set_bit b k = bit_or b (2 ^ k)

-- `b &^ (1 << k)`, on a byte
abbrev pub clear_bit : ℕ → ℕ → ℕ
clear_bit b k = bit_and b (255 - 2 ^ k)

eqb : Bool → Bool → Bool
eqb true b = b
eqb false b = not b

eqb→eq : (a b : Bool) → eqb a b ≡ true → a ≡ b
unfolding eqb
eqb→eq true b h = ground arith
eqb→eq false b h = ground arith

lt_b : ℕ → Bool
lt_b b = b / 256 == 0

-- What setting and clearing bit `k` of `b` does to bit `j`.
effect_ok : ℕ → ℕ → ℕ → Bool
unfolding eqb
effect_ok b k j =
    eqb (test_bit (set_bit b k) j) (if j == k then true else test_bit b j)
    && eqb (test_bit (clear_bit b k) j) (if j == k then false else test_bit b j)

bit_ok : ℕ → ℕ → Bool
unfolding all_below effect_ok lt_b
bit_ok b k = lt_b (set_bit b k) && (lt_b (clear_bit b k) && all_below 8 (effect_ok b k))

byte_ok : ℕ → Bool
unfolding bit_ok
byte_ok b = all_below 8 (bit_ok b)

bytes_ok : all_below 256 byte_ok ≡ true
unfolding all_below byte_ok
bytes_ok = refl

bit_row : (b k : ℕ) → b < 256 → k < 8 → bit_ok b k ≡ true
unfolding byte_ok
bit_row b k hb hk = all_below_sound 8 (bit_ok b) (all_below_sound 256 byte_ok bytes_ok b hb) k hk

effect_row : (b k j : ℕ) → b < 256 → k < 8 → j < 8 → effect_ok b k j ≡ true
unfolding bit_ok
effect_row b k j hb hk hj =
    all_below_sound 8 (effect_ok b k) (and_split _ _ (and_split _ _ (bit_row b k hb hk)).1).1 j hj

pub set_bit-lt : (b k : ℕ) → b < 256 → k < 8 → set_bit b k < 256
unfolding lt_b bit_ok
set_bit-lt b k hb hk = ground (arith, bit_row b k hb hk)

pub clear_bit-lt : (b k : ℕ) → b < 256 → k < 8 → clear_bit b k < 256
unfolding lt_b bit_ok
clear_bit-lt b k hb hk = ground (arith, bit_row b k hb hk)

pub test_bit-set_bit :
    (b k j : ℕ)
    → b < 256
    → k < 8
    → j < 8
    → test_bit (set_bit b k) j ≡ (if j == k then true else test_bit b j)
unfolding effect_ok
test_bit-set_bit b k j hb hk hj = eqb→eq _ _ (and_split _ _ (effect_row b k j hb hk hj)).0

pub test_bit-clear_bit :
    (b k j : ℕ)
    → b < 256
    → k < 8
    → j < 8
    → test_bit (clear_bit b k) j ≡ (if j == k then false else test_bit b j)
unfolding effect_ok
test_bit-clear_bit b k j hb hk hj = eqb→eq _ _ (and_split _ _ (effect_row b k j hb hk hj)).1
