-- ===== src/Base/Xor.antt =====
-- Laws of exclusive or, from its lowest digit.
use Prim.Native.Nat.{
  ℕ, zero, suc, ◌+◌, ◌*◌, ◌/◌, ◌%◌, ◌^◌, ◌≤◌, ◌<◌, bit_xor, bit_xor-bitwise, digits, differ,
}
use mathlib.Core.Path.{◌≡◌, refl, ap}
use native.Mathlib.Nat.{pow-suc}
use native.Mathlib.Omega.{arith}

xor_digits : ℕ → ℕ → ℕ → ℕ
xor_digits n a b = digits (λ b. b) differ n a b

xor_digits_fuel : (n m a b : ℕ) → a ≤ n → a ≤ m → xor_digits n a b ≡ xor_digits m a b
unfolding xor_digits
xor_digits_fuel zero zero a b p q = refl
xor_digits_fuel zero (suc m) zero b p q = refl
xor_digits_fuel zero (suc m) (suc a) b p q = absurd (omega arith)
xor_digits_fuel (suc n) zero zero b p q = refl
xor_digits_fuel (suc n) zero (suc a) b p q = absurd (omega arith)
xor_digits_fuel (suc n) (suc m) zero b p q = refl
xor_digits_fuel (suc n) (suc m) (suc a) b p q =
    rw (xor_digits_fuel n m (suc a / 2) (b / 2) (omega arith) (omega arith))

differ_zero : (x : ℕ) → differ x 0 ≡ x
differ_zero zero = refl
differ_zero (suc x) = refl

pub zero-bit_xor : (b : ℕ) → bit_xor 0 b ≡ b
zero-bit_xor b = bit_xor-bitwise 0 b

-- The exclusive or of two digits, as a number.
parity_table : (x y : ℕ) → x < 2 → y < 2 → differ x y ≡ (x + y) % 2
parity_table zero y p q = omega arith
parity_table (suc zero) zero p q = refl
parity_table (suc zero) (suc zero) p q = refl
parity_table (suc zero) (suc (suc y)) p q = absurd (omega arith)
parity_table (suc (suc x)) y p q = absurd (omega arith)

pub bit_xor_step : (a b : ℕ) → bit_xor a b ≡ bit_xor (a / 2) (b / 2) * 2 + (a + b) % 2
bit_xor_step zero b = omega (arith, zero-bit_xor b, zero-bit_xor (b / 2))
bit_xor_step (suc a) b =
    let fuel = xor_digits_fuel a (suc a / 2) (suc a / 2) (b / 2) (omega arith) (omega arith) in
    unfold xor_digits in
    omega (
      arith,
      bit_xor-bitwise (suc a) b,
      bit_xor-bitwise (suc a / 2) (b / 2),
      fuel,
      parity_table (suc a % 2) (b % 2) (omega arith) (omega arith),
    )

xor_cancel_fuel : (n a b : ℕ) → a ≤ n → b ≤ n → bit_xor (bit_xor a b) b ≡ a
xor_cancel_fuel zero a b p q =
    let a0 : a ≡ 0 = omega arith in let b0 : b ≡ 0 = omega arith in rw (a0, b0)
xor_cancel_fuel (suc n) a b p q =
    let low : bit_xor a b / 2 ≡ bit_xor (a / 2) (b / 2) = omega (arith, bit_xor_step a b) in
    let step : bit_xor (bit_xor a b) b
        ≡ bit_xor (bit_xor a b / 2) (b / 2) * 2 + (bit_xor a b + b) % 2 =
      bit_xor_step (bit_xor a b) b in
    let ih = xor_cancel_fuel n (a / 2) (b / 2) (omega arith) (omega arith) in
    omega (arith, step, ap (λ x. bit_xor x (b / 2)) low, ih, bit_xor_step a b)

-- Exclusive or with the same number twice.
pub xor_cancel : (a b : ℕ) → bit_xor (bit_xor a b) b ≡ a
xor_cancel a b = xor_cancel_fuel (a + b) a b (omega arith) (omega arith)

xor_comm_fuel : (n a b : ℕ) → a ≤ n → b ≤ n → bit_xor a b ≡ bit_xor b a
xor_comm_fuel zero a b p q =
    let a0 : a ≡ 0 = omega arith in let b0 : b ≡ 0 = omega arith in rw (a0, b0)
xor_comm_fuel (suc n) a b p q = omega (
  arith,
  bit_xor_step a b,
  bit_xor_step b a,
  xor_comm_fuel n (a / 2) (b / 2) (omega arith) (omega arith),
)

pub xor_comm : (a b : ℕ) → bit_xor a b ≡ bit_xor b a
xor_comm a b = xor_comm_fuel (a + b) a b (omega arith) (omega arith)

-- It has no more digits than the longer of the two.
pub bit_xor-lt : (k a b : ℕ) → a < 2 ^ k → b < 2 ^ k → bit_xor a b < 2 ^ k
bit_xor-lt zero a b p q =
    let a0 : a ≡ 0 = omega arith in let b0 : b ≡ 0 = omega arith in rw (a0, b0) (omega arith)
bit_xor-lt (suc k) a b p q =
    let e : 2 ^ suc k ≡ 2 ^ k * 2 = pow-suc 2 k in
    omega (
      arith,
      e,
      bit_xor_step a b,
      bit_xor-lt k (a / 2) (b / 2) (omega (arith, e)) (omega (arith, e)),
    )
