-- ===== src/Base/Ints.antt =====
-- Integers over the native natural numbers, for what is int in Go and can be negative.
use Prim.Native.Nat.{ℕ, ◌+◌, ◌-◌, ◌≤◌}
use mathlib.Core.Path.{◌≡◌, refl, ap}
use mathlib.Core.Logic.{◌≢◌, inl, inr}
use mathlib.Core.Bool.{Bool, true, false, ◌||◌}
use native.Mathlib.Omega.{arith}
use go_dav_os.Base.Tests.{ltb, leb, ◌==◌, ==_iff, ==_refl, Bool-cases, if◌then◌else◌}

-- `negsuc n` is -(n + 1).
pub data ℤ : Type 0 where
  pos negsuc : ℕ → ℤ

-- The sum of an integer and a natural number.
unfoldable pub add_nat : ℤ → ℕ → ℤ
add_nat (pos m) n = pos (m + n)
add_nat (negsuc m) n = if leb n m then negsuc (m - n) else pos (n - m - 1)

-- `a < b` and `a == b`
unfoldable pub lt_int : ℤ → ℤ → Bool
lt_int (pos m) (pos n) = ltb m n
lt_int (pos m) (negsuc n) = false
lt_int (negsuc m) (pos n) = true
lt_int (negsuc m) (negsuc n) = ltb n m

unfoldable pub eq_int : ℤ → ℤ → Bool
eq_int (pos m) (pos n) = m == n
eq_int (pos m) (negsuc n) = false
eq_int (negsuc m) (pos n) = false
eq_int (negsuc m) (negsuc n) = m == n

-- The rounds of `for i := 0; i < z; i++`, of which a negative `z` gives none.
unfoldable pub rounds : ℤ → ℕ
rounds (pos n) = n
rounds (negsuc n) = 0

-- A number from 0 to `m`.
abbrev pub FitsIn : ℕ → ℤ → Type 0
FitsIn m z = (n : ℕ) × (z ≡ pos n) × (n ≤ m)

-- `z < 0 || z > m` fails exactly for the numbers from 0 to `m`.
pub in_range-FitsIn : (m : ℕ) (z : ℤ) → (lt_int z (pos 0) || lt_int (pos m) z) ≡ false → FitsIn m z
unfolding lt_int
in_range-FitsIn m (pos n) e = (n, refl, ground (arith, e))
in_range-FitsIn m (negsuc n) e = cc

pub FitsIn-in_range : (m : ℕ) (z : ℤ) → FitsIn m z → (lt_int z (pos 0) || lt_int (pos m) z) ≡ false
unfolding lt_int
FitsIn-in_range m z (n, e, le) = rw e (ground (arith, le))

pub eq_int-pos : (z : ℤ) (n : ℕ) → eq_int z (pos n) ≡ true → z ≡ pos n
unfolding eq_int
eq_int-pos (pos m) n e = ap pos ((==_iff m n).0 e)
eq_int-pos (negsuc m) n e = cc

pub pos-eq_int : (n : ℕ) → eq_int (pos n) (pos n) ≡ true
unfolding eq_int
pos-eq_int n = ==_refl n

pub eq_int-ne : (z : ℤ) (n : ℕ) → eq_int z (pos n) ≡ false → z ≢ pos n
eq_int-ne z n e = λ same. let t = rw same at e in let u = pos-eq_int n in cc

pub ne-eq_int : (z : ℤ) (n : ℕ) → z ≢ pos n → eq_int z (pos n) ≡ false
ne-eq_int z n ne = elim (Bool-cases (eq_int z (pos n))) [
  | inl t ↦ absurd (ne (eq_int-pos z n t))
  | inr f ↦ f
]

pub rounds-pos : (z : ℤ) (n : ℕ) → z ≡ pos n → rounds z ≡ n
unfolding rounds
rounds-pos z n e = ap rounds e
