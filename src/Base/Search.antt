-- ===== src/Base/Search.antt =====
-- A scan of an array for the first index that passes a test.
use go_dav_os.Base.Tests.{if◌then◌else◌, Bool-cases}
use Prim.Native.Nat.{ℕ, zero, suc, ◌+◌, ◌≤◌, ◌<◌}
use mathlib.Core.Path.{◌≡◌, refl}
use mathlib.Core.Logic.{◌⊎◌, inl, inr}
use mathlib.Core.Bool.{Bool, true, false}
use mathlib.Core.Option.{Option, none, some}
use native.Mathlib.Omega.{arith}

-- `for k := i; k < i+n; k++ { if test(k) { return k } }`
unfoldable pub find_first : (ℕ → Bool) → ℕ → ℕ → Option ℕ
find_first test zero i = none
find_first test (suc n) i = let rest = find_first test n (i + 1) in if test i then some i else rest

-- `k` is the first index from `i` up to `stop` that passes.
pub record IsFirst (test : ℕ → Bool) (i stop k : ℕ) : Type 0 where
  pub low : i ≤ k
  pub high : k < stop
  pub passes : test k ≡ true
  pub before : (j : ℕ) → i ≤ j → j < k → test j ≡ false

pub find_first_cases :
    (test : ℕ → Bool) (n i stop : ℕ)
    → i + n ≡ stop
    → ((k : ℕ) × (find_first test n i ≡ some k) × IsFirst test i stop k)
      ⊎ ((find_first test n i ≡ none) × ((j : ℕ) → i ≤ j → j < stop → test j ≡ false))
unfolding find_first
find_first_cases test zero i stop e = inr (refl, λ j a b. absurd (omega arith))
find_first_cases test (suc n) i stop e = elim (Bool-cases (test i)) [
  | inl here ↦ inl (
    i,
    rw here,
    record {
      low = omega arith;
      high = omega arith;
      passes = here;
      before = λ j a b. absurd (omega arith);
    },
  )
  | inr fails ↦ rw fails (elim (find_first_cases test n (i + 1) stop (omega arith)) [
    | inl (k, f, p) ↦ inl (
      k,
      f,
      record {
        low = omega (arith, p.low);
        high = p.high;
        passes = p.passes;
        before = λ j a b. ground (arith, fails, p.before j);
      },
    )
    | inr (f, all) ↦ inr (f, λ j a b. ground (arith, fails, all j))
  ])
]

-- An index that passes, alone in the range, is what the scan finds.
pub find_first_only :
    (test : ℕ → Bool) (n k : ℕ)
    → k < n
    → test k ≡ true
    → ((j : ℕ) → j < n → test j ≡ true → j ≡ k)
    → find_first test n 0 ≡ some k
find_first_only test n k lt here only = elim (find_first_cases test n 0 n (omega arith)) [
  | inl (j, f, p) ↦ rw (← only j p.high p.passes) f
  | inr (f, all) ↦ ground (arith, here, all k)
]

pub find_first-none :
    (test : ℕ → Bool) (n : ℕ) → ((j : ℕ) → j < n → test j ≡ false) → find_first test n 0 ≡ none
find_first-none test n h = elim (find_first_cases test n 0 n (omega arith)) [
  | inl (j, f, p) ↦ ground (arith, p.passes, h j p.high)
  | inr (f, all) ↦ f
]
