-- ===== src/Base/Arrays.antt =====
-- Fixed-size arrays and memory as functions of the index, and lists measured by native numbers.
use Prim.Native.Nat.{ℕ, zero, suc, ◌+◌}
use mathlib.Core.Path.{◌≡◌, refl, ap}
use mathlib.Core.Logic.{◌≢◌}
use mathlib.Core.List.{List, [], ◌∷◌, ◌++◌}
use native.Mathlib.Omega.{arith}
use go_dav_os.Base.Tests.{◌==◌, if◌then◌else◌}

-- A Go array of a fixed size, or a piece of memory: its size is stated where it matters.
abbrev pub Array {ℓ} : Type ℓ → Type ℓ
Array A = ℕ → A

module _ {ℓ} {A : Type ℓ} where
  -- `a[i] = v`
  abbrev pub update : Array A → ℕ → A → Array A
  update a i v j = if j == i then v else a j

  -- The slice `a[i : i+n]`.
  abbrev pub slice : Array A → ℕ → ℕ → List A
  slice a i zero = []
  slice a i (suc n) = a i ∷ slice a (i + 1) n

  abbrev pub length : List A → ℕ
  length [] = 0
  length (x ∷ xs) = suc (length xs)

  pub update_self : (a : Array A) (i : ℕ) (v : A) → update a i v i ≡ v
  update_self a i v = ground arith

  pub update_ne : (a : Array A) (i j : ℕ) (v : A) → j ≢ i → update a i v j ≡ a j
  update_ne a i j v h = ground arith

  pub length-append : (xs ys : List A) → length (xs ++ ys) ≡ length xs + length ys
  length-append [] ys = omega arith
  length-append (x ∷ xs) ys = omega (arith, length-append xs ys)

  pub length-slice : (a : Array A) (i n : ℕ) → length (slice a i n) ≡ n
  length-slice a i zero = refl
  length-slice a i (suc n) = ap suc (length-slice a (i + 1) n)

-- Every element of the list.
abbrev pub All {ℓ κ} : {A : Type ℓ} → (A → Type κ) → List A → Type κ
All P [] = Unit
All P (x ∷ xs) = P x × All P xs
