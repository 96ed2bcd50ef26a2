-- ===== src/Base/Loops.antt =====
-- Facts that are checked at every value of a small range.
use go_dav_os.Base.Tests.{◌==◌, ==_iff}
use Prim.Native.Nat.{ℕ, zero, suc, ◌<◌}
use mathlib.Core.Path.{◌≡◌}
use mathlib.Core.Bool.{Bool, true, ◌&&◌}
use native.Mathlib.Omega.{arith}

unfoldable pub all_below : ℕ → (ℕ → Bool) → Bool
all_below zero p = true
all_below (suc n) p = p n && all_below n p

pub all_below_sound : (n : ℕ) (p : ℕ → Bool) → all_below n p ≡ true → (x : ℕ) → x < n → p x ≡ true
unfolding all_below
all_below_sound zero p h x lt = absurd (omega arith)
all_below_sound (suc n) p h x lt = ground (arith, all_below_sound n p (ground arith) x)

-- Two functions that agree, as a table.
pub agree_below :
    (n : ℕ) (f g : ℕ → ℕ) → all_below n (λ x. f x == g x) ≡ true → (x : ℕ) → x < n → f x ≡ g x
agree_below n f g h x lt = (==_iff _ _).0 (all_below_sound n _ h x lt)
