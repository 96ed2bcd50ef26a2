-- ===== src/Mem/Count.antt =====
-- mem/allocator.go, `freePages`: the count of the pages that the bitmap shows free, and the
-- invariant of the allocator.
use go_dav_os.Base.{
  ℕ, zero, suc, ◌+◌, ◌^◌, ◌<◌, ◌≤◌, ◌≡◌, ◌⊎◌, inl, inr, refl, Bool, true, false, Array, ◌==◌,
  if◌then◌else◌, arith,
}
use go_dav_os.Mem.{Pfa, bitmap_get, bitmap_set, free_one, use_one}
use go_dav_os.Mem.Bitmap.{IsBytes, bitmap_set-IsBytes, bitmap_get-bitmap_set}

-- 1 for a free page.
abbrev pub free_flag : Bool → ℕ
free_flag used = if used then 0 else 1

-- The free pages below `n`.
unfoldable pub count_free : Array ℕ → ℕ → ℕ
count_free m zero = 0
count_free m (suc n) = count_free m n + free_flag (bitmap_get m n)

pub count_free-le : (m : Array ℕ) (n : ℕ) → count_free m n ≤ n
unfolding count_free
count_free-le m zero = omega arith
count_free-le m (suc n) = ground (arith, count_free-le m n)

pub count_free-pos : (m : Array ℕ) (n p : ℕ) → p < n → bitmap_get m p ≡ false → 0 < count_free m n
unfolding count_free
count_free-pos m zero p h e = absurd (omega arith)
count_free-pos m (suc n) p h e = ground (arith, count_free-pos m n p)

pub count_free_none :
    (m : Array ℕ) (n : ℕ) → ((p : ℕ) → p < n → bitmap_get m p ≡ true) → count_free m n ≡ 0
unfolding count_free
count_free_none m zero h = refl
count_free_none m (suc n) h = ground (arith, h n, count_free_none m n (λ p lt. h p (omega arith)))

count_free-set_above :
    {m : Array ℕ} (n p : ℕ) (u : Bool)
    → IsBytes m
    → n ≤ p
    → count_free (bitmap_set m p u) n ≡ count_free m n
unfolding count_free
count_free-set_above zero p u b h = refl
count_free-set_above {m} (suc n) p u b h =
    ground (arith, bitmap_get-bitmap_set p u n b, count_free-set_above n p u b (omega arith))

le_cases : (n p : ℕ) → p < suc n → (p ≡ n) ⊎ (p < n)
le_cases n p h = omega arith

pub count_free-set :
    {m : Array ℕ} (n p : ℕ) (u : Bool)
    → IsBytes m
    → p < n
    → count_free (bitmap_set m p u) n + free_flag (bitmap_get m p) ≡ count_free m n + free_flag u
unfolding count_free
count_free-set zero p u b h = absurd (omega arith)
count_free-set {m} (suc n) p u b h = elim (le_cases n p (omega arith)) [
  | inl e ↦
      ground (
        arith,
        e,
        bitmap_get-bitmap_set n u n b,
        count_free-set_above {m = m} n n u b (omega arith),
      )
  | inr lt ↦ ground (arith, bitmap_get-bitmap_set p u n b, count_free-set n p u b lt)
]

-- The bitmap holds bytes, and `freePages` counts its free pages. Page addresses fit 64 bits.
pub record IsCounted (s : Pfa) : Type 0 where
  pub bytes : IsBytes s.bitmap
  pub counted : s.free_pages ≡ count_free s.bitmap s.total_pages
  pub small : s.total_pages ≤ 2 ^ 52

pub free_one-IsCounted :
    {s : Pfa} (p : ℕ) → IsCounted s → p < s.total_pages → IsCounted (free_one p s)
unfolding free_one
free_one-IsCounted {s} p v h = ground (
  arith,
  v,
  bitmap_set-IsBytes p false v.bytes,
  count_free-set s.total_pages p false v.bytes,
  count_free-le s.bitmap s.total_pages,
)

pub use_one-IsCounted :
    {s : Pfa} (p : ℕ) → IsCounted s → p < s.total_pages → IsCounted (use_one p s)
unfolding use_one
use_one-IsCounted {s} p v h = ground (
  arith,
  v,
  bitmap_set-IsBytes p true v.bytes,
  count_free-set s.total_pages p true v.bytes,
  count_free-pos s.bitmap s.total_pages p h,
)

pub bitmap_get-free_one :
    {s : Pfa} (p q : ℕ)
    → IsCounted s
    → bitmap_get (free_one p s).bitmap q ≡ (if q == p then false else bitmap_get s.bitmap q)
unfolding free_one
bitmap_get-free_one {s} p q v = ground (arith, bitmap_get-bitmap_set p false q v.bytes)

pub bitmap_get-use_one :
    {s : Pfa} (p q : ℕ)
    → IsCounted s
    → bitmap_get (use_one p s).bitmap q ≡ (if q == p then true else bitmap_get s.bitmap q)
unfolding use_one
bitmap_get-use_one {s} p q v = ground (arith, bitmap_get-bitmap_set p true q v.bytes)
