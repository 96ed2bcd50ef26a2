-- ===== src/Mem/Bitmap.antt =====
-- mem/allocator.go, `bitmapGet` and `bitmapSet`: the bitmap is an array of flags.
use go_dav_os.Base.{ℕ, ◌/◌, ◌%◌, ◌<◌, ◌≡◌, Bool, true, false, Array, ◌==◌, if◌then◌else◌, arith}
use go_dav_os.Base.Bits.{set_bit-lt, clear_bit-lt, test_bit-set_bit, test_bit-clear_bit}
use go_dav_os.Mem.{bitmap_get, bitmap_set, fill_used}

pub record IsBytes (m : Array ℕ) : Type 0 where
  pub byte : (i : ℕ) → m i < 256

-- Writing one flag leaves bytes, and changes that flag only.
pub bitmap_set-IsBytes :
    {m : Array ℕ} (page : ℕ) (used : Bool) → IsBytes m → IsBytes (bitmap_set m page used)
unfolding bitmap_set
bitmap_set-IsBytes {m} page used h = record {
  byte = λ i. ground (
    arith,
    h.byte i,
    set_bit-lt (m (page / 8)) (page % 8) (h.byte (page / 8)) (omega arith),
    clear_bit-lt (m (page / 8)) (page % 8) (h.byte (page / 8)) (omega arith),
  );
}

-- Setting the flag of one page is read back at that page, and leaves the flag of every other, also of
-- those in the same byte.
pub bitmap_get-bitmap_set :
    {m : Array ℕ} (page : ℕ) (used : Bool) (q : ℕ)
    → IsBytes m
    → bitmap_get (bitmap_set m page used) q ≡ (if q == page then used else bitmap_get m q)
unfolding bitmap_get bitmap_set
bitmap_get-bitmap_set {m} page true q h = ground (
  arith,
  test_bit-set_bit (m (page / 8)) (page % 8) (q % 8) (h.byte (page / 8)) (omega arith)
      (omega arith),
)
bitmap_get-bitmap_set {m} page false q h = ground (
  arith,
  test_bit-clear_bit (m (page / 8)) (page % 8) (q % 8) (h.byte (page / 8)) (omega arith)
      (omega arith),
)

pub fill_used-IsBytes : (n : ℕ) {m : Array ℕ} → IsBytes m → IsBytes (fill_used n m)
unfolding fill_used
fill_used-IsBytes n h = record { byte = λ i. ground (arith, h.byte i) }
