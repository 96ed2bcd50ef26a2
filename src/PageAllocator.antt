-- ===== src/PageAllocator.antt =====
-- The interface between the in-memory filesystem and the page frame allocator: what
-- fs/page_alloc_gccgo.go and fs/page_alloc_host.go take from mem, and the laws that fs relies on.
use go_dav_os.Base.{ℕ, ◌%◌, ◌≡◌, ◌≢◌, Bool}

pub record PageAllocator (S : Type 0) : Type 1 where
  pub ready : S → Bool
  pub alloc : S → S × ℕ
  pub free : ℕ → S → S × Bool
  -- A good state, and the page addresses that are handed out in it.
  pub IsGood : S → Type 0
  pub IsHeld : S → ℕ → Type 0
  pub held_aligned : (s : S) (a : ℕ) → IsHeld s a → a % 4096 ≡ 0
  pub held_nonzero : (s : S) (a : ℕ) → IsGood s → IsHeld s a → a ≢ 0
  pub alloc_good : (s : S) → IsGood s → IsGood (alloc s).0
  pub alloc_new :
      (s : S)
      → IsGood s
      → (alloc s).1 ≢ 0
      → (¬ IsHeld s (alloc s).1) × IsHeld (alloc s).0 (alloc s).1
  pub alloc_keeps : (s : S) (a : ℕ) → IsGood s → IsHeld s a → IsHeld (alloc s).0 a
  pub free_good : (s : S) (a : ℕ) → IsGood s → IsGood (free a s).0
  pub free_keeps : (s : S) (a b : ℕ) → IsGood s → a ≢ b → IsHeld s b → IsHeld (free a s).0 b
