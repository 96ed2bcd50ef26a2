-- ===== src/Mem/Ranges.antt =====
-- mem/allocator.go, `markFreeRange` and `markUsedRange`: which flags the loops write.
use go_dav_os.Base.{
  ℕ, zero, suc, ◌+◌, ◌*◌, ◌/◌, ◌%◌, ◌^◌, ◌<◌, ◌≤◌, ◌≡◌, ◌⊎◌, inl, inr, refl, Bool, true, false,
  ◌&&◌, ltb, leb, ◌==◌, if◌then◌else◌, arith, Bool-cases,
}
use go_dav_os.Mem.{
  Pfa, bitmap_get, free_one, use_one, mark_loop, mark_free_range, mark_used_range, align_up,
  align_down, page_size,
}
use go_dav_os.Mem.Count.{
  IsCounted, free_one-IsCounted, use_one-IsCounted, bitmap_get-free_one, bitmap_get-use_one,
}

-- Where the bitmap lies is the same in both states.
abbrev pub SamePlace : Pfa → Pfa → Type 0
SamePlace r s = (r.bitmap_phys ≡ s.bitmap_phys) × (r.bitmap_bytes ≡ s.bitmap_bytes)

-- `r` is `s` with the flags of the pages from `p` up to `q` set to `u`, below the last page.
pub record Marked (u : Bool) (s : Pfa) (p q : ℕ) (r : Pfa) : Type 0 where
  pub keeps : IsCounted r
  pub total : r.total_pages ≡ s.total_pages
  pub place : SamePlace r s
  pub flag :
      (j : ℕ)
      → bitmap_get r.bitmap j
        ≡ (if leb p j && (ltb j q && ltb j s.total_pages) then u else bitmap_get s.bitmap j)

-- A loop body that sets one page's flag to `u`.
record IsMark (u : Bool) (body : ℕ → Pfa → Pfa) : Type 0 where
  keeps : (p : ℕ) (s : Pfa) → IsCounted s → p < s.total_pages → IsCounted (body p s)
  total : (p : ℕ) (s : Pfa) → (body p s).total_pages ≡ s.total_pages
  place : (p : ℕ) (s : Pfa) → SamePlace (body p s) s
  flag :
      (p : ℕ) (s : Pfa) (q : ℕ)
      → IsCounted s
      → bitmap_get (body p s).bitmap q ≡ (if q == p then u else bitmap_get s.bitmap q)

free_one-total : (p : ℕ) (s : Pfa) → (free_one p s).total_pages ≡ s.total_pages
unfolding free_one
free_one-total p s = ground arith

use_one-total : (p : ℕ) (s : Pfa) → (use_one p s).total_pages ≡ s.total_pages
unfolding use_one
use_one-total p s = ground arith

free_one-place : (p : ℕ) (s : Pfa) → SamePlace (free_one p s) s
unfolding free_one
free_one-place p s = ground arith

free_one-IsMark : IsMark false free_one
free_one-IsMark = record {
  keeps = λ p s v h. free_one-IsCounted p v h;
  total = free_one-total;
  place = free_one-place;
  flag = λ p s q v. bitmap_get-free_one p q v;
}

use_one-place : (p : ℕ) (s : Pfa) → SamePlace (use_one p s) s
unfolding use_one
use_one-place p s = ground arith

use_one-IsMark : IsMark true use_one
use_one-IsMark = record {
  keeps = λ p s v h. use_one-IsCounted p v h;
  total = use_one-total;
  place = use_one-place;
  flag = λ p s q v. bitmap_get-use_one p q v;
}

module _ (u : Bool) (body : ℕ → Pfa → Pfa) (marks : IsMark u body) where
  Marked-none : (s : Pfa) (p q : ℕ) → IsCounted s → (q ≤ p) ⊎ (s.total_pages ≤ p) → Marked u s p q s
  Marked-none s p q v h = record {
    keeps = v;
    total = refl;
    place = (refl, refl);
    flag = λ j. ground arith;
  }

  Marked-step :
      (s : Pfa) (p q : ℕ) (r : Pfa)
      → IsCounted s
      → p < q
      → p < s.total_pages
      → Marked u (body p s) (suc p) q r
      → Marked u s p q r
  Marked-step s p q r v hq ht m = record {
    keeps = m.keeps;
    total = omega (arith, m.total, marks.total p s);
    place = omega (arith, m.place, marks.place p s);
    flag = λ j. ground (arith, m.flag j, marks.total p s, marks.flag p s j v);
  }

  mark_loop-Marked :
      (fuel p q addr stop : ℕ) (s : Pfa)
      → IsCounted s
      → addr ≡ p * 4096
      → stop ≡ q * 4096
      → stop < 2 ^ 64
      → s.total_pages ≤ p + fuel
      → Marked u s p q (mark_loop body fuel addr stop s)
  unfolding mark_loop
  mark_loop-Marked zero p q addr stop s v ea es hs hf = Marked-none s p q v (inr (omega arith))
  mark_loop-Marked (suc fuel) p q addr stop s v ea es hs hf = elim (Bool-cases (ltb addr stop)) [
    | inr ge ↦ rw ge (Marked-none s p q v (inl (ground arith)))
    | inl lt ↦ elim (Bool-cases (leb s.total_pages (addr / page_size))) [
      | inl past ↦ rw (lt, past) (Marked-none s p q v (inr (ground arith)))
      | inr inside ↦
          let here : addr / page_size ≡ p = omega arith in
          let hq : p < q = ground arith in
          let ht : p < s.total_pages = ground arith in
          rw (lt, inside, here)
            (Marked-step s p q _ v hq ht (
              mark_loop-Marked fuel (suc p) q ((addr + page_size) % 2 ^ 64) stop (body p s)
                (marks.keeps p s v ht) (omega arith) es hs (omega (arith, marks.total p s))))
    ]
  ]

-- Where no address wraps and the count of free pages is right, `markFreeRange` frees exactly the pages
-- that lie wholly inside the range, and keeps the count right.
pub mark_free_range-Marked :
    {s : Pfa} (a b : ℕ)
    → IsCounted s
    → a < b
    → b + 4096 ≤ 2 ^ 64
    → Marked false s ((a + 4095) / 4096) (b / 4096) (mark_free_range a b s)
unfolding mark_free_range
mark_free_range-Marked {s} a b v h hb =
    let lt : leb b a ≡ false = ground arith in
    rw lt (
      mark_loop-Marked false free_one free_one-IsMark s.total_pages ((a + 4095) / 4096) (b / 4096)
        (align_up a page_size) (align_down b page_size) s v (omega arith) (omega arith)
        (omega arith) (omega arith))

-- Where no address wraps and the count of free pages is right, `markUsedRange` reserves exactly the
-- pages that the range touches, and keeps the count right.
pub mark_used_range-Marked :
    {s : Pfa} (a b : ℕ)
    → IsCounted s
    → a < b
    → b + 4096 ≤ 2 ^ 64
    → Marked true s (a / 4096) ((b + 4095) / 4096) (mark_used_range a b s)
unfolding mark_used_range
mark_used_range-Marked {s} a b v h hb =
    let lt : leb b a ≡ false = ground arith in
    rw lt (
      mark_loop-Marked true use_one use_one-IsMark s.total_pages (a / 4096) ((b + 4095) / 4096)
        (align_down a page_size) (align_up b page_size) s v (omega arith) (omega arith)
        (omega arith) (omega arith))
