-- ===== src/Mem/Alloc.antt =====
-- mem/allocator.go, `AllocPage`.
use mathlib.Core.Path.{ap, ◌∙◌}
use go_dav_os.Base.{
  ℕ, zero, suc, ◌+◌, ◌-◌, ◌*◌, ◌%◌, ◌^◌, ◌<◌, ◌≤◌, ◌≡◌, ◌≢◌, ◌⊎◌, inl, inr, refl, true, false,
  arith, Bool-cases,
}
use go_dav_os.Mem.{Pfa, bitmap_get, use_one, alloc_loop, alloc_page}
use go_dav_os.Mem.Count.{IsCounted, use_one-IsCounted, bitmap_get-use_one}

-- A ready allocator: every page that it manages below `scanStart`, the null page among them, is
-- reserved.
pub record IsValid (s : Pfa) : Type 0 where
  pub ready : s.ready ≡ true
  pub counts : IsCounted s
  pub reserved : (p : ℕ) → p < s.scan_start → p < s.total_pages → bitmap_get s.bitmap p ≡ true
  pub positive : 0 < s.scan_start

-- What a successful allocation of page `p` has done.
pub record Allocated (s : Pfa) (p : ℕ) (r : Pfa × ℕ) : Type 0 where
  pub after_start : s.scan_start ≤ p
  pub below_total : p < s.total_pages
  pub was_free : bitmap_get s.bitmap p ≡ false
  pub first : (q : ℕ) → s.scan_start ≤ q → q < p → bitmap_get s.bitmap q ≡ true
  pub address : r.1 ≡ p * 4096
  pub state : r.0 ≡ use_one p s

AllUsed : Pfa → ℕ → ℕ → Type 0
AllUsed s a b = (q : ℕ) → a ≤ q → q < b → bitmap_get s.bitmap q ≡ true

-- What the loop finds from `page` on.
record Found (s : Pfa) (page stop p : ℕ) (r : Pfa × ℕ) : Type 0 where
  low : page ≤ p
  high : p < stop
  free : bitmap_get s.bitmap p ≡ false
  before : (q : ℕ) → page ≤ q → q < p → bitmap_get s.bitmap q ≡ true
  result : r ≡ (use_one p s, p * 4096 % 2 ^ 64)

alloc_loop_cases :
    (fuel page stop : ℕ) (s : Pfa)
    → page + fuel ≡ stop
    → ((p : ℕ) × Found s page stop p (alloc_loop fuel page s))
      ⊎ (AllUsed s page stop × (alloc_loop fuel page s ≡ (s, 0)))
unfolding alloc_loop AllUsed
alloc_loop_cases zero page stop s e = inr (λ q a b. absurd (omega arith), refl)
alloc_loop_cases (suc fuel) page stop s e = elim (Bool-cases (bitmap_get s.bitmap page)) [
  | inr free ↦ inl (
    page,
    record {
      low = omega arith;
      high = omega arith;
      free = free;
      before = λ q a b. absurd (omega arith);
      result = rw free;
    },
  )
  | inl used ↦ rw used (elim (alloc_loop_cases fuel (page + 1) stop s (omega arith)) [
    | inl (p, f) ↦ inl (
      p,
      record {
        low = omega (arith, f.low);
        high = f.high;
        free = f.free;
        before = λ q a b. skip used q p f a b;
        result = f.result;
      },
    )
    | inr (all, r) ↦ inr (λ q a b. rest used all q a b, r)
  ])
]
  where
    skip :
        bitmap_get s.bitmap page ≡ true
        → (q p : ℕ) → Found s (page + 1) stop p (alloc_loop fuel (page + 1) s)
        → page ≤ q
        → q < p
        → bitmap_get s.bitmap q ≡ true
    skip used q p f a b = ground (arith, used, f.before q)

    rest :
        bitmap_get s.bitmap page ≡ true
        → ((q : ℕ) → page + 1 ≤ q → q < stop → bitmap_get s.bitmap q ≡ true)
        → (q : ℕ) → page ≤ q
        → q < stop
        → bitmap_get s.bitmap q ≡ true
    rest used all q a b = ground (arith, used, all q)

alloc_page_ready :
    {s : Pfa} → IsValid s → alloc_page s ≡ alloc_loop (s.total_pages - s.scan_start) s.scan_start s
unfolding alloc_page
alloc_page_ready v = rw v.ready

-- `AllocPage` of a valid allocator takes the first free page from `scanStart` on and returns its
-- address; it returns 0 and changes nothing exactly when every such page is in use.
pub alloc_page_cases :
    {s : Pfa}
    → IsValid s
    → ((p : ℕ) × Allocated s p (alloc_page s))
      ⊎ ((alloc_page s ≡ (s, 0))
          × ((q : ℕ) → s.scan_start ≤ q → q < s.total_pages → bitmap_get s.bitmap q ≡ true))
unfolding AllUsed
alloc_page_cases {s} v =
    rw (alloc_page_ready v)
      (elim (alloc_loop_cases (s.total_pages - s.scan_start) s.scan_start _ s refl) [
        | inl (p, f) ↦ inl (
          p,
          record {
            after_start = f.low;
            below_total = omega (arith, f.low, f.high);
            was_free = f.free;
            first = f.before;
            address = address p f;
            state = ap (λ r. r.0) f.result;
          },
        )
        | inr (all, e) ↦ inr (e, λ q a b. all q a (omega arith))
      ])
  where
    address :
        (p : ℕ)
        → Found s s.scan_start
            (s.scan_start + (s.total_pages - s.scan_start))
            p
            (alloc_loop (s.total_pages - s.scan_start) s.scan_start s)
        → (alloc_loop (s.total_pages - s.scan_start) s.scan_start s).1 ≡ p * 4096
    address p f = ap (λ r. r.1) f.result ∙ omega (arith, f.low, f.high, v.counts.small)

pub use_one-IsValid : {s : Pfa} (p : ℕ) → IsValid s → p < s.total_pages → IsValid (use_one p s)
use_one-IsValid {s} p v h = record {
  ready = (unfold use_one in ground (arith, v.ready));
  counts = use_one-IsCounted p v.counts h;
  reserved = λ q lt ht. keep q lt ht;
  positive = (unfold use_one in ground (arith, v.positive));
}
  where
    keep :
        (q : ℕ)
        → q < (use_one p s).scan_start
        → q < (use_one p s).total_pages
        → bitmap_get (use_one p s).bitmap q ≡ true
    keep q lt ht =
        let old : (q < s.scan_start) × (q < s.total_pages) = unfold use_one in ground arith in
        ground (arith, bitmap_get-use_one p q v.counts, v.reserved q old.0 old.1)

-- `AllocPage` keeps the allocator valid.
pub alloc_page-IsValid : {s : Pfa} → IsValid s → IsValid (alloc_page s).0
alloc_page-IsValid {s} v = elim (alloc_page_cases v) [
  | inl (p, a) ↦ rw a.state (use_one-IsValid p v a.below_total)
  | inr (e, _) ↦ rw e v
]

-- Two allocations in a row never return the same page.
pub alloc_page_fresh :
    {s : Pfa}
    → IsValid s
    → (alloc_page (alloc_page s).0).1 ≢ 0
    → (alloc_page (alloc_page s).0).1 ≢ (alloc_page s).1
alloc_page_fresh {s} v ne = elim (alloc_page_cases v) [
  | inr (e, _) ↦ λ same. ne (same ∙ ap (λ r. r.1) e)
  | inl (p, a) ↦ elim (alloc_page_cases (alloc_page-IsValid v)) [
    | inr (e, _) ↦ absurd (ne (ap (λ r. r.1) e))
    | inl (q, b) ↦ λ same.
        let taken : bitmap_get (alloc_page s).0.bitmap p ≡ true =
          rw a.state (ground (arith, bitmap_get-use_one p p v.counts)) in
        let eq : q ≡ p = omega (arith, a.address, b.address) in
        let free : bitmap_get (alloc_page s).0.bitmap q ≡ false = b.was_free in
        ground (arith, taken, eq, free)
  ]
]
