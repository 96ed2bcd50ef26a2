-- ===== src/Mem/Free.antt =====
-- mem/allocator.go, `FreePage`.
use mathlib.Core.Path.{ap, subst, ◌∙◌}
use go_dav_os.Base.{
  ℕ, ◌+◌, ◌*◌, ◌/◌, ◌%◌, ◌^◌, ◌<◌, ◌≤◌, ◌≡◌, ◌≢◌, ◌⊎◌, inl, inr, Bool, true, false, ltb, leb, ◌==◌,
  if◌then◌else◌, arith, Bool-cases,
}
use go_dav_os.Mem.{Pfa, bitmap_get, use_one, alloc_page, free_page}
use go_dav_os.Mem.Count.{bitmap_get-use_one, count_free-pos, count_free-set, count_free-le}
use go_dav_os.Mem.Alloc.{IsValid, Allocated, alloc_page_cases, alloc_page-IsValid}
use go_dav_os.Mem.Bitmap.{bitmap_set-IsBytes, bitmap_get-bitmap_set}

-- `FreePage` keeps the allocator valid, whatever address it is given.
pub free_page-IsValid : {s : Pfa} (addr : ℕ) → IsValid s → IsValid (free_page addr s).0
unfolding free_page
free_page-IsValid {s} addr v = record {
  ready = ground (arith, v.ready);
  counts = ground (
    arith,
    v.counts,
    bitmap_set-IsBytes (addr / 4096) false v.counts.bytes,
    count_free-set s.total_pages (addr / 4096) false v.counts.bytes,
    count_free-le s.bitmap s.total_pages,
  );
  reserved = λ q lt ht.
      ground (arith, v.reserved q, bitmap_get-bitmap_set (addr / 4096) false q v.counts.bytes);
  positive = ground (arith, v.positive);
}

-- What `FreePage` accepts: the address of a page from `scanStart` on that is in use.
pub record Freeable (s : Pfa) (addr : ℕ) : Type 0 where
  pub aligned : addr % 4096 ≡ 0
  pub after_start : s.scan_start ≤ addr / 4096
  pub below_total : addr / 4096 < s.total_pages
  pub used : bitmap_get s.bitmap (addr / 4096) ≡ true

-- What freeing the page at `addr` has done.
pub record Freed (s : Pfa) (addr : ℕ) (r : Pfa × Bool) : Type 0 where
  pub done : r.1 ≡ true
  pub count : r.0.free_pages ≡ s.free_pages + 1
  pub total : r.0.total_pages ≡ s.total_pages
  pub flag :
      (q : ℕ)
      → bitmap_get r.0.bitmap q ≡ (if q == addr / 4096 then false else bitmap_get s.bitmap q)

Freeable-split :
    (s : Pfa) (addr : ℕ)
    → Freeable s addr
      ⊎ ((addr % 4096 ≢ 0)
          ⊎ ((addr / 4096 < s.scan_start)
              ⊎ ((s.total_pages ≤ addr / 4096) ⊎ (bitmap_get s.bitmap (addr / 4096) ≡ false))))
Freeable-split s addr = elim (Bool-cases (addr % 4096 == 0)) [
  | inr ne ↦ inr (inl (ground arith))
  | inl al ↦ elim (Bool-cases (ltb (addr / 4096) s.scan_start)) [
    | inl lt ↦ inr (inr (inl (ground arith)))
    | inr ge ↦ elim (Bool-cases (leb s.total_pages (addr / 4096))) [
      | inl past ↦ inr (inr (inr (inl (ground arith))))
      | inr inside ↦ elim (Bool-cases (bitmap_get s.bitmap (addr / 4096))) [
        | inr free ↦ inr (inr (inr (inr free)))
        | inl used ↦ inl (record {
          aligned = ground arith;
          after_start = ground arith;
          below_total = ground arith;
          used = used;
        })
      ]
    ]
  ]
]

free_page-Freed :
    {s : Pfa} (addr : ℕ) → IsValid s → Freeable s addr → Freed s addr (free_page addr s)
unfolding free_page
free_page-Freed {s} addr v f = record {
  done = ground (arith, v.ready, f);
  count = ground (arith, v.ready, v.counts, f, count_free-le-free s addr v f);
  total = ground arith;
  flag =
      λ q. ground (arith, v.ready, f, bitmap_get-bitmap_set (addr / 4096) false q v.counts.bytes);
}
  where
    count_free-le-free : (s : Pfa) (addr : ℕ) → IsValid s → Freeable s addr → s.free_pages ≤ 2 ^ 52
    count_free-le-free s addr v f =
        omega (arith, v.counts.counted, v.counts.small, count_free-le s.bitmap s.total_pages)

-- `FreePage` of a valid allocator frees the page, and counts it, at every aligned address of a used
-- page from `scanStart` on; at any other address it answers false and changes nothing.
pub free_page_cases :
    {s : Pfa} (addr : ℕ)
    → IsValid s
    → (Freeable s addr × Freed s addr (free_page addr s))
      ⊎ ((¬ Freeable s addr) × (free_page addr s ≡ (s, false)))
free_page_cases {s} addr v = elim (Freeable-split s addr) [
  | inl f ↦ inl (f, free_page-Freed addr v f)
  | inr n ↦ inr (λ f. refuse n f, (unfold free_page in ground (arith, v.ready, n)))
]
  where
    refuse :
        (addr % 4096 ≢ 0)
          ⊎ ((addr / 4096 < s.scan_start)
              ⊎ ((s.total_pages ≤ addr / 4096) ⊎ (bitmap_get s.bitmap (addr / 4096) ≡ false)))
        → Freeable s addr
        → ⊥
    refuse n f = ground (arith, n, f)

-- A page cannot be freed twice in a row.
pub free_page_twice :
    {s : Pfa} (addr : ℕ) → IsValid s → (free_page addr (free_page addr s).0).1 ≡ false
free_page_twice {s} addr v = elim (free_page_cases addr (free_page-IsValid addr v)) [
  | inr (_, e) ↦ ap (λ r. r.1) e
  | inl (f, _) ↦ elim (free_page_cases addr v) [
    | inl (_, d) ↦ ground (arith, f.used, d.flag (addr / 4096))
    | inr (n, e) ↦ absurd (n (subst (λ (r : Pfa × Bool). Freeable r.0 addr) e f))
  ]
]

use_one-count :
    {s : Pfa} (p : ℕ)
    → IsValid s
    → p < s.total_pages
    → bitmap_get s.bitmap p ≡ false
    → ((use_one p s).free_pages + 1 ≡ s.free_pages)
      × ((use_one p s).total_pages ≡ s.total_pages)
      × ((use_one p s).scan_start ≡ s.scan_start)
unfolding use_one
use_one-count {s} p v h e = ground (arith, v.counts, count_free-pos s.bitmap s.total_pages p h e)

-- The page that an allocation returned can be freed.
pub Allocated-Freeable :
    {s : Pfa} {p : ℕ}
    → IsValid s
    → Allocated s p (alloc_page s)
    → Freeable (alloc_page s).0 (alloc_page s).1
Allocated-Freeable {s} {p} v a =
    let here : p * 4096 / 4096 ≡ p = omega arith in
    let c = use_one-count p v a.below_total a.was_free in
    rw (a.state, a.address)
      (record {
        aligned = omega arith;
        after_start = rw here (omega (arith, c, a.after_start));
        below_total = rw here (omega (arith, c, a.below_total));
        used = rw here (ground (arith, bitmap_get-use_one p p v.counts));
      })

-- Freeing the page that an allocation returned succeeds, and restores every flag and the count.
pub free_page-alloc_page :
    {s : Pfa}
    → IsValid s
    → (alloc_page s).1 ≢ 0
    → let (t, addr) = alloc_page s in
      let (u, done) = free_page addr t in
      (done ≡ true)
      × (u.free_pages ≡ s.free_pages)
      × ((q : ℕ) → bitmap_get u.bitmap q ≡ bitmap_get s.bitmap q)
free_page-alloc_page {s} v ne = elim (alloc_page_cases v) [
  | inr (e, _) ↦ absurd (ne (ap (λ r. r.1) e))
  | inl (p, a) ↦ elim (free_page_cases (alloc_page s).1 (alloc_page-IsValid v)) [
    | inr (n, _) ↦ absurd (n (Allocated-Freeable v a))
    | inl (_, d) ↦ (d.done, count p a d, λ q. flag p a d q)
  ]
]
  where
    count :
        (p : ℕ)
        → Allocated s p (alloc_page s)
        → Freed (alloc_page s).0 (alloc_page s).1 (free_page (alloc_page s).1 (alloc_page s).0)
        → (free_page (alloc_page s).1 (alloc_page s).0).0.free_pages ≡ s.free_pages
    count p a d = d.count ∙ rw a.state (omega (arith, use_one-count p v a.below_total a.was_free))

    flag :
        (p : ℕ)
        → Allocated s p (alloc_page s)
        → Freed (alloc_page s).0 (alloc_page s).1 (free_page (alloc_page s).1 (alloc_page s).0)
        → (q : ℕ)
        → bitmap_get (free_page (alloc_page s).1 (alloc_page s).0).0.bitmap q
          ≡ bitmap_get s.bitmap q
    flag p a d q =
        let here : (alloc_page s).1 / 4096 ≡ p = omega (arith, a.address) in
        d.flag q ∙ rw (a.state, here) (ground (arith, bitmap_get-use_one p q v.counts, a.was_free))

-- Neither operation moves the bounds of the scan.
pub use_one_layout :
    (p : ℕ) (s : Pfa)
    → ((use_one p s).total_pages ≡ s.total_pages) × ((use_one p s).scan_start ≡ s.scan_start)
unfolding use_one
use_one_layout p s = ground arith

pub free_page_layout :
    (a : ℕ) (s : Pfa)
    → ((free_page a s).0.total_pages ≡ s.total_pages)
      × ((free_page a s).0.scan_start ≡ s.scan_start)
unfolding free_page
free_page_layout a s = ground arith

-- `AllocPage`, and `FreePage` of any address, keep the allocator valid.
pub alloc_page-free_page-IsValid :
    {s : Pfa} (addr : ℕ) → IsValid s → IsValid (alloc_page s).0 × IsValid (free_page addr s).0
alloc_page-free_page-IsValid addr v = (alloc_page-IsValid v, free_page-IsValid addr v)
