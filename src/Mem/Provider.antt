-- ===== src/Mem/Provider.antt =====
-- mem/allocator.go as the page allocator that the filesystem takes.
use mathlib.Core.Path.{subst, ap, sym}
use go_dav_os.Base.{ℕ, ◌/◌, ◌≡◌, ◌≢◌, Bool, inl, inr, arith}
use go_dav_os.PageAllocator.{PageAllocator}
use go_dav_os.Mem.{Pfa, alloc_page, free_page, use_one}
use go_dav_os.Mem.Count.{bitmap_get-use_one}
use go_dav_os.Mem.Alloc.{IsValid, alloc_page_cases, alloc_page-IsValid}
use go_dav_os.Mem.Free.{
  Freeable, free_page_cases, free_page-IsValid, Allocated-Freeable, free_page_layout,
  use_one_layout,
}

-- A page that is handed out is one that can be freed.
pub new_page :
    (s : Pfa)
    → IsValid s
    → (alloc_page s).1 ≢ 0
    → (¬ Freeable s (alloc_page s).1) × Freeable (alloc_page s).0 (alloc_page s).1
new_page s v ne = elim (alloc_page_cases v) [
  | inr (e, _) ↦ absurd (ne (ap (λ r. r.1) e))
  | inl (p, a) ↦
      let here : (alloc_page s).1 / 4096 ≡ p = omega (arith, a.address) in
      (λ f. ground (arith, a.was_free, f.used, here), Allocated-Freeable v a)
]

use_one_held : (s : Pfa) (p a : ℕ) → IsValid s → Freeable s a → Freeable (use_one p s) a
use_one_held s p a v f = record {
  aligned = f.aligned;
  after_start = omega (arith, f.after_start, use_one_layout p s);
  below_total = omega (arith, f.below_total, use_one_layout p s);
  used = ground (arith, f.used, bitmap_get-use_one p (a / 4096) v.counts);
}

pub alloc_held : (s : Pfa) (a : ℕ) → IsValid s → Freeable s a → Freeable (alloc_page s).0 a
alloc_held s a v f = elim (alloc_page_cases v) [
  | inr (e, _) ↦ subst (λ (r : Pfa × ℕ). Freeable r.0 a) (sym e) f
  | inl (p, al) ↦ rw al.state (use_one_held s p a v f)
]

pub free_held :
    (s : Pfa) (a b : ℕ) → IsValid s → a ≢ b → Freeable s b → Freeable (free_page a s).0 b
free_held s a b v ne f = elim (free_page_cases a v) [
  | inr (_, e) ↦ subst (λ (r : Pfa × Bool). Freeable r.0 b) (sym e) f
  | inl (g, d) ↦ record {
    aligned = f.aligned;
    after_start = omega (arith, f.after_start, free_page_layout a s);
    below_total = omega (arith, f.below_total, free_page_layout a s);
    used =
        let other : b / 4096 ≢ a / 4096 = omega (arith, f.aligned, g.aligned) in
        ground (arith, other, f.used, d.flag (b / 4096));
  }
]

pub held_nonzero : (s : Pfa) (a : ℕ) → IsValid s → Freeable s a → a ≢ 0
held_nonzero s a v f = omega (arith, v.positive, f.after_start)

abbrev pub frame_allocator : PageAllocator Pfa
frame_allocator = record {
  ready = λ s. s.ready;
  alloc = alloc_page;
  free = free_page;
  IsGood = IsValid;
  IsHeld = Freeable;
  held_aligned = λ s a f. f.aligned;
  held_nonzero = held_nonzero;
  alloc_good = λ s v. alloc_page-IsValid v;
  alloc_new = new_page;
  alloc_keeps = alloc_held;
  free_good = λ s a v. free_page-IsValid a v;
  free_keeps = free_held;
}
