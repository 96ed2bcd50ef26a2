-- ===== src/Mem/Init.antt =====
-- mem/allocator.go, `InitPFA`: what the allocator starts from.
use go_dav_os.Base.{
  ℕ, ◌+◌, ◌*◌, ◌/◌, ◌%◌, ◌^◌, ◌<◌, ◌≤◌, ◌≡◌, ◌⊎◌, inl, inr, refl, true, false, List, [], ◌∷◌, Array,
  leb, ◌==◌, arith, Bool-cases, All,
}
use go_dav_os.Base.Bits.{test_bit}
use go_dav_os.Base.Loops.{all_below, all_below_sound}
use go_dav_os.Mem.{
  Region, Pfa, bitmap_get, max_end_loop, max_available_end, region_base, region_end, fill_used,
  free_regions, mark_free_range, u64_from_hi_lo,
}
use go_dav_os.Mem.Count.{IsCounted}
use go_dav_os.Mem.Ranges.{SamePlace, mark_free_range-Marked}

-- x86-64 physical addresses have 52 bits, so a region ends below 2 ^ 52.
abbrev pub IsPhysical : Region → Type 0
IsPhysical e = region_base e + u64_from_hi_lo e.len_hi e.len_lo ≤ 2 ^ 52

-- Page `p` lies wholly inside one of the available regions.
abbrev pub InAvailable : List Region → ℕ → Type 0
InAvailable [] p = ⊥
InAvailable (e ∷ es) p =
    ((e.typ ≡ 1) × (region_base e ≤ p * 4096) × ((p + 1) * 4096 ≤ region_end e)) ⊎ InAvailable es p

max_end_loop-le :
    (es : List Region) (m : ℕ) → All IsPhysical es → m ≤ 2 ^ 52 → max_end_loop es m ≤ 2 ^ 52
unfolding max_end_loop
max_end_loop-le [] m h hm = hm
max_end_loop-le (e ∷ es) m (he, hes) hm = max_end_loop-le es _ hes (ground arith)

pub max_available_end-le : (es : List Region) → All IsPhysical es → max_available_end es ≤ 2 ^ 52
unfolding max_available_end
max_available_end-le es h = max_end_loop-le es 0 h (omega arith)

ones_table : all_below 8 (λ k. test_bit 0xff k) ≡ true
unfolding all_below
ones_table = refl

pub bitmap_get-fill_used :
    (n : ℕ) (m : Array ℕ) (p : ℕ) → p / 8 < n → bitmap_get (fill_used n m) p ≡ true
unfolding bitmap_get fill_used
bitmap_get-fill_used n m p h =
    ground (arith, all_below_sound 8 (λ k. test_bit 0xff k) ones_table (p % 8) (omega arith))

-- After the free regions: still counted, and every free page was free or is available.
pub record FreedRegions (es : List Region) (s r : Pfa) : Type 0 where
  pub keeps : IsCounted r
  pub total : r.total_pages ≡ s.total_pages
  pub place : SamePlace r s
  pub flag :
      (p : ℕ) → bitmap_get r.bitmap p ≡ false → (bitmap_get s.bitmap p ≡ false) ⊎ InAvailable es p

mark_free_range-free :
    (s : Pfa) (e : Region)
    → IsPhysical e
    → IsCounted s
    → e.typ ≡ 1
    → FreedRegions (e ∷ []) s (mark_free_range (region_base e) (region_end e) s)
mark_free_range-free s e h v t = elim (Bool-cases (leb (region_end e) (region_base e))) [
  | inl past ↦ record {
    keeps = unfold mark_free_range in rw past v;
    total = unfold mark_free_range in rw past;
    place = unfold mark_free_range in rw past (refl, refl);
    flag = λ p f. inl (unfold mark_free_range in rw past at f);
  }
  | inr lt ↦
      let m =
        mark_free_range-Marked (region_base e) (region_end e) v (ground arith) (omega arith) in
      record {
        keeps = m.keeps;
        total = m.total;
        place = m.place;
        flag = λ p f. ground (arith, m.flag p);
      }
]

pub free_regions-FreedRegions :
    (es : List Region) (s : Pfa)
    → All IsPhysical es
    → IsCounted s
    → FreedRegions es s (free_regions es s)
unfolding free_regions
free_regions-FreedRegions [] s h v = record {
  keeps = v;
  total = refl;
  place = (refl, refl);
  flag = λ p f. inl f;
}
free_regions-FreedRegions (e ∷ es) s (he, hes) v = elim (Bool-cases (e.typ == 1)) [
  | inr no_ram ↦
      let r = free_regions-FreedRegions es s hes v in
      rw no_ram (record {
        keeps = r.keeps;
        total = r.total;
        place = r.place;
        flag = λ p f. ground (arith, r.flag p f);
      })
  | inl ram ↦
      let t : e.typ ≡ 1 = ground arith in
      let m = mark_free_range-free s e he v t in
      let r =
        free_regions-FreedRegions es (mark_free_range (region_base e) (region_end e) s) hes
          m.keeps in
      rw ram (record {
        keeps = r.keeps;
        total = omega (arith, r.total, m.total);
        place = omega (arith, r.place, m.place);
        flag = λ p f. ground (arith, r.flag p f, m.flag p);
      })
]
