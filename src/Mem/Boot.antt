-- ===== src/Mem/Boot.antt =====
-- mem/allocator.go, `InitPFA`: the allocator that the boot code is left with.
use go_dav_os.Base.{
  ℕ, ◌+◌, ◌*◌, ◌/◌, ◌%◌, ◌^◌, ◌<◌, ◌≤◌, ◌≡◌, ◌⊎◌, inl, refl, sym, Bool, true, false, List, [], ◌∷◌,
  ◌==◌, arith, All,
}
use go_dav_os.Mem.{
  Region, Pfa, bitmap_get, max_available_end, place_bitmap, bitmap_place, bitmap_end, fill_used,
  free_regions, mark_used_range, init_pfa, kernel_end_phys,
}
use go_dav_os.Mem.Bitmap.{IsBytes, fill_used-IsBytes}
use go_dav_os.Mem.Count.{IsCounted, count_free_none}
use go_dav_os.Mem.Ranges.{Marked, mark_used_range-Marked}
use go_dav_os.Mem.Alloc.{IsValid}
use go_dav_os.Mem.Init.{
  IsPhysical, InAvailable, max_available_end-le, bitmap_get-fill_used, FreedRegions,
  free_regions-FreedRegions,
}

place_bitmap_bounds :
    (es : List Region) (kend bytes : ℕ)
    → All IsPhysical es
    → (place_bitmap es kend bytes ≡ 0)
      ⊎ ((kend ≤ place_bitmap es kend bytes)
          × (place_bitmap es kend bytes ≤ 2 ^ 52 + 4096)
          × (place_bitmap es kend bytes % 4096 ≡ 0))
unfolding place_bitmap
place_bitmap_bounds [] kend bytes h = inl refl
place_bitmap_bounds (e ∷ es) kend bytes (he, hes) =
    ground (arith, place_bitmap_bounds es kend bytes hes)

-- Everything that the allocator's start rests on, for the numbers that `InitPFA` computes.
module _ (es : List Region) (kend : ℕ) (physical : All IsPhysical es) (hk : 0 < kend)
    (hk' : kend ≤ 2 ^ 52) where
  abbrev total : ℕ
  total = (max_available_end es + 4095) % 2 ^ 64 / 4096

  abbrev bytes : ℕ
  bytes = (total + 7) % 2 ^ 64 / 8

  abbrev phys : ℕ
  phys = bitmap_place es kend bytes

  total-le : total ≤ 2 ^ 41
  total-le = omega (arith, max_available_end-le es physical)

  phys_bounds : (kend ≤ phys) × (phys ≤ 2 ^ 52 + 4096) × (phys % 4096 ≡ 0)
  phys_bounds = ground (arith, place_bitmap_bounds es kend bytes physical)

  -- The bitmap's pages end at a page boundary, past the kernel and past the bitmap.
  end_bounds :
      (phys + bytes ≤ bitmap_end phys bytes)
      × (bitmap_end phys bytes ≤ 2 ^ 53)
      × (bitmap_end phys bytes % 4096 ≡ 0)
      × (0 < bitmap_end phys bytes)
  end_bounds = omega (arith, phys_bounds, total-le)

  module _ (s0 : Pfa) (mem : IsBytes s0.bitmap) where
    abbrev blank : Pfa
    blank = record s0 {
      ready = false;
      free_pages = 0;
      total_pages = total;
      bitmap_bytes = bytes;
      bitmap_phys = phys;
      bitmap = fill_used bytes s0.bitmap;
    }

    blank-IsCounted : IsCounted blank
    blank-IsCounted = record {
      bytes = fill_used-IsBytes bytes mem;
      counted = sym (
          count_free_none (fill_used bytes s0.bitmap) total
            (λ p h. bitmap_get-fill_used bytes s0.bitmap p (omega (arith, total-le))));
      small = omega (arith, total-le);
    }

    freed : FreedRegions es blank (free_regions es blank)
    freed = free_regions-FreedRegions es blank physical blank-IsCounted

    marked :
        Marked true
          (free_regions es blank)
          0
          (bitmap_end phys bytes / 4096)
          (mark_used_range 0 (bitmap_end phys bytes) (free_regions es blank))
    marked =
        let e : (bitmap_end phys bytes + 4095) / 4096 ≡ bitmap_end phys bytes / 4096 =
          omega (arith, end_bounds) in
        rw e at (
          mark_used_range-Marked 0 (bitmap_end phys bytes) freed.keeps (omega (arith, end_bounds))
            (omega (arith, end_bounds)))

    abbrev started : Pfa
    started = record (mark_used_range 0 (bitmap_end phys bytes) (free_regions es blank)) {
      scan_start = bitmap_end phys bytes / 4096;
      ready = true;
    }

    started-IsValid : IsValid started
    started-IsValid = record {
      ready = refl;
      counts = counts;
      reserved = λ p h t. ground (arith, marked.flag p, marked.total);
      positive = omega (arith, end_bounds);
    }
      where
        counts : IsCounted started
        counts = record {
          bytes = marked.keeps.bytes;
          counted = marked.keeps.counted;
          small = marked.keeps.small;
        }

    started_available : (p : ℕ) → bitmap_get started.bitmap p ≡ false → p < total → InAvailable es p
    started_available p f h =
        let was : bitmap_get (free_regions es blank).bitmap p ≡ false =
          ground (arith, marked.flag p) in
        ground (
          arith,
          freed.flag p was,
          bitmap_get-fill_used bytes s0.bitmap p (omega (arith, total-le)),
        )

-- What `InitPFA` promises of the allocator `r` that it leaves.
pub record Booted (es : List Region) (kend : ℕ) (r : Bool × Pfa) : Type 0 where
  pub done : r.0 ≡ true
  pub valid : IsValid r.1
  pub past_kernel : kend ≤ r.1.scan_start * 4096
  pub past_bitmap : r.1.bitmap_phys + r.1.bitmap_bytes ≤ r.1.scan_start * 4096
  pub available : (p : ℕ) → bitmap_get r.1.bitmap p ≡ false → p < r.1.total_pages → InAvailable es p

-- If some region is available, `InitPFA` succeeds: the allocator is valid, its pages for allocation
-- lie past the kernel and the bitmap, and each of its free pages lies wholly inside an available
-- region. The regions and the kernel's end are physical addresses, the latter not 0,
-- and the bitmap's memory holds bytes.
pub init_pfa-Booted :
    (es : List Region) (kernel_end bootstrap_end : ℕ) (s0 : Pfa)
    → All IsPhysical es
    → 0 < kernel_end
    → kernel_end ≤ 2 ^ 52
    → bootstrap_end ≤ 2 ^ 52
    → IsBytes s0.bitmap
    → 0 < max_available_end es
    → Booted es (kernel_end_phys kernel_end bootstrap_end) (init_pfa es kernel_end bootstrap_end s0)
unfolding init_pfa
init_pfa-Booted es ke be s0 phys hk hk' hb mem pos =
    let kend = kernel_end_phys ke be in
    let k1 : 0 < kend = ground arith in
    let k2 : kend ≤ 2 ^ 52 = ground arith in
    let some_end : (max_available_end es == 0) ≡ false = ground arith in
    let some_page : (total es kend phys k1 k2 == 0) ≡ false =
      ground (arith, max_available_end-le es phys) in
    rw (some_end, some_page)
      (record {
        done = refl;
        valid = started-IsValid es kend phys k1 k2 s0 mem;
        past_kernel = omega (arith, phys_bounds es kend phys k1 k2, end_bounds es kend phys k1 k2);
        past_bitmap = omega (
          arith,
          end_bounds es kend phys k1 k2,
          (marked es kend phys k1 k2 s0 mem).place,
          (freed es kend phys k1 k2 s0 mem).place,
        );
        available = λ p f h. started_available es kend phys k1 k2 s0 mem p f (
            omega (
              arith,
              (marked es kend phys k1 k2 s0 mem).total,
              (freed es kend phys k1 k2 s0 mem).total,
            ));
      })
