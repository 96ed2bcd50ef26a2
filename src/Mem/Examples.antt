-- ===== src/Mem/Examples.antt =====
-- mem/allocator.go: runs on a machine with 16 pages of memory, whose kernel ends at 0x2800.
use go_dav_os.Base.{
  ℕ, ◌≡◌, ◌⊎◌, refl, true, false, List, [], ◌∷◌, ◌+◌, ◌^◌, some, Bool, Array, update, arith, ◌≤◌,
  ◌<◌,
}
use go_dav_os.Mem.{
  Region, Pfa, bitmap_get, bitmap_set, init_pfa, place_bitmap, free_regions, fill_used,
  max_available_end, max_end_loop, mark_free_range, mark_used_range, alloc_page, free_page,
}
use go_dav_os.Mem.Multiboot.{
  MemoryMap, init_multiboot, tags_loop, map_tag, entries_loop, entry_at, read_u64, read_u32,
  align_up8,
}
use go_dav_os.Mem.Multiboot.Ends.{init_multiboot-ends}
use go_dav_os.Mem.Multiboot.Reads.{init_multiboot-Agree}
use mathlib.Core.Option.{map}
use go_dav_os.Mem.Bitmap.{IsBytes}
use go_dav_os.Mem.Alloc.{IsValid, Allocated, alloc_page_cases, alloc_page-IsValid}
use go_dav_os.Mem.Free.{alloc_page-free_page-IsValid, Freeable, Freed, free_page_cases}
use go_dav_os.Mem.Boot.{Booted, init_pfa-Booted}

abbrev pub regions : List Region
regions = record { base_lo = 0; base_hi = 0; len_lo = 0x10000; len_hi = 0; typ = 1 } ∷ []

abbrev pub before : Pfa
before = record {
  ready = false;
  total_pages = 0;
  free_pages = 0;
  bitmap_phys = 0;
  bitmap_bytes = 0;
  scan_start = 0;
  bitmap = λ i. 0;
}

abbrev pub pool : Pfa
pool = (init_pfa regions 0x2800 0x1000 before).1

zeros-IsBytes : IsBytes (λ i. 0)
zeros-IsBytes = record { byte = λ i. omega arith }

init_pfa-Booted_example : Booted regions 0x2800 (init_pfa regions 0x2800 0x1000 before)
unfolding max_available_end max_end_loop
init_pfa-Booted_example =
    init_pfa-Booted regions 0x2800 0x1000 before (omega arith, tt) (omega arith) (omega arith)
      (omega arith) zeros-IsBytes (omega arith)

pub pool-IsValid : IsValid pool
unfolding max_available_end max_end_loop
pool-IsValid =
    (init_pfa-Booted regions 0x2800 0x1000 before (omega arith, tt) (omega arith) (omega arith)
      (omega arith) zeros-IsBytes (omega arith)).valid

-- A run: the bitmap takes the page after the kernel, so that page 4 is the first to be handed out.
pub pool_run : ((alloc_page pool).1 ≡ 0x4000) × ((alloc_page (alloc_page pool).0).1 ≡ 0x5000)
unfolding alloc_page init_pfa max_available_end mark_used_range place_bitmap free_regions
    mark_free_range bitmap_get fill_used bitmap_set
pool_run = (refl, refl)

alloc_page_cases_example :
    ((p : ℕ) × Allocated pool p (alloc_page pool))
    ⊎ ((alloc_page pool ≡ (pool, 0))
        × ((q : ℕ) → pool.scan_start ≤ q → q < pool.total_pages → bitmap_get pool.bitmap q ≡ true))
alloc_page_cases_example = alloc_page_cases pool-IsValid

free_page_cases_example :
    (Freeable (alloc_page pool).0 0x4000
      × Freed (alloc_page pool).0 0x4000 (free_page 0x4000 (alloc_page pool).0))
    ⊎ ((¬ Freeable (alloc_page pool).0 0x4000)
        × (free_page 0x4000 (alloc_page pool).0 ≡ ((alloc_page pool).0, false)))
free_page_cases_example = free_page_cases 0x4000 (alloc_page-IsValid pool-IsValid)

-- Tables of the boot loader at 4096, of 56 bytes: a map of one region, and the end.
abbrev tables : Array ℕ
tables =
    update
      (update (update (update (update (update (λ a. 0) 4096 56) 4104 6) 4108 40) 4112 24) 4130 1)
      4136 1

tables_bytes : (a : ℕ) → tables a < 256
tables_bytes a = ground arith

abbrev no_map : MemoryMap
no_map = record {
  entries = λ i. record { base_lo = 0; base_hi = 0; len_lo = 0; len_hi = 0; typ = 0 };
  count = 0;
}

tables_fit : 4096 + read_u32 tables 4096 + 8 < 2 ^ 63
unfolding read_u32
tables_fit = omega arith

init_multiboot-ends_example :
    (t : Bool × MemoryMap) × (init_multiboot tables 4096 no_map ≡ some t) × (t.1.count ≤ 64)
init_multiboot-ends_example =
    init_multiboot-ends tables tables_bytes 4096 no_map (omega (arith, tables_fit))

-- The map has the region of 64 kilobytes.
tables_run :
    map {B = Bool × ℕ × ℕ}
      (λ t. (t.0, t.1.count, (t.1.entries 0).len_lo))
      (init_multiboot tables 4096 no_map)
    ≡ some (true, 1, 0x10000)
unfolding init_multiboot tags_loop map_tag entries_loop entry_at read_u64 read_u32 align_up8
tables_run = refl

init_multiboot-Agree_example :
    init_multiboot tables 4096 no_map ≡ init_multiboot (update tables 7 1) 4096 no_map
init_multiboot-Agree_example =
    init_multiboot-Agree tables (update tables 7 1) 4096 no_map tables_bytes tables_fit
      (λ i inside. ground arith)

alloc_page-free_page-IsValid_example :
    IsValid (alloc_page (alloc_page pool).0).0 × IsValid (free_page 0x4000 (alloc_page pool).0).0
alloc_page-free_page-IsValid_example =
    alloc_page-free_page-IsValid 0x4000 (alloc_page-IsValid pool-IsValid)
