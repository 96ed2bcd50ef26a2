-- ===== src/Mem.antt =====
-- mem/allocator.go: the bitmap page frame allocator. `uint64` arithmetic wraps at 2 ^ 64.
pub mod Multiboot
pub mod Bitmap
pub mod Count
pub mod Ranges
pub mod Alloc
pub mod Free
pub mod Init
pub mod Boot
pub mod Provider
pub mod Examples
use go_dav_os.Base.{
  ℕ, zero, suc, ◌+◌, ◌-◌, ◌*◌, ◌/◌, ◌%◌, ◌^◌, Bool, true, false, not, ◌&&◌, ◌||◌, List, [], ◌∷◌,
  Array, update, ltb, leb, ◌==◌, if◌then◌else◌,
}
use go_dav_os.Base.Bits.{test_bit, set_bit, clear_bit}

abbrev pub u64_mod : ℕ
u64_mod = 2 ^ 64

abbrev pub page_size : ℕ
page_size = 4096

-- One entry of the memory map, as `mmapEntry` keeps it.
pub record Region : Type 0 where
  pub base_lo : ℕ
  pub base_hi : ℕ
  pub len_lo : ℕ
  pub len_hi : ℕ
  pub typ : ℕ

-- The package's variables. `bitmap` is the memory that `bitmapBytePtr` reaches, by offset.
pub record Pfa : Type 0 where
  pub ready : Bool
  pub total_pages : ℕ
  pub free_pages : ℕ
  pub bitmap_phys : ℕ
  pub bitmap_bytes : ℕ
  pub scan_start : ℕ
  pub bitmap : Array ℕ

-- `(v + (a-1)) & ^(a-1)`, for a power of two `a`; the code calls it with `pageSize` only.
abbrev pub align_up : ℕ → ℕ → ℕ
align_up v a = let w = (v + (a - 1)) % u64_mod in w - w % a

-- `v & ^(a-1)`
abbrev pub align_down : ℕ → ℕ → ℕ
align_down v a = v - v % a

abbrev pub u64_from_hi_lo : ℕ → ℕ → ℕ
u64_from_hi_lo hi lo = hi * 2 ^ 32 + lo

-- `base` and `base + l` of a region, as the code computes them.
abbrev pub region_base : Region → ℕ
region_base e = u64_from_hi_lo e.base_hi e.base_lo

abbrev pub region_end : Region → ℕ
region_end e = (region_base e + u64_from_hi_lo e.len_hi e.len_lo) % u64_mod

-- `kernelEndPhys`, from the two linker symbols.
abbrev pub kernel_end_phys : ℕ → ℕ → ℕ
kernel_end_phys kend bend = if ltb kend bend then bend else kend

max_end_loop : List Region → ℕ → ℕ
max_end_loop [] max_end = max_end
max_end_loop (e ∷ es) max_end =
    max_end_loop es (
      if e.typ == 1
      then (if ltb max_end (region_end e) then region_end e else max_end)
      else max_end)

pub max_available_end : List Region → ℕ
unfolding max_end_loop
max_available_end es = max_end_loop es 0

pub bitmap_get : Array ℕ → ℕ → Bool
bitmap_get m page = test_bit (m (page / 8)) (page % 8)

pub bitmap_set : Array ℕ → ℕ → Bool → Array ℕ
bitmap_set m page used =
    let b = m (page / 8) in
    update m (page / 8) (if used then set_bit b (page % 8) else clear_bit b (page % 8))

-- The bodies of the two marking loops, at one page.
pub free_one : ℕ → Pfa → Pfa
free_one page s =
    if bitmap_get s.bitmap page
    then record s {
      bitmap = bitmap_set s.bitmap page false;
      free_pages = (s.free_pages + 1) % u64_mod;
    }
    else s

pub use_one : ℕ → Pfa → Pfa
use_one page s = if bitmap_get s.bitmap page then s else record s {
  bitmap = bitmap_set s.bitmap page true;
  free_pages = (if ltb 0 s.free_pages then s.free_pages - 1 else s.free_pages);
}

-- `for addr := start; addr < end; addr += pageSize`, with the `break` at `totalPages`.
pub mark_loop : (ℕ → Pfa → Pfa) → ℕ → ℕ → ℕ → Pfa → Pfa
mark_loop body zero addr stop s = s
mark_loop body (suc fuel) addr stop s =
    let rest =
      mark_loop body fuel ((addr + page_size) % u64_mod) stop (body (addr / page_size) s) in
    if ltb addr stop then (if leb s.total_pages (addr / page_size) then s else rest) else s

-- Each round before the `break` is at a page below `totalPages`, so that many rounds are enough.
pub mark_free_range : ℕ → ℕ → Pfa → Pfa
unfolding mark_loop free_one
mark_free_range start_phys end_phys s =
    if leb end_phys start_phys
    then s
    else mark_loop free_one s.total_pages (align_up start_phys page_size)
        (align_down end_phys page_size) s

pub mark_used_range : ℕ → ℕ → Pfa → Pfa
unfolding mark_loop use_one
mark_used_range start_phys end_phys s =
    if leb end_phys start_phys
    then s
    else mark_loop use_one s.total_pages (align_down start_phys page_size)
        (align_up end_phys page_size) s

-- The first available region past `kend` with room for the bitmap; 0 if there is none.
pub place_bitmap : List Region → ℕ → ℕ → ℕ
place_bitmap [] kend bytes = 0
place_bitmap (e ∷ es) kend bytes =
    let base = region_base e in
    let stop = region_end e in
    let start = align_up (if ltb base kend then kend else base) page_size in
    let rest = place_bitmap es kend bytes in
    if not (e.typ == 1) || (leb stop base || leb stop kend)
    then rest
    else if leb ((start + bytes) % u64_mod) stop
    then start
    else rest

pub fill_used : ℕ → Array ℕ → Array ℕ
fill_used bytes m i = if ltb i bytes then 0xff else m i

pub free_regions : List Region → Pfa → Pfa
free_regions [] s = s
free_regions (e ∷ es) s =
    free_regions es (if e.typ == 1 then mark_free_range (region_base e) (region_end e) s else s)

-- Where the code goes on with `bitmapPhys` when no region has room.
abbrev pub bitmap_place : List Region → ℕ → ℕ → ℕ
bitmap_place es kend bytes =
    let p = place_bitmap es kend bytes in if p == 0 then align_up kend page_size else p

-- The end of the pages that are reserved for the bitmap.
abbrev pub bitmap_end : ℕ → ℕ → ℕ
bitmap_end phys bytes =
    (phys + align_up bytes page_size / page_size * page_size % u64_mod) % u64_mod

-- `InitPFA`: the regions are the entries that the memory map holds.
pub init_pfa : List Region → ℕ → ℕ → Pfa → Bool × Pfa
init_pfa es kernel_end bootstrap_end s0 =
    let s = record s0 { ready = false; free_pages = 0 } in
    let max_end = max_available_end es in
    let total = (max_end + (page_size - 1)) % u64_mod / page_size in
    let bytes = (total + 7) % u64_mod / 8 in
    let kend = kernel_end_phys kernel_end bootstrap_end in
    let phys = bitmap_place es kend bytes in
    let blank = record s {
      total_pages = total;
      bitmap_bytes = bytes;
      bitmap_phys = phys;
      bitmap = fill_used bytes s.bitmap;
    } in
    let marked = mark_used_range 0 (bitmap_end phys bytes) (free_regions es blank) in
    if max_end == 0
    then (false, s)
    else if total == 0
    then (false, record s { total_pages = total })
    else (true, record marked { scan_start = bitmap_end phys bytes / page_size; ready = true })

-- `for page := scanStart; page < totalPages; page++`, over the rounds left.
pub alloc_loop : ℕ → ℕ → Pfa → Pfa × ℕ
alloc_loop zero page s = (s, 0)
alloc_loop (suc fuel) page s =
    let rest = alloc_loop fuel (page + 1) s in
    if bitmap_get s.bitmap page then rest else (use_one page s, page * page_size % u64_mod)

-- `AllocPage`: 0 on failure.
pub alloc_page : Pfa → Pfa × ℕ
unfolding alloc_loop
alloc_page s =
    if not s.ready then (s, 0) else alloc_loop (s.total_pages - s.scan_start) s.scan_start s

-- `FreePage`
pub free_page : ℕ → Pfa → Pfa × Bool
free_page addr s =
    let page = addr / page_size in
    if not s.ready
    then (s, false)
    else if not (addr % page_size == 0)
    then (s, false)
    else if ltb page s.scan_start || leb s.total_pages page
    then (s, false)
    else if not (bitmap_get s.bitmap page)
    then (s, false)
    else (
      record s {
        bitmap = bitmap_set s.bitmap page false;
        free_pages = (s.free_pages + 1) % u64_mod;
      },
      true,
    )

-- `UsedPages`
pub used_pages : Pfa → ℕ
used_pages s = (s.total_pages + u64_mod - s.free_pages) % u64_mod
