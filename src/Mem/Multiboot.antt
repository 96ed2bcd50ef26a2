-- ===== src/Mem/Multiboot.antt =====
-- mem/multiboot.go: the memory map is read from the tables of the boot loader.
pub mod Ends
pub mod Reads
use go_dav_os.Base.{
  ℕ, zero, suc, ◌+◌, ◌-◌, ◌*◌, ◌/◌, ◌%◌, ◌^◌, Bool, true, false, not, ◌&&◌, ◌||◌, Option, none,
  some, Array, update, ltb, leb, ◌==◌, if◌then◌else◌,
}
use go_dav_os.Mem.{Region}

abbrev pub max_mmap_entries : ℕ
max_mmap_entries = 64

-- `mmapEntries` and `mmapCount`
pub record MemoryMap : Type 0 where
  pub entries : Array Region
  pub count : ℕ

-- A sum of addresses, of 64 bits.
abbrev pub address : ℕ → ℕ
address n = n % 2 ^ 64

-- `readU32` and `readU64`, from the bytes of memory.
unfoldable pub read_u32 : Array ℕ → ℕ → ℕ
read_u32 memory a =
    memory a
    + memory (address (a + 1)) * 2 ^ 8
    + memory (address (a + 2)) * 2 ^ 16
    + memory (address (a + 3)) * 2 ^ 24

unfoldable pub read_u64 : Array ℕ → ℕ → ℕ
read_u64 memory a = read_u32 memory a + read_u32 memory (address (a + 4)) * 2 ^ 32

-- `alignUp8`
unfoldable pub align_up8 : ℕ → ℕ
align_up8 p = address (p + 7) / 8 * 8

module _ (memory : Array ℕ) where
  -- The entry at `ep`.
  unfoldable pub entry_at : ℕ → Region
  entry_at ep =
      let base = read_u64 memory ep in
      let length = read_u64 memory (address (ep + 8)) in
      record {
        base_lo = base % 2 ^ 32;
        base_hi = base / 2 ^ 32 % 2 ^ 32;
        len_lo = length % 2 ^ 32;
        len_hi = length / 2 ^ 32 % 2 ^ 32;
        typ = read_u32 memory (address (ep + 16));
      }

  -- The loop over the entries of a tag, which ends when the map is full.
  unfoldable pub entries_loop : ℕ → ℕ → ℕ → ℕ → MemoryMap → MemoryMap
  entries_loop entry_size entries_end zero ep s = s
  entries_loop entry_size entries_end (suc n) ep s =
      let rest =
        entries_loop entry_size entries_end n (address (ep + entry_size))
          (record { entries = update s.entries s.count (entry_at ep); count = s.count + 1 }) in
      if leb (address (ep + entry_size)) entries_end && ltb s.count max_mmap_entries
      then rest
      else s

  -- What a tag of type 6 at `p` adds to the map, and whether a map has been found.
  unfoldable pub map_tag : ℕ → ℕ → Bool × MemoryMap → Bool × MemoryMap
  map_tag p tag_size (found_mmap, s) =
      let entry_size = read_u32 memory (address (p + 8)) in
      let t =
        entries_loop entry_size (address (p + tag_size)) max_mmap_entries (address (p + 16)) s in
      if ltb tag_size 16
      then (found_mmap, s)
      else if ltb entry_size 24
      then (found_mmap, s)
      else (ltb 0 t.count, t)

  -- The loop over the tags, with fuel: `none` when it runs out.
  unfoldable pub tags_loop : ℕ → ℕ → ℕ → Bool × MemoryMap → Option (Bool × MemoryMap)
  tags_loop end_at zero p r = if leb (address (p + 8)) end_at then none else some r
  tags_loop end_at (suc n) p r =
      let tag_type = read_u32 memory p in
      let tag_size = read_u32 memory (address (p + 4)) in
      let rest =
        tags_loop end_at n (align_up8 (address (p + tag_size)))
          (if tag_type == 6 then map_tag p tag_size r else r) in
      if not (leb (address (p + 8)) end_at)
      then some r
      else if tag_type == 0
      then some r
      else if ltb tag_size 8 || ltb end_at (address (p + tag_size))
      then some r
      else rest

  -- `InitMultiboot`; the size of the tables is fuel enough, since a tag takes 8 bytes at least.
  unfoldable pub init_multiboot : ℕ → MemoryMap → Option (Bool × MemoryMap)
  init_multiboot info s =
      let total_size = read_u32 memory info in
      let t = record s { count = 0 } in
      let tags =
        tags_loop (address (info + total_size)) total_size (address (info + 8)) (false, t) in
      if info == 0 then some (false, t) else if ltb total_size 16 then some (false, t) else tags

-- `MMapCount` and `MMapEntry`
abbrev pub mmap_count : MemoryMap → ℕ
mmap_count s = s.count

unfoldable pub mmap_entry : ℕ → MemoryMap → Region
mmap_entry i s =
    if leb s.count i
    then record { base_lo = 0; base_hi = 0; len_lo = 0; len_hi = 0; typ = 0 }
    else s.entries i
