-- ===== src/Mem/Multiboot/Ends.antt =====
-- mem/multiboot.go: the end of the parser, and the size of the map.
use go_dav_os.Base.{
  ℕ, zero, suc, ◌+◌, ◌^◌, ◌<◌, ◌≤◌, ◌≡◌, refl, Bool, false, ◌&&◌, ◌||◌, some, Array, update, ltb,
  leb, ◌==◌, if◌then◌else◌, arith, Bool-cases, inl, inr,
}
use go_dav_os.Mem.Multiboot.{
  MemoryMap, address, read_u32, align_up8, entry_at, entries_loop, map_tag, tags_loop,
  init_multiboot,
}

-- The array of the map is not overrun.
entries_loop-count :
    (memory : Array ℕ) (size last n ep : ℕ) (s : MemoryMap)
    → s.count ≤ 64
    → (entries_loop memory size last n ep s).count ≤ 64
unfolding entries_loop
entries_loop-count memory size last zero ep s le = le
entries_loop-count memory size last (suc n) ep s le =
    elim (Bool-cases (leb (address (ep + size)) last && ltb s.count 64)) [
      | inl more ↦
          rw (more, entries_loop)
            (entries_loop-count memory size last n (address (ep + size))
              (record {
                entries = update s.entries s.count (entry_at memory ep);
                count = s.count + 1;
              })
              (ground (arith, more)))
      | inr done ↦ rw (done, entries_loop) le
    ]

map_tag-count :
    (memory : Array ℕ) (p size : ℕ) (r : Bool × MemoryMap)
    → r.1.count ≤ 64
    → (map_tag memory p size r).1.count ≤ 64
unfolding map_tag
map_tag-count memory p size (found_mmap, s) le = elim (Bool-cases (ltb size 16)) [
  | inl short ↦ rw (short, map_tag) le
  | inr long ↦ elim (Bool-cases (ltb (read_u32 memory (address (p + 8))) 24)) [
    | inl small ↦ rw (long, small, map_tag) le
    | inr wide ↦
        rw (long, wide, map_tag)
          (entries_loop-count memory (read_u32 memory (address (p + 8))) (address (p + size)) 64
            (address (p + 16)) s le)
  ]
]

tag-count :
    (memory : Array ℕ) (p size : ℕ) (r : Bool × MemoryMap)
    → r.1.count ≤ 64
    → (if read_u32 memory p == 6 then map_tag memory p size r else r).1.count ≤ 64
tag-count memory p size r le = elim (Bool-cases (read_u32 memory p == 6)) [
  | inl map ↦ rw map (map_tag-count memory p size r le)
  | inr other ↦ rw other le
]

pub read_u32-low :
    (memory : Array ℕ) → ((a : ℕ) → memory a < 256) → (a : ℕ) → read_u32 memory a < 2 ^ 32
unfolding read_u32
read_u32-low memory bytes a =
    omega
      (arith, bytes a, bytes (address (a + 1)), bytes (address (a + 2)), bytes (address (a + 3)))

align_up8-near : (q : ℕ) → q < 2 ^ 63 + 2 ^ 33 → (q ≤ align_up8 q) × (align_up8 q ≤ q + 7)
unfolding align_up8
align_up8-near q lt = omega (arith, lt)

-- The next tag is 8 bytes further at least.
pub next_tag :
    (p size end_at : ℕ)
    → end_at < 2 ^ 63
    → p ≤ end_at + 7
    → size < 2 ^ 32
    → (ltb size 8 || ltb end_at (address (p + size))) ≡ false
    → (p + 8 ≤ align_up8 (address (p + size))) × (align_up8 (address (p + size)) ≤ end_at + 7)
next_tag p size end_at fits high low good =
    let whole : address (p + size) ≡ p + size = omega (arith, fits, high, low) in
    let long : 8 ≤ size = ground (arith, good) in
    let inside : p + size ≤ end_at = let g = rw whole at good in ground (arith, g) in
    let (more, less) = align_up8-near (p + size) (omega (arith, inside, fits)) in
    rw whole (omega (arith, more, long), omega (arith, less, inside))

-- The loop over the tags ends before the fuel does, with at most 64 entries.
tags_loop-ends :
    (memory : Array ℕ)
    → ((a : ℕ) → memory a < 256)
    → (end_at n p : ℕ) (r : Bool × MemoryMap) → end_at < 2 ^ 63
    → p ≤ end_at + 7
    → end_at ≤ p + n
    → r.1.count ≤ 64
    → (t : Bool × MemoryMap) × (tags_loop memory end_at n p r ≡ some t) × (t.1.count ≤ 64)
unfolding tags_loop
tags_loop-ends memory bytes end_at zero p r fits high far le =
    let past : leb (address (p + 8)) end_at ≡ false = ground (arith, fits, high, far) in
    rw (past, tags_loop) (r, refl, le)
tags_loop-ends memory bytes end_at (suc n) p r fits high far le =
    let size = read_u32 memory (address (p + 4)) in
    elim (Bool-cases (leb (address (p + 8)) end_at)) [
      | inr past ↦ rw (past, tags_loop) (r, refl, le)
      | inl inside ↦ elim (Bool-cases (read_u32 memory p == 0)) [
        | inl last ↦ rw (inside, last, tags_loop) (r, refl, le)
        | inr tag ↦ elim (Bool-cases (ltb size 8 || ltb end_at (address (p + size)))) [
          | inl bad ↦ rw (inside, tag, bad, tags_loop) (r, refl, le)
          | inr good ↦
              rw (inside, tag, good, tags_loop)
                (let (more, less) =
                    next_tag p size end_at fits high (read_u32-low memory bytes (address (p + 4)))
                      good in
                  tags_loop-ends memory bytes end_at n (align_up8 (address (p + size)))
                    (if read_u32 memory p == 6 then map_tag memory p size r else r) fits less
                    (omega (arith, more, far)) (tag-count memory p size r le))
        ]
      ]
    ]

-- On tables of any content that end below 2 ^ 63, `InitMultiboot` ends, after no more rounds than the
-- tables have bytes, with at most 64 entries.
pub init_multiboot-ends :
    (memory : Array ℕ)
    → ((a : ℕ) → memory a < 256)
    → (info : ℕ) (s : MemoryMap) → info + read_u32 memory info < 2 ^ 63
    → (t : Bool × MemoryMap) × (init_multiboot memory info s ≡ some t) × (t.1.count ≤ 64)
unfolding init_multiboot
init_multiboot-ends memory bytes info s fits =
    let size = read_u32 memory info in
    let t = record s { count = 0 } in
    elim (Bool-cases (info == 0)) [
      | inl null ↦ rw (null, init_multiboot) ((false, t), refl, omega arith)
      | inr there ↦ elim (Bool-cases (ltb size 16)) [
        | inl short ↦ rw (there, short, init_multiboot) ((false, t), refl, omega arith)
        | inr long ↦
            let end_at : address (info + size) ≡ info + size = omega (arith, fits) in
            let first : address (info + 8) ≡ info + 8 = omega (arith, fits) in
            rw (there, long, end_at, first, init_multiboot)
              (tags_loop-ends memory bytes (info + size) size (info + 8) (false, t) fits
                (ground (arith, long)) (omega arith) (omega arith))
      ]
    ]
