-- ===== src/Mem/Multiboot/Reads.antt =====
-- mem/multiboot.go: the memory that the parser reads.
use go_dav_os.Base.{
  ℕ, zero, suc, ◌+◌, ◌-◌, ◌^◌, ◌<◌, ◌≤◌, ◌≡◌, ◌⊎◌, refl, ap, Bool, false, ◌&&◌, ◌||◌, Array, update,
  ltb, leb, ◌==◌, if◌then◌else◌, arith, Bool-cases, inl, inr,
}
use go_dav_os.Mem.Multiboot.{
  MemoryMap, address, read_u32, read_u64, align_up8, entry_at, entries_loop, map_tag, tags_loop,
  init_multiboot,
}
use go_dav_os.Mem.Multiboot.Ends.{read_u32-low, next_tag}

-- Two memories that are the same from `lo` on and before `hi`.
abbrev pub Agree : ℕ → ℕ → Array ℕ → Array ℕ → Type 0
Agree lo hi m k = (a : ℕ) → lo ≤ a → a < hi → m a ≡ k a

read_u32-Agree :
    {lo hi : ℕ} {m k : Array ℕ}
    → Agree lo hi m k
    → hi < 2 ^ 63
    → (a : ℕ) → lo ≤ a
    → a + 4 ≤ hi
    → read_u32 m a ≡ read_u32 k a
unfolding read_u32
read_u32-Agree same fits a le inside =
    let one : address (a + 1) ≡ a + 1 = omega (arith, fits, inside) in
    let two : address (a + 2) ≡ a + 2 = omega (arith, fits, inside) in
    let three : address (a + 3) ≡ a + 3 = omega (arith, fits, inside) in
    rw
      (
        one,
        two,
        three,
        same a le (omega (arith, inside)),
        same (a + 1) (omega (arith, le)) (omega (arith, inside)),
        same (a + 2) (omega (arith, le)) (omega (arith, inside)),
        same (a + 3) (omega (arith, le)) (omega (arith, inside)),
      )
      refl

read_u64-Agree :
    {lo hi : ℕ} {m k : Array ℕ}
    → Agree lo hi m k
    → hi < 2 ^ 63
    → (a : ℕ) → lo ≤ a
    → a + 8 ≤ hi
    → read_u64 m a ≡ read_u64 k a
unfolding read_u64
read_u64-Agree same fits a le inside =
    let four : address (a + 4) ≡ a + 4 = omega (arith, fits, inside) in
    rw
      (
        four,
        read_u32-Agree same fits a le (omega (arith, inside)),
        read_u32-Agree same fits (a + 4) (omega (arith, le)) (omega (arith, inside)),
      )
      refl

entry_at-Agree :
    {lo hi : ℕ} {m k : Array ℕ}
    → Agree lo hi m k
    → hi < 2 ^ 63
    → (ep : ℕ) → lo ≤ ep
    → ep + 20 ≤ hi
    → entry_at m ep ≡ entry_at k ep
unfolding entry_at
entry_at-Agree same fits ep le inside =
    let eight : address (ep + 8) ≡ ep + 8 = omega (arith, fits, inside) in
    let sixteen : address (ep + 16) ≡ ep + 16 = omega (arith, fits, inside) in
    rw
      (
        eight,
        sixteen,
        read_u64-Agree same fits ep le (omega (arith, inside)),
        read_u64-Agree same fits (ep + 8) (omega (arith, le)) (omega (arith, inside)),
        read_u32-Agree same fits (ep + 16) (omega (arith, le)) (omega (arith, inside)),
      )
      refl

entries_loop-Agree :
    {lo hi : ℕ} {m k : Array ℕ}
    → Agree lo hi m k
    → hi < 2 ^ 63
    → (size last n ep : ℕ) (s : MemoryMap) → 24 ≤ size
    → size < 2 ^ 32
    → last ≤ hi
    → lo ≤ ep
    → ep ≤ hi
    → entries_loop m size last n ep s ≡ entries_loop k size last n ep s
unfolding entries_loop
entries_loop-Agree same fits size last zero ep s wide low top le high = refl
entries_loop-Agree {lo} {hi} {m} {k} same fits size last (suc n) ep s wide low top le high =
    elim (Bool-cases (leb (address (ep + size)) last && ltb s.count 64)) [
      | inr done ↦ rw (done, entries_loop) refl
      | inl more ↦
          let whole : address (ep + size) ≡ ep + size = omega (arith, high, fits, low) in
          let inside : ep + size ≤ last = let g = rw whole at more in ground (arith, g) in
          rw
            (
              more,
              entries_loop,
              whole,
              entry_at-Agree same fits ep le (omega (arith, inside, top, wide)),
            )
            (entries_loop-Agree same fits size last n (ep + size)
              (record { entries = update s.entries s.count (entry_at k ep); count = s.count + 1 })
              wide low top (omega (arith, le)) (omega (arith, inside, top)))
    ]

map_tag-Agree :
    {lo hi : ℕ} {m k : Array ℕ}
    → Agree lo hi m k
    → hi < 2 ^ 63
    → ((a : ℕ) → m a < 256)
    → (p size : ℕ) (r : Bool × MemoryMap) → lo ≤ p
    → p + size ≤ hi
    → map_tag m p size r ≡ map_tag k p size r
unfolding map_tag
map_tag-Agree {lo} {hi} {m} {k} same fits bytes p size (found_mmap, s) le inside =
    elim (Bool-cases (ltb size 16)) [
      | inl short ↦ rw (short, map_tag) refl
      | inr long ↦
          let eight : address (p + 8) ≡ p + 8 = ground (arith, fits, inside, long) in
          let first : address (p + 16) ≡ p + 16 = ground (arith, fits, inside, long) in
          let whole : address (p + size) ≡ p + size = omega (arith, fits, inside) in
          let entry : read_u32 m (p + 8) ≡ read_u32 k (p + 8) =
            read_u32-Agree same fits (p + 8) (omega (arith, le)) (ground (arith, inside, long)) in
          elim (Bool-cases (ltb (read_u32 k (p + 8)) 24)) [
            | inl small ↦ rw (long, eight, entry, small, map_tag) refl
            | inr wide ↦
                let low : read_u32 k (p + 8) < 2 ^ 32 =
                  rw entry at (read_u32-low m bytes (p + 8)) in
                rw (long, eight, entry, wide, first, whole, map_tag)
                  (ap (λ t. (ltb 0 t.count, t))
                    (entries_loop-Agree same fits (read_u32 k (p + 8)) (p + size) 64 (p + 16) s
                      (ground (arith, wide)) low inside (omega (arith, le))
                      (ground (arith, inside, long))))
          ]
    ]

tags_loop-Agree :
    {lo hi : ℕ} {m k : Array ℕ}
    → Agree lo hi m k
    → hi < 2 ^ 63
    → ((a : ℕ) → m a < 256)
    → (n p : ℕ) (r : Bool × MemoryMap) → lo ≤ p
    → p ≤ hi + 7
    → tags_loop m hi n p r ≡ tags_loop k hi n p r
unfolding tags_loop
tags_loop-Agree same fits bytes zero p r le high = refl
tags_loop-Agree {lo} {hi} {m} {k} same fits bytes (suc n) p r le high =
    elim (Bool-cases (leb (address (p + 8)) hi)) [
      | inr past ↦ rw (past, tags_loop) refl
      | inl inside ↦
          let room : p + 8 ≤ hi = ground (arith, inside, high, fits) in
          let four : address (p + 4) ≡ p + 4 = omega (arith, room, fits) in
          let kind : read_u32 m p ≡ read_u32 k p =
            read_u32-Agree same fits p le (omega (arith, room)) in
          let extent : read_u32 m (p + 4) ≡ read_u32 k (p + 4) =
            read_u32-Agree same fits (p + 4) (omega (arith, le)) (omega (arith, room)) in
          let size = read_u32 k (p + 4) in
          let low : size < 2 ^ 32 = rw extent at (read_u32-low m bytes (p + 4)) in
          elim (Bool-cases (read_u32 k p == 0)) [
            | inl last ↦ rw (inside, kind, last, tags_loop) refl
            | inr tag ↦ elim (Bool-cases (ltb size 8 || ltb hi (address (p + size)))) [
              | inl bad ↦ rw (inside, kind, tag, four, extent, bad, tags_loop) refl
              | inr good ↦
                  let whole : address (p + size) ≡ p + size = omega (arith, room, fits, low) in
                  let fit : p + size ≤ hi = let g = rw whole at good in ground (arith, g) in
                  let (more, less) = next_tag p size hi fits high low good in
                  rw
                    (
                      inside,
                      kind,
                      tag,
                      four,
                      extent,
                      good,
                      map_tag-Agree same fits bytes p size r le fit,
                      tags_loop,
                    )
                    (tags_loop-Agree same fits bytes n (align_up8 (address (p + size)))
                      (if read_u32 k p == 6 then map_tag k p size r else r)
                      (omega (arith, more, le)) less)
            ]
          ]
    ]

-- `InitMultiboot` reads nothing outside the tables: on two memories that are the same in the first 8 bytes
-- at `info` and in the bytes that the size there counts, it finds the same map.
pub init_multiboot-Agree :
    (m k : Array ℕ) (info : ℕ) (s : MemoryMap)
    → ((a : ℕ) → m a < 256)
    → info + read_u32 m info + 8 < 2 ^ 63
    → ((i : ℕ) → (i < 8) ⊎ (i < read_u32 m info) → m (info + i) ≡ k (info + i))
    → init_multiboot m info s ≡ init_multiboot k info s
unfolding init_multiboot
init_multiboot-Agree m k info s bytes fits same =
    let near : Agree info (info + 8) m k = λ a lo hi.
      let place : info + (a - info) ≡ a = omega (arith, lo) in
      rw place at (same (a - info) (inl (omega (arith, lo, hi)))) in
    let size : read_u32 m info ≡ read_u32 k info =
      read_u32-Agree near (omega (arith, fits)) info (omega arith) (omega arith) in
    let all : Agree info (info + read_u32 m info) m k = λ a lo hi.
      let place : info + (a - info) ≡ a = omega (arith, lo) in
      rw place at (same (a - info) (inr (omega (arith, lo, hi)))) in
    elim (Bool-cases (info == 0)) [
      | inl null ↦ rw (null, init_multiboot) refl
      | inr there ↦ elim (Bool-cases (ltb (read_u32 k info) 16)) [
        | inl short ↦ rw (there, size, short, init_multiboot) refl
        | inr long ↦
            let total = read_u32 k info in
            let fits' : info + total + 8 < 2 ^ 63 = rw size at fits in
            let all' : Agree info (info + total) m k = rw size at all in
            let end_at : address (info + total) ≡ info + total = omega (arith, fits') in
            let first : address (info + 8) ≡ info + 8 = omega (arith, fits') in
            rw (there, size, long, end_at, first, init_multiboot)
              (tags_loop-Agree all' (omega (arith, fits')) bytes total (info + 8)
                (false, record s { count = 0 }) (omega arith) (ground (arith, long)))
      ]
    ]
