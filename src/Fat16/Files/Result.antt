-- ===== src/Fat16/Files/Result.antt =====
-- fs/fat16/fat16.go, `CreateFile`: the new file, in the bytes of the root directory and of the data.
use native.Mathlib.Nat.{mul-le-mul_left}
use go_dav_os.Base.{
  ℕ, ◌+◌, ◌-◌, ◌*◌, ◌/◌, ◌%◌, ◌^◌, ◌<◌, ◌≤◌, ◌≡◌, ◌≢◌, ◌⊎◌, refl, ap, ◌∙◌, true, false, none, Array,
  ltb, leb, if◌then◌else◌, ◌==◌, arith, Bool-cases, inl, inr,
}
use go_dav_os.BlockDevice.{BlockDevice}
use go_dav_os.Fat16.{Fat, word16, word32}
use go_dav_os.Fat16.Directory.{entry_matches, each_entry, next, answer, stop}
use go_dav_os.Fat16.Files.{
  duplicate_step, free_step, put_entry, padded, cluster_to_sector, create_file,
}
use go_dav_os.Fat16.Files.Entry.{
  bytes_match-true, put_entry-name, put_entry-ext, put_entry-cluster, put_entry-len,
  put_entry-before, put_entry-after,
}
use go_dav_os.Fat16.Files.Entries.{each_entry_cases}
use go_dav_os.Fat16.Files.Cluster.{IsMounted, IsFreeCluster}
use go_dav_os.Fat16.Files.Create.{Created, create_file_done}

-- The entry at `off` is a file's or a label's: its first byte is no mark of a free entry.
abbrev pub IsTaken : Array ℕ → ℕ → Type 0
IsTaken b off = (b off ≢ 0) × (b off ≢ 0xE5)

-- The entry at `off` has the 8 bytes of the name and the 3 of the extension.
abbrev pub IsNamed : Array ℕ → ℕ → Array ℕ → Array ℕ → Type 0
IsNamed b off name ext =
    ((m : ℕ) → m < 8 → b (off + m) ≡ name m) × ((m : ℕ) → m < 3 → b (off + 8 + m) ≡ ext m)

free_step-next : (sec : ℕ) (b : Array ℕ) (off : ℕ) → free_step sec b off ≡ next → IsTaken b off
unfolding free_step
free_step-next sec b off e = (λ z. ground (arith, z, e), λ z. ground (arith, z, e))

free_step-free :
    (sec : ℕ) (b : Array ℕ) (off : ℕ) (x : ℕ × ℕ)
    → free_step sec b off ≡ answer x
    → (b off ≡ 0) ⊎ (b off ≡ 0xE5)
unfolding free_step
free_step-free sec b off x e = elim (Bool-cases (b off == 0)) [
  | inl y ↦ inl (ground (arith, y))
  | inr n ↦ elim (Bool-cases (b off == 0xE5)) [
    | inl y ↦ inr (ground (arith, y))
    | inr n' ↦ cc (rw (n, n', free_step) at e)
  ]
]

module _ (name ext : Array ℕ) where
  duplicate_step-stop : (b : Array ℕ) (off : ℕ) → duplicate_step name ext b off ≡ stop → b off ≡ 0
  unfolding duplicate_step
  duplicate_step-stop b off e = ground (arith, e)

  -- What the loop over the names passes by is free, or a label, or has another name.
  duplicate_step-next :
      (b : Array ℕ) (off : ℕ)
      → duplicate_step name ext b off ≡ next
      → IsTaken b off
      → b (off + 11) / 8 % 2 ≡ 0
      → ¬ IsNamed b off name ext
  unfolding duplicate_step entry_matches
  duplicate_step-next b off e (live, used) file = λ (names, exts).
      let n = bytes_match-true 8 0 b off name (λ m _ hi. names m (omega (arith, hi))) in
      let x = bytes_match-true 3 0 b (off + 8) ext (λ m _ hi. exts m (omega (arith, hi))) in
      ground (arith, e, live, used, file, n, x)

  -- A sector without a duplicate: no file before its first end mark has the name.
  each_entry-fresh :
      (b : Array ℕ)
      → each_entry (duplicate_step name ext b) 16 0 ≡ none
      → (j : ℕ) → j < 16
      → ((i : ℕ) → i ≤ j → b (i * 32) ≢ 0)
      → b (j * 32) ≢ 0xE5
      → b (j * 32 + 11) / 8 % 2 ≡ 0
      → ¬ IsNamed b (j * 32) name ext
  each_entry-fresh b quiet j lt live used file =
      let here = λ (e : duplicate_step name ext b (j * 32) ≡ next).
        duplicate_step-next b (j * 32) e (live j (omega arith), used) file in
      elim (each_entry_cases (duplicate_step name ext b) 16 0 16 (omega arith)) [
        | inl (k, x, f, _, _, _, _) ↦ cc
        | inr (_, inr all) ↦ here (all j (omega arith) (omega (arith, lt)))
        | inr (_, inl (k, _, _, at, before)) ↦ elim (Bool-cases (ltb j k)) [
          | inl lt' ↦ here (before j (omega arith) (ground (arith, lt')))
          | inr ge ↦
              let z = duplicate_step-stop b (k * 32) at in absurd (live k (ground (arith, ge)) z)
        ]
      ]

put_entry-zeros :
    (name ext b : Array ℕ) (off cluster len m : ℕ)
    → 11 ≤ m
    → m < 26
    → put_entry off name ext cluster len b (off + m) ≡ 0
unfolding put_entry
put_entry-zeros name ext b off cluster len m lo hi =
    let low : ltb (off + m) off ≡ false = ground arith in
    let high : leb (off + 32) (off + m) ≡ false = ground (arith, hi) in
    let here : off + m - off ≡ m = omega arith in
    let part : ltb m 8 ≡ false = ground (arith, lo) in
    let part' : ltb m 11 ≡ false = ground (arith, lo) in
    let part'' : ltb m 26 ≡ true = ground (arith, hi) in
    rw (low, high, here, part, part', part'') refl

module _ {D : Type 0} (A : BlockDevice D) where
  -- The sector `k` of the root directory.
  abbrev pub root_sector : Fat D → ℕ → Array ℕ
  root_sector f k = A.sector f.disk (f.layout.root_start + k)

  -- Cluster 2 is the first one of the data.
  data_sector :
      (c : ℕ) {f : Fat D}
      → IsMounted f
      → 2 ≤ c
      → c < 2 ^ 16
      → cluster_to_sector c f ≡ f.layout.data_start + (c - 2) * f.layout.sec_per_clust
  unfolding cluster_to_sector
  data_sector c {f} m lo hi =
      let from_two : (c + 65534) % 2 ^ 16 ≡ c - 2 = omega (arith, lo, hi) in
      let small : f.layout.sec_per_clust ≤ 255 = omega (arith, m.cluster_small) in
      let product : (c - 2) * f.layout.sec_per_clust ≤ 65535 * 255 =
        omega (arith, mul-le-mul_left (c - 2) small, hi) in
      rw from_two (omega (arith, product, m.root_low, m.root_small, m.data_place))

  module _ (name ext bytes : Array ℕ) (len : ℕ) where
    -- The bytes of the new entry at `off` of a sector: name, extension, zeros, cluster and length; the
    -- rest of the sector `old` is kept.
    pub record IsEntry (old b : Array ℕ) (off cluster : ℕ) : Type 0 where
      pub named : IsNamed b off name ext
      pub zeros : (m : ℕ) → 11 ≤ m → m < 26 → b (off + m) ≡ 0
      pub cluster_word : word16 b (off + 26) ≡ cluster
      pub length_word : word32 b (off + 28) ≡ len
      pub before : (m : ℕ) → m < off → b m ≡ old m
      pub after : (m : ℕ) → off + 32 ≤ m → b m ≡ old m

    -- The new file of `g`, that was not there in `f`.
    pub record IsNewFile (f g : Fat D) : Type 0 where
      pub cluster : ℕ
      pub sec : ℕ
      pub entry : ℕ
      pub fresh :
          (k j : ℕ)
          → k < f.layout.root_sectors
          → j < 16
          → ((i : ℕ) → i ≤ j → root_sector f k (i * 32) ≢ 0)
          → root_sector f k (j * 32) ≢ 0xE5
          → root_sector f k (j * 32 + 11) / 8 % 2 ≡ 0
          → ¬ IsNamed (root_sector f k) (j * 32) name ext
      pub free_cluster : IsFreeCluster A f cluster
      pub sector_inside : sec < f.layout.root_sectors
      pub entry_inside : entry < 16
      pub free_entry :
          (root_sector f sec (entry * 32) ≡ 0) ⊎ (root_sector f sec (entry * 32) ≡ 0xE5)
      pub first_sector : (k j : ℕ) → k < sec → j < 16 → IsTaken (root_sector f k) (j * 32)
      pub first_entry : (j : ℕ) → j < entry → IsTaken (root_sector f sec) (j * 32)
      pub layout : g.layout ≡ f.layout
      pub initialized : g.initialized ≡ f.initialized
      pub written : IsEntry (root_sector f sec) (root_sector g sec) (entry * 32) cluster
      pub others : (k : ℕ) → k < f.layout.root_sectors → k ≢ sec → root_sector g k ≡ root_sector f k
      pub stored :
          (m : ℕ)
          → m < 512
          → A.sector g.disk (f.layout.data_start + (cluster - 2) * f.layout.sec_per_clust) m
            ≡ (if ltb m len then bytes m else 0)

    put_entry-IsEntry :
        (old : Array ℕ) (off cluster : ℕ)
        → cluster < 2 ^ 16
        → len < 2 ^ 32
        → IsEntry old (put_entry off name ext cluster len old) off cluster
    put_entry-IsEntry old off cluster hc hl = record {
      named = (
        λ m lt. put_entry-name name ext old off cluster len m lt,
        λ m lt. put_entry-ext name ext old off cluster len m lt,
      );
      zeros = λ m lo hi. put_entry-zeros name ext old off cluster len m lo hi;
      cluster_word = put_entry-cluster name ext old off cluster len hc;
      length_word = put_entry-len name ext old off cluster len hl;
      before = λ m lt. put_entry-before name ext old off cluster len m lt;
      after = λ m le. put_entry-after name ext old off cluster len m le;
    }

    padded_lem : (m : ℕ) → m < 512 → padded bytes len m ≡ (if ltb m len then bytes m else 0)
    unfolding padded
    padded_lem m lt = let inside : ltb m 512 ≡ true = ground (arith, lt) in rw inside refl

    Created-IsNewFile :
        {f g : Fat D}
        → IsMounted f
        → len < 2 ^ 32
        → Created A name ext bytes len f g
        → IsNewFile f g
    Created-IsNewFile {f} {g} m hl v =
        let first = v.first_free in
        let w = v.written in
        let off = v.entry * 32 in
        let small : v.cluster < 2 ^ 16 = omega (arith, v.free_cluster.inside, m.fat_small) in
        let at_g : (k : ℕ) → root_sector g k ≡ A.sector g.disk (f.layout.root_start + k) =
          λ k. ap (λ l. A.sector g.disk (l.root_start + k)) w.layout in
        record {
          cluster = v.cluster;
          sec = v.sec;
          entry = v.entry;
          fresh = λ k j lt lj live used file.
              each_entry-fresh name ext (root_sector f k) (v.fresh k (omega arith) lt) j lj live
                used file;
          free_cluster = v.free_cluster;
          sector_inside = first.sector_inside;
          entry_inside = first.entry_inside;
          free_entry = free_step-free v.sec (root_sector f v.sec) off (v.sec, off) first.here;
          first_sector =
              λ k j lk lj. free_step-next k (root_sector f k) (j * 32) (first.earlier k j lk lj);
          first_entry = λ j lj.
              free_step-next v.sec (root_sector f v.sec) (j * 32) (first.passed j (omega arith) lj);
          layout = w.layout;
          initialized = w.initialized;
          written =
              rw (at_g v.sec, w.entry)
                (put_entry-IsEntry (root_sector f v.sec) off v.cluster small hl);
          others = λ k lt ne. at_g k ∙ w.others k lt ne;
          stored = λ k lt.
              rw (← data_sector v.cluster m v.free_cluster.low small, w.stored) (padded_lem k lt);
        }

    -- When `CreateFile` succeeds on a mounted filesystem, with a length that fits 32 bits: before the end
    -- mark of its sector no file of the root directory had the name; the new entry stands at the first
    -- entry whose first byte is 0 or 0xE5, has the name, the length and a cluster that was free in the
    -- FAT, and else zeros; the rest of the root directory is unchanged; and the first sector of the
    -- cluster holds the first 512 bytes of the data, or the data and zeros.
    pub create_file-IsNewFile :
        {f : Fat D}
        → IsMounted f
        → len < 2 ^ 32
        → (create_file A name ext bytes len f).1 ≡ true
        → IsNewFile f (create_file A name ext bytes len f).0
    create_file-IsNewFile {f} m hl done =
        Created-IsNewFile m hl (create_file_done A name ext bytes len m done)
