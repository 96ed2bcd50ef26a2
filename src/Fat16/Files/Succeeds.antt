-- ===== src/Fat16/Files/Succeeds.antt =====
-- fs/fat16/fat16.go: the conditions of `CreateFile`.
use go_dav_os.Base.{
  ℕ, zero, suc, ◌+◌, ◌*◌, ◌/◌, ◌%◌, ◌^◌, ◌<◌, ◌≤◌, ◌≡◌, ◌≢◌, ◌⊎◌, refl, ◌∙◌, true, false, Option,
  none, Array, update, ltb, ◌==◌, ==_iff, arith, Bool-cases, inl, inr,
}
use go_dav_os.BlockDevice.{BlockDevice}
use go_dav_os.Fat16.{Fat, word16, read_sector, write_sector}
use go_dav_os.Fat16.Directory.{each_sector, each_entry, next, found}
use go_dav_os.Fat16.Files.{
  duplicate_step, free_step, put_entry, padded, cluster_to_sector, free_cluster_in,
  find_free_cluster, set_fat_entry, write_file, create_at, create_started, create_file,
}
use go_dav_os.Fat16.Files.Scans.{
  Same, Same-sym, Same-trans, Reads, each_sector-Ends, each_sector-Reads, read_sector-Reads, Silent,
}
use go_dav_os.Fat16.Files.Cluster.{
  IsMounted, IsFreeCluster, free_cluster_in-some, cluster_to_sector-bounds, find_free_cluster_cases,
  set_fat_entry_done,
}
use go_dav_os.Fat16.Files.Written.{
  IsMounted-transfer, IsFreeCluster-Same, Layout-inside, free_none, first_free,
}

-- A sector with a free cluster has an answer.
free_cluster_in-found :
    (sec : ℕ) (b : Array ℕ) (n i j : ℕ)
    → sec < 256
    → i + n ≤ 256
    → i ≤ j
    → j < i + n
    → 2 ≤ sec * 256 + j
    → word16 b (j * 2) ≡ 0
    → free_cluster_in sec b n i ≢ none
unfolding free_cluster_in
free_cluster_in-found sec b zero i j hs hn lo hi two free = absurd (omega (arith, lo, hi))
free_cluster_in-found sec b (suc n) i j hs hn lo hi two free = elim (Bool-cases (i == j)) [
  | inl same ↦
      let e = (==_iff i j).0 same in
      let low : ltb ((sec * 256 + i) % 2 ^ 32) 2 ≡ false = ground (arith, same, two, hs, hn) in
      let word : (word16 b (i * 2) == 0) ≡ true = rw e (ground (arith, free)) in
      rw (low, word, free_cluster_in) (λ e. cc)
  | inr other ↦
      let later =
        free_cluster_in-found sec b n (i + 1) j hs (omega (arith, hn)) (ground (arith, other, lo))
          (omega (arith, hi)) two free in
      elim (Bool-cases (ltb ((sec * 256 + i) % 2 ^ 32) 2)) [
        | inl low ↦ rw (low, free_cluster_in) later
        | inr high ↦ elim (Bool-cases (word16 b (i * 2) == 0)) [
          | inl here ↦ rw (high, here, free_cluster_in) (λ e. cc)
          | inr taken ↦ rw (high, taken, free_cluster_in) later
        ]
      ]
]

-- A sector with a free entry has an answer.
free_step-found :
    (sec : ℕ) (b : Array ℕ) (j : ℕ)
    → j < 16
    → free_step sec b (j * 32) ≢ next
    → each_entry (free_step sec b) 16 0 ≢ none
free_step-found sec b j lt free = λ e. free (free_none sec b e j (omega arith) lt)

free_mark :
    (sec : ℕ) (b : Array ℕ) (off : ℕ) → ((b off ≡ 0) ⊎ (b off ≡ 0xE5)) → free_step sec b off ≢ next
unfolding free_step
free_mark sec b off (inl z) = rw z (λ e. cc)
free_mark sec b off (inr d) = rw d (λ e. cc)

module _ {D : Type 0} (A : BlockDevice D) where
  -- Every write succeeds.
  abbrev pub Writes : Type 0
  Writes = (s : ℕ) (b : Array ℕ) (d : D) → s < 2 ^ 28 → (A.write s b d).1 ≡ true

  -- A loop over sectors of which one answers finds an answer, when the reads succeed.
  each_sector-found :
      {R : Type 0} (body : ℕ → Array ℕ → Option R) (base n : ℕ) (f : Fat D) (k : ℕ)
      → Reads A
      → base + n ≤ 2 ^ 28
      → k < n
      → body k (A.sector f.disk (base + k)) ≢ none
      → (x : R) × ((each_sector A body base n 0 f).1 ≡ found x)
  each_sector-found body base n f k reads fits lt some_here =
      elim (each_sector-Ends A body base n 0 n f (omega arith) fits).1 [
        | inl fails ↦ absurd (each_sector-Reads A body base n 0 f reads (omega (arith, fits)) fails)
        | inr (inr (_, quiet)) ↦ absurd (some_here (quiet k (omega arith) lt))
        | inr (inl (k', x, e, _)) ↦ (x, e)
      ]

  find_free_cluster-found :
      {f : Fat D} (c : ℕ)
      → Reads A
      → IsMounted f
      → IsFreeCluster A f c
      → ((find_free_cluster A f).1 == 0) ≡ false
  unfolding find_free_cluster
  find_free_cluster-found {f} c reads m free =
      let body = λ (sec : ℕ) (b : Array ℕ). free_cluster_in sec b 256 0 in
      let l = f.layout in
      let fits : l.fat_start + l.fat_sz16 ≤ 2 ^ 28 =
        omega (arith, m.two_fats, m.root_low, m.fat_small) in
      elim (each_sector-Ends A body l.fat_start l.fat_sz16 0 l.fat_sz16 f (omega arith) fits).1 [
        | inl fails ↦
            absurd (
              each_sector-Reads A body l.fat_start l.fat_sz16 0 f reads (omega (arith, fits)) fails)
        | inr (inl (k, x, e, a)) ↦
            let (two, _, _, _) =
              free_cluster_in-some k (A.sector f.disk (l.fat_start + k)) 256 0 x
                (omega (arith, a.high, m.fat_small)) (omega arith) a.here in
            rw e (ground (arith, two))
        | inr (inr (_, quiet)) ↦ absurd (
            free_cluster_in-found (c / 256) (A.sector f.disk (l.fat_start + c / 256)) 256 0
              (c % 256) (omega (arith, free.inside, m.fat_small)) (omega arith) (omega arith)
              (omega arith) (omega (arith, free.low)) free.free
              (quiet (c / 256) (omega arith) (omega (arith, free.inside))))
      ]

  write_sector-Writes : Writes → (s : ℕ) (f : Fat D) → s < 2 ^ 28 → (write_sector A s f).1 ≡ true
  unfolding write_sector
  write_sector-Writes writes s f lt = writes s f.fat_buf f.disk lt

  pub set_fat_entry-succeeds :
      {f : Fat D} (c value : ℕ)
      → Reads A
      → Writes
      → IsMounted f
      → c < f.layout.fat_sz16 * 256
      → (set_fat_entry A c value f).1 ≡ true
  unfolding set_fat_entry
  set_fat_entry-succeeds {f} c value reads writes m inside =
      let s = f.layout.fat_start + c * 2 / 512 in
      let low : s < 2 ^ 28 = omega (arith, m.two_fats, m.root_low, inside) in
      let g = (read_sector A s f).0 in
      let h = record g {
        fat_buf =
            update (update g.fat_buf (c * 2 % 512) (value % 256)) (c * 2 % 512 + 1)
              (value / 2 ^ 8 % 256);
      } in
      rw (read_sector-Reads A reads s f low, write_sector-Writes writes s h low) refl

  -- The entry `j` of sector `k` of the root directory is free.
  abbrev pub IsFreeEntry : Fat D → ℕ → ℕ → Type 0
  IsFreeEntry f k j =
      let mark = A.sector f.disk (f.layout.root_start + k) (j * 32) in
      (k < f.layout.root_sectors) × (j < 16) × ((mark ≡ 0) ⊎ (mark ≡ 0xE5))

  IsFreeEntry-Same : {f g : Fat D} → Same A f g → (k j : ℕ) → IsFreeEntry f k j → IsFreeEntry g k j
  IsFreeEntry-Same {f} {g} s k j v = rw (s.layout, s.sectors) v

  module _ (name ext bytes : Array ℕ) (len : ℕ) where
    write_file-succeeds :
        {f : Fat D} (c sec off : ℕ)
        → Reads A
        → Writes
        → IsMounted f
        → sec < f.layout.root_sectors
        → (write_file A name ext bytes len c (sec, off) f).1 ≡ true
    unfolding write_file
    write_file-succeeds {f} c sec off reads writes m inside =
        let s = f.layout.root_start + sec in
        let low : s < 2 ^ 28 = omega (arith, m.root_low, m.root_small, inside) in
        let (_, low') = cluster_to_sector-bounds c m in
        let g = (read_sector A s f).0 in
        let g' = record g { fat_buf = put_entry off name ext c len g.fat_buf } in
        let h = (write_sector A s g').0 in
        let h' = record h { fat_buf = padded bytes len } in
        rw
          (
            read_sector-Reads A reads s f low,
            write_sector-Writes writes s g' low,
            write_sector-Writes writes (cluster_to_sector c f) h' low',
          )
          refl

    create_at-succeeds :
        {f : Fat D} (c k j : ℕ)
        → Reads A
        → Writes
        → IsMounted f
        → c < f.layout.fat_sz16 * 256
        → IsFreeEntry f k j
        → (create_at A name ext bytes len c f).1 ≡ true
    unfolding create_at free_step
    create_at-succeeds {f} c k j reads writes m inside (lk, lj, mark) =
        let l = f.layout in
        let g = (set_fat_entry A c 0xFFFF f).0 in
        let marked = set_fat_entry-succeeds c 0xFFFF reads writes m inside in
        let (files, _) = set_fat_entry_done A c 0xFFFF m inside (omega arith) marked in
        let free = λ (sec : ℕ) (b : Array ℕ). each_entry (free_step sec b) 16 0 in
        let h = (each_sector A free l.root_start l.root_sectors 0 g).0 in
        let fits : l.root_start + l.root_sectors ≤ 2 ^ 28 =
          omega (arith, m.root_low, m.root_small) in
        let kept =
          files.sectors (l.root_start + k) (omega arith)
            (omega (arith, m.root_low, m.root_small, lk)) in
        let there : free k (A.sector g.disk (l.root_start + k)) ≢ none = rw kept (
          free_step-found k (A.sector f.disk (l.root_start + k)) j lj
            (free_mark k (A.sector f.disk (l.root_start + k)) (j * 32) mark)) in
        let (same, ends) =
          each_sector-Ends A free l.root_start l.root_sectors 0 l.root_sectors g (omega arith)
            fits in
        elim ends [
          | inl fails ↦ absurd (
              each_sector-Reads A free l.root_start l.root_sectors 0 g reads (omega (arith, fits))
                fails)
          | inr (inr (_, quiet)) ↦ absurd (there (quiet k (omega arith) lk))
          | inr (inl (sec, place, e, a)) ↦
              let (i, is_at, _) = first_free A name ext bytes len g sec place (rw files.layout a) in
              let layout = same.layout ∙ files.layout in
              let mh = IsMounted-transfer A layout (same.initialized ∙ files.initialized) m in
              rw (marked, e, is_at, create_at)
                (write_file-succeeds {f = h} c sec (i * 32) reads writes mh (rw layout a.high))
        ]

    pub create_file-succeeds :
        {f : Fat D}
        → Reads A
        → Writes
        → IsMounted f
        → Silent A
            (λ _ b. each_entry (duplicate_step name ext b) 16 0)
            f.layout.root_start
            f
            0
            f.layout.root_sectors
        → (c : ℕ) → IsFreeCluster A f c
        → (k j : ℕ) → IsFreeEntry f k j
        → (create_file A name ext bytes len f).1 ≡ true
    unfolding create_file create_started
    create_file-succeeds {f} reads writes m fresh c free k j (lk, lj, mark) =
        let l = f.layout in
        let scan = λ (_ : ℕ) (b : Array ℕ). each_entry (duplicate_step name ext b) 16 0 in
        let g = (each_sector A scan l.root_start l.root_sectors 0 f).0 in
        let fits : l.root_start + l.root_sectors ≤ 2 ^ 28 =
          omega (arith, m.root_low, m.root_small) in
        let (same, ends) =
          each_sector-Ends A scan l.root_start l.root_sectors 0 l.root_sectors f (omega arith)
            fits in
        let mg : IsMounted g = IsMounted-transfer A same.layout same.initialized m in
        let h = (find_free_cluster A g).0 in
        let c' = (find_free_cluster A g).1 in
        let (same', clusters) = find_free_cluster_cases A mg in
        let both = Same-trans A same same' in
        let mh : IsMounted h = IsMounted-transfer A both.layout both.initialized m in
        let e : create_file A name ext bytes len f ≡ create_started A name ext bytes len f =
          ground (arith, m.started) in
        let some_free =
          find_free_cluster-found c reads mg (IsFreeCluster-Same A (Same-sym A same) free) in
        elim ends [
          | inl fails ↦ absurd (
              each_sector-Reads A scan l.root_start l.root_sectors 0 f reads (omega (arith, fits))
                fails)
          | inr (inl (k', x, _, a)) ↦ let quiet = fresh k' a.low a.high in let here = a.here in cc
          | inr (inr (done, _)) ↦ elim clusters [
            | inl zero_answer ↦ absurd (ground (arith, zero_answer, some_free))
            | inr found_free ↦
                let inside = Layout-inside A both (IsFreeCluster-Same A same found_free).inside in
                rw (e, done, some_free, create_file, create_started)
                  (create_at-succeeds {f = h} c' k j reads writes mh inside
                    (IsFreeEntry-Same both k j (lk, lj, mark)))
          ]
        ]
