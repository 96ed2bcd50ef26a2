-- ===== src/Fat16/Files/RoundTrip.antt =====
-- fs/fat16/fat16.go: `ReadFile` after `CreateFile`.
use go_dav_os.Base.{
  ℕ, ◌+◌, ◌*◌, ◌^◌, ◌<◌, ◌≤◌, ◌≡◌, ◌≢◌, refl, sym, ap, ◌∙◌, true, false, none, some, Array, ltb,
  arith, Bool-cases, inl, inr,
}
use go_dav_os.BlockDevice.{BlockDevice}
use go_dav_os.Fat16.{Fat, Layout}
use go_dav_os.Fat16.Directory.{entry_matches, is_volume_label, each_sector, each_entry, next, stop}
use go_dav_os.Fat16.Files.{
  duplicate_step, free_step, read_step, put_entry, padded, cluster_to_sector, create_file,
  read_started, read_file,
}
use go_dav_os.Fat16.Files.Entry.{read_step-ext, read_step-put_entry, put_entry-before}
use go_dav_os.Fat16.Files.Entries.{each_entry_cases, each_entry-answer, each_entry-none, Passed}
use go_dav_os.Fat16.Files.Scans.{Reads, each_sector-Ends, each_sector-answer, Answers}
use go_dav_os.Fat16.Files.Cluster.{IsMounted, cluster_to_sector-bounds}
use go_dav_os.Fat16.Files.Create.{Created, create_file_done}
use go_dav_os.Fat16.Files.Written.{IsMounted-transfer}

module _ (name ext : Array ℕ) where
  -- An entry that is neither free nor a duplicate is passed over, if it is no volume label of the name.
  passed-read :
      (sec : ℕ) (b : Array ℕ) (off : ℕ)
      → free_step sec b off ≡ next
      → duplicate_step name ext b off ≡ next
      → (is_volume_label b off ≡ true → entry_matches b off name ext ≡ false)
      → read_step name ext b off ≡ next
  unfolding free_step duplicate_step read_step
  passed-read sec b off live fresh label = ground arith

  -- A free entry is where the loop over the names stops.
  duplicate_step-stop :
      (sec : ℕ) (b : Array ℕ) (off : ℕ)
      → duplicate_step name ext b off ≡ stop
      → free_step sec b off ≢ next
  unfolding duplicate_step free_step
  duplicate_step-stop sec b off e = λ f. ground arith

  -- Before the first free entry of a sector without a duplicate there is none.
  passed-duplicate :
      (sec : ℕ) (b : Array ℕ) (i : ℕ)
      → i ≤ 16
      → each_entry (duplicate_step name ext b) 16 0 ≡ none
      → Passed (free_step sec b) 0 i
      → Passed (duplicate_step name ext b) 0 i
  unfolding free_step duplicate_step
  passed-duplicate sec b i le fresh live =
      elim (each_entry_cases (duplicate_step name ext b) 16 0 16 (omega arith)) [
        | inl (k, x, f, _, _, _, _) ↦ cc
        | inr (_, inr all) ↦ λ j lo hi. all j lo (omega (arith, hi, le))
        | inr (_, inl (k, _, _, at, before)) ↦ λ j lo hi. elim (Bool-cases (ltb j k)) [
          | inl lt ↦ before j lo (ground (arith, lt))
          | inr ge ↦ absurd (
              duplicate_step-stop sec b (k * 32) at (live k (omega arith) (ground (arith, ge, hi))))
        ]
      ]

  -- Before the place `i` of a sector, `ReadFile` passes over entries that are neither free nor duplicates.
  passed_all :
      (sec : ℕ) (b : Array ℕ) (i : ℕ)
      → i ≤ 16
      → each_entry (duplicate_step name ext b) 16 0 ≡ none
      → Passed (free_step sec b) 0 i
      → ((j : ℕ)
          → j < 16
          → is_volume_label b (j * 32) ≡ true
          → entry_matches b (j * 32) name ext ≡ false)
      → Passed (read_step name ext b) 0 i
  passed_all sec b i le fresh live label =
      let fresh_entries = passed-duplicate sec b i le fresh live in
      λ j lo hi.
        passed-read sec b (j * 32) (live j lo hi) (fresh_entries j lo hi)
          (label j (omega (arith, hi, le)))

module _ {D : Type 0} (A : BlockDevice D) (name ext : Array ℕ) where
  -- No volume label of the root directory has the name.
  abbrev pub HasNoLabel : Fat D → Type 0
  HasNoLabel f =
      (k j : ℕ)
      → k < f.layout.root_sectors
      → j < 16
      → is_volume_label (A.sector f.disk (f.layout.root_start + k)) (j * 32) ≡ true
      → entry_matches (A.sector f.disk (f.layout.root_start + k)) (j * 32) name ext ≡ false

module _ {D : Type 0} (A : BlockDevice D) (name ext bytes : Array ℕ) (len : ℕ) where
  -- The loop of `ReadFile` finds the new entry first.
  entry-Answers :
      {f g : Fat D}
      → IsMounted f
      → name 0 ≢ 0
      → name 0 ≢ 0xE5
      → len < 2 ^ 32
      → HasNoLabel A name ext f
      → (v : Created A name ext bytes len f g)
      → Answers A
          (λ _ b. each_entry (read_step name ext b) 16 0)
          f.layout.root_start
          g
          0
          f.layout.root_sectors
          v.sec
          (some (v.cluster, len))
  entry-Answers {f} {g} m n0 n5 hl label v =
      let l = f.layout in
      let i = v.entry in
      let w = v.written in
      let first = v.first_free in
      let old = λ (k : ℕ). A.sector f.disk (l.root_start + k) in
      let passed =
        λ (k e : ℕ) (lt : k < l.root_sectors) (le : e ≤ 16)
            (live : Passed (free_step k (old k)) 0 e).
          passed_all name ext k (old k) e le (v.fresh k (omega arith) lt) live
            (λ j lj. label k j lt lj) in
      let before =
        passed v.sec i first.sector_inside (omega (arith, first.entry_inside)) first.passed in
      let small : v.cluster < 2 ^ 16 = omega (arith, v.free_cluster.inside, m.fat_small) in
      record {
        low = omega arith;
        high = first.sector_inside;
        here = rw w.entry (
            each_entry-answer
              (read_step name ext (put_entry (i * 32) name ext v.cluster len (old v.sec))) 16 0 i
              (some (v.cluster, len)) (omega arith) (omega (arith, first.entry_inside))
              (λ j lo hi.
                read_step-ext name ext (put_entry (i * 32) name ext v.cluster len (old v.sec))
                  (old v.sec) (j * 32)
                  (λ n ln.
                    put_entry-before name ext (old v.sec) (i * 32) v.cluster len (j * 32 + n)
                      (omega (arith, ln, hi)))
                ∙ before j lo hi)
              (read_step-put_entry name ext (old v.sec) (i * 32) v.cluster len n0 n5 small hl));
        before = λ k lo hi.
            let lt : k < l.root_sectors = omega (arith, hi, first.sector_inside) in
            let ne : k ≢ v.sec = omega (arith, hi) in
            rw (w.others k lt ne) (
              each_entry-none (read_step name ext (old k)) 16 0 (
                passed k 16 lt (omega arith) (λ j _ lj. first.earlier k j hi (omega (arith, lj)))));
      }

  -- `ReadFile` gives the size, and the sector of the cluster, of the first entry that answers.
  read_started-Answers :
      {g : Fat D} (l : Layout) (k c size : ℕ)
      → Reads A
      → IsMounted g
      → l ≡ g.layout
      → Answers A
          (λ _ b. each_entry (read_step name ext b) 16 0)
          l.root_start
          g
          0
          l.root_sectors
          k
          (some (c, size))
      → (read_started A name ext g).1 ≡ some (size, A.sector g.disk (cluster_to_sector c g))
  unfolding read_started cluster_to_sector
  read_started-Answers {g} l' k c size reads m layout a' =
      let l = g.layout in
      let a = rw layout at a' in
      let body = λ (_ : ℕ) (b : Array ℕ). each_entry (read_step name ext b) 16 0 in
      let h = (each_sector A body l.root_start l.root_sectors 0 g).0 in
      let fits : l.root_start + l.root_sectors ≤ 2 ^ 28 = omega (arith, m.root_low, m.root_small) in
      let same =
        (each_sector-Ends A body l.root_start l.root_sectors 0 l.root_sectors g (omega arith)
          fits).0 in
      let e =
        each_sector-answer A body l.root_start l.root_sectors 0 l.root_sectors g k (some (c, size))
          reads (omega arith) fits a in
      let t = cluster_to_sector c h in
      let place : t ≡ cluster_to_sector c g = rw same.layout refl in
      let (_, low) = cluster_to_sector-bounds c m in
      let low' : t < 2 ^ 28 = rw place low in
      let (b, got) = reads t h.disk low' in
      let held : b ≡ A.sector g.disk (cluster_to_sector c g) =
        A.read_gives t h.disk b low' got
        ∙ (ap (λ x. x t) same.sectors ∙ ap (A.sector g.disk) place) in
      rw (e, got, read_started) (ap (λ x. some (size, x)) held)

  -- On a mounted filesystem whose reads succeed, a file that `CreateFile` has created is read back by
  -- `ReadFile`: its length, and its first 512 bytes of data, or the data padded with zeros. The name does
  -- not start with a mark of a free entry, the length fits 32 bits, and no volume label has the name.
  pub read_file-create_file :
      {f : Fat D}
      → Reads A
      → IsMounted f
      → name 0 ≢ 0
      → name 0 ≢ 0xE5
      → len < 2 ^ 32
      → HasNoLabel A name ext f
      → (create_file A name ext bytes len f).1 ≡ true
      → (read_file A name ext (create_file A name ext bytes len f).0).1
        ≡ some (len, padded bytes len)
  unfolding read_file cluster_to_sector
  read_file-create_file {f} reads m n0 n5 hl label done =
      let g = (create_file A name ext bytes len f).0 in
      let v = create_file_done A name ext bytes len m done in
      let w = v.written in
      let mg : IsMounted g = IsMounted-transfer A w.layout w.initialized m in
      let e : read_file A name ext g ≡ read_started A name ext g = ground (arith, mg.started) in
      let a = entry-Answers m n0 n5 hl label v in
      let place : cluster_to_sector v.cluster g ≡ cluster_to_sector v.cluster f =
        rw w.layout refl in
      let read = read_started-Answers f.layout v.sec v.cluster len reads mg (sym w.layout) a in
      rw e (read ∙ ap (λ x. some (len, x)) (ap (A.sector g.disk) place ∙ w.stored))
