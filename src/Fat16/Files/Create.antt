-- ===== src/Fat16/Files/Create.antt =====
-- fs/fat16/fat16.go, `CreateFile`: what it has done when it succeeds.
use go_dav_os.Base.{ℕ, ◌*◌, ◌<◌, ◌≡◌, ap, true, Array, ◌==◌, arith, Bool-cases, inl, inr}
use go_dav_os.BlockDevice.{BlockDevice}
use go_dav_os.Fat16.{Fat}
use go_dav_os.Fat16.Directory.{each_sector, each_entry}
use go_dav_os.Fat16.Files.{
  duplicate_step, free_step, find_free_cluster, set_fat_entry, write_file, create_at,
  create_started, create_file,
}
use go_dav_os.Fat16.Files.Scans.{Same-trans, each_sector-Ends, Silent}
use go_dav_os.Fat16.Files.Written.{
  IsMounted-transfer, IsFreeCluster-Same, Layout-inside, Written, write_file_done, IsFirstFree,
  first_free, IsFirstFree-transfer, Written-transfer, SameFiles-Same,
}
use go_dav_os.Fat16.Files.Cluster.{
  IsMounted, IsFreeCluster, find_free_cluster_cases, SameFiles, set_fat_entry_done,
}

module _ {D : Type 0} (A : BlockDevice D) (name ext bytes : Array ℕ) (len : ℕ) where
  create_at_done :
      (cluster : ℕ) {f : Fat D}
      → IsMounted f
      → cluster < f.layout.fat_sz16 * 256
      → (create_at A name ext bytes len cluster f).1 ≡ true
      → (sec : ℕ) × (i : ℕ) × IsFirstFree A name ext bytes len f sec i
        × Written A name ext bytes len f cluster sec
            (i * 32)
            (create_at A name ext bytes len cluster f).0
  unfolding create_at
  create_at_done cluster {f} m inside done =
      let l = f.layout in
      let g = (set_fat_entry A cluster 0xFFFF f).0 in
      let free = λ (k : ℕ) (b : Array ℕ). each_entry (free_step k b) 16 0 in
      let h = (each_sector A free l.root_start l.root_sectors 0 g).0 in
      let (same, ends) =
        each_sector-Ends A free l.root_start l.root_sectors 0 l.root_sectors g (omega arith)
          (omega (arith, m.root_low, m.root_small)) in
      elim (Bool-cases (set_fat_entry A cluster 0xFFFF f).1) [
        | inr fails ↦ cc (rw (fails, create_at) at done)
        | inl marked ↦
            let (files, _) = set_fat_entry_done A cluster 0xFFFF m inside (omega arith) marked in
            elim ends [
              | inl e ↦ cc (rw (marked, e, create_at) at done)
              | inr (inr (e, _)) ↦ cc (rw (marked, e, create_at) at done)
              | inr (inl (sec, place, e, a)) ↦
                  let (i, at, first) =
                    first_free A name ext bytes len g sec place (rw files.layout a) in
                  let sh : SameFiles A f h = SameFiles-Same A name ext bytes len files same in
                  let done' : (write_file A name ext bytes len cluster (sec, i * 32) h).1 ≡ true =
                    rw (marked, e, at, create_at) at done in
                  let first' = IsFirstFree-transfer A name ext bytes len files m first in
                  let w =
                    write_file_done A name ext bytes len cluster sec (i * 32)
                      (IsMounted-transfer A sh.layout sh.initialized m)
                      (rw sh.layout first'.sector_inside) done' in
                  rw (marked, e, at, create_at)
                    (
                      sec,
                      i,
                      first',
                      Written-transfer A name ext bytes len sh m first'.sector_inside w,
                    )
            ]
      ]

  -- What `CreateFile` has done when it succeeds: no file had the name, the entry is the first free one
  -- of the directory, and names a cluster that was free and now holds the data.
  pub record Created (f g : Fat D) : Type 0 where
    pub cluster : ℕ
    pub sec : ℕ
    pub entry : ℕ
    pub fresh :
        Silent A
          (λ _ b. each_entry (duplicate_step name ext b) 16 0)
          f.layout.root_start
          f
          0
          f.layout.root_sectors
    pub free_cluster : IsFreeCluster A f cluster
    pub first_free : IsFirstFree A name ext bytes len f sec entry
    pub written : Written A name ext bytes len f cluster sec (entry * 32) g

  create_started_done :
      {f : Fat D}
      → IsMounted f
      → (create_started A name ext bytes len f).1 ≡ true
      → Created f (create_started A name ext bytes len f).0
  unfolding create_started
  create_started_done {f} m done =
      let l = f.layout in
      let scan = λ (_ : ℕ) (b : Array ℕ). each_entry (duplicate_step name ext b) 16 0 in
      let g = (each_sector A scan l.root_start l.root_sectors 0 f).0 in
      let (same, ends) =
        each_sector-Ends A scan l.root_start l.root_sectors 0 l.root_sectors f (omega arith)
          (omega (arith, m.root_low, m.root_small)) in
      let mg = IsMounted-transfer A same.layout same.initialized m in
      let h = (find_free_cluster A g).0 in
      let c = (find_free_cluster A g).1 in
      let (same', clusters) = find_free_cluster_cases A mg in
      let both = Same-trans A same same' in
      let mh : IsMounted h = IsMounted-transfer A both.layout both.initialized m in
      elim ends [
        | inl e ↦ cc (rw (e, create_started) at done)
        | inr (inl (k, x, e, _)) ↦ cc (rw (e, create_started) at done)
        | inr (inr (e, fresh)) ↦ elim (Bool-cases (c == 0)) [
          | inl full ↦ cc (rw (e, full, create_started) at done)
          | inr some_free ↦
              let done' : (create_at A name ext bytes len c h).1 ≡ true =
                rw (e, some_free, create_started) at done in
              elim clusters [
                | inl zero_answer ↦ absurd (ground (arith, some_free, zero_answer))
                | inr found_free ↦
                    let free = IsFreeCluster-Same A same found_free in
                    let (sec, i, first, w) =
                      create_at_done c mh (Layout-inside A both free.inside) done' in
                    let kept : SameFiles A f h = record {
                      layout = both.layout;
                      initialized = both.initialized;
                      sectors = λ k _ _. ap (λ x. x k) both.sectors;
                    } in
                    let first' = IsFirstFree-transfer A name ext bytes len kept m first in
                    rw (e, some_free, create_started)
                      (record {
                        cluster = c;
                        sec = sec;
                        entry = i;
                        fresh = fresh;
                        free_cluster = free;
                        first_free = first';
                        written =
                            Written-transfer A name ext bytes len kept m first'.sector_inside w;
                      })
              ]
        ]
      ]

  -- When `CreateFile` succeeds on a mounted filesystem, no file before the end of the directory had the
  -- name; the new entry stands at the first free place of the root directory, the rest of which is
  -- unchanged; and it names a cluster that was free in the FAT and whose sector holds the data.
  pub create_file_done :
      {f : Fat D}
      → IsMounted f
      → (create_file A name ext bytes len f).1 ≡ true
      → Created f (create_file A name ext bytes len f).0
  unfolding create_file
  create_file_done {f} m done =
      let e : create_file A name ext bytes len f ≡ create_started A name ext bytes len f =
        ground (arith, m.started) in
      rw (e, create_file) (create_started_done m (rw (e, create_file) at done))
