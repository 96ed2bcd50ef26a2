-- ===== src/Fat16/Files/Written.antt =====
-- fs/fat16/fat16.go: the free entry that `CreateFile` takes, and what it writes.
use go_dav_os.Base.{
  ℕ, ◌+◌, ◌*◌, ◌^◌, ◌<◌, ◌≡◌, ◌≢◌, refl, sym, ap, ◌∙◌, true, ◌||◌, none, Array, ◌==◌, arith,
  Bool-cases, inl, inr,
}
use go_dav_os.BlockDevice.{BlockDevice}
use go_dav_os.Fat16.{Fat, read_sector, write_sector}
use go_dav_os.Fat16.Directory.{each_entry, next, answer, stop}
use go_dav_os.Fat16.Files.{free_step, put_entry, padded, cluster_to_sector, write_file}
use go_dav_os.Fat16.Files.Entries.{some_inj, answer_inj, each_entry_cases, Passed}
use go_dav_os.Fat16.Files.Scans.{Same, read_sector-Same, read_sector-got, Answers}
use go_dav_os.Fat16.Files.Cluster.{
  IsMounted, IsFreeCluster, cluster_to_sector-bounds, write_sector-other, write_sector-done,
  SameFiles,
}

free_step-answer :
    (sec : ℕ) (b : Array ℕ) (off : ℕ) (x : ℕ × ℕ) → free_step sec b off ≡ answer x → x ≡ (sec, off)
unfolding free_step
free_step-answer sec b off x e = elim (Bool-cases (b off == 0x00 || b off == 0xE5)) [
  | inl y ↦ sym (answer_inj (sec, off) x (rw (y, free_step) at e))
  | inr n ↦ cc (rw (n, free_step) at e)
]

free_step-stop : (sec : ℕ) (b : Array ℕ) (off : ℕ) → free_step sec b off ≢ stop
unfolding free_step
free_step-stop sec b off = λ e. ground arith

pub free_none :
    (sec : ℕ) (b : Array ℕ)
    → each_entry (free_step sec b) 16 0 ≡ none
    → Passed (free_step sec b) 0 16
free_none sec b e = elim (each_entry_cases (free_step sec b) 16 0 16 (omega arith)) [
  | inl (k, x, f, _, _, _, _) ↦ cc
  | inr (_, inl (k, _, _, at, _)) ↦ absurd (free_step-stop sec b (k * 32) at)
  | inr (_, inr all) ↦ all
]

module _ {D : Type 0} (A : BlockDevice D) where
  pub IsMounted-transfer :
      {f g : Fat D}
      → g.layout ≡ f.layout
      → g.initialized ≡ f.initialized
      → IsMounted f
      → IsMounted g
  IsMounted-transfer {f} {g} layout initialized m = record {
    started = initialized ∙ m.started;
    two_fats = rw layout m.two_fats;
    fat_small = rw layout m.fat_small;
    root_low = rw layout m.root_low;
    root_small = rw layout m.root_small;
    data_place = rw layout m.data_place;
    cluster_small = rw layout m.cluster_small;
  }

  pub IsFreeCluster-Same :
      {f g : Fat D} {c : ℕ} → Same A f g → IsFreeCluster A g c → IsFreeCluster A f c
  IsFreeCluster-Same {f} {g} {c} s v = record {
    low = v.low;
    inside = rw s.layout at v.inside;
    free = rw (s.layout, s.sectors) at v.free;
  }

  pub Layout-inside :
      {f g : Fat D} {c : ℕ} → Same A f g → c < f.layout.fat_sz16 * 256 → c < g.layout.fat_sz16 * 256
  Layout-inside {f} {g} {c} s lt = rw s.layout lt

  module _ (name ext bytes : Array ℕ) (len : ℕ) where
    -- Sector `sec` of the directory has the new entry at `off`, the other sectors of the directory are
    -- as they were, and the cluster has the data.
    pub record Written (f : Fat D) (cluster sec off : ℕ) (g : Fat D) : Type 0 where
      pub layout : g.layout ≡ f.layout
      pub initialized : g.initialized ≡ f.initialized
      pub entry :
          A.sector g.disk (f.layout.root_start + sec)
          ≡ put_entry off name ext cluster len (A.sector f.disk (f.layout.root_start + sec))
      pub others :
          (k : ℕ)
          → k < f.layout.root_sectors
          → k ≢ sec
          → A.sector g.disk (f.layout.root_start + k) ≡ A.sector f.disk (f.layout.root_start + k)
      pub stored : A.sector g.disk (cluster_to_sector cluster f) ≡ padded bytes len

    pub write_file_done :
        (cluster sec off : ℕ) {f : Fat D}
        → IsMounted f
        → sec < f.layout.root_sectors
        → (write_file A name ext bytes len cluster (sec, off) f).1 ≡ true
        → Written f cluster sec off (write_file A name ext bytes len cluster (sec, off) f).0
    unfolding write_file write_sector
    write_file_done cluster sec off {f} m inside done =
        let l = f.layout in
        let s = l.root_start + sec in
        let t = cluster_to_sector cluster f in
        let g = (read_sector A s f).0 in
        let same = read_sector-Same A s f in
        let g' = record g { fat_buf = put_entry off name ext cluster len g.fat_buf } in
        let h = (write_sector A s g').0 in
        let h' = record h { fat_buf = padded bytes len } in
        let (past, low) = cluster_to_sector-bounds cluster m in
        let place = m.data_place in
        let slow : s < 2 ^ 28 = omega (arith, m.root_low, m.root_small, inside) in
        let apart : s ≢ t = omega (arith, past, place, inside) in
        elim (Bool-cases (read_sector A s f).1) [
          | inr fails ↦ cc (rw (fails, write_file) at done)
          | inl got ↦ elim (Bool-cases (write_sector A s g').1) [
            | inr fails ↦ cc (rw (got, fails, write_file) at done)
            | inl put ↦
                let stored = write_sector-done A t h' low (rw (got, put, write_file) at done) in
                rw (got, put, write_file)
                  (record {
                    layout = same.layout;
                    initialized = same.initialized;
                    stored = stored;
                    entry =
                        write_sector-other A t s h' low slow apart
                        ∙ (write_sector-done A s g' slow put
                            ∙ ap (put_entry off name ext cluster len)
                                (read_sector-got A s f slow got));
                    others = λ k lt ne.
                        let lowk : l.root_start + k < 2 ^ 28 =
                          omega (arith, m.root_low, m.root_small, lt) in
                        let nt : l.root_start + k ≢ t = omega (arith, past, place, lt) in
                        let ns : l.root_start + k ≢ s = omega (arith, ne) in
                        write_sector-other A t (l.root_start + k) h' low lowk nt
                        ∙ (write_sector-other A s (l.root_start + k) g' slow lowk ns
                            ∙ ap (λ x. x (l.root_start + k)) same.sectors);
                  })
          ]
        ]

    -- The free entry `i` of sector `sec` is the first one of the directory.
    pub record IsFirstFree (f : Fat D) (sec i : ℕ) : Type 0 where
      pub sector_inside : sec < f.layout.root_sectors
      pub entry_inside : i < 16
      pub earlier :
          (k j : ℕ)
          → k < sec
          → j < 16
          → free_step k (A.sector f.disk (f.layout.root_start + k)) (j * 32) ≡ next
      pub passed : Passed (free_step sec (A.sector f.disk (f.layout.root_start + sec))) 0 i
      pub here :
          free_step sec (A.sector f.disk (f.layout.root_start + sec)) (i * 32)
          ≡ answer (sec, i * 32)

    pub first_free :
        (f : Fat D) (sec : ℕ) (place : ℕ × ℕ)
        → Answers A
            (λ k b. each_entry (free_step k b) 16 0)
            f.layout.root_start
            f
            0
            f.layout.root_sectors
            sec
            place
        → (i : ℕ) × (place ≡ (sec, i * 32)) × IsFirstFree f sec i
    first_free f sec place a =
        let b = A.sector f.disk (f.layout.root_start + sec) in
        elim (each_entry_cases (free_step sec b) 16 0 16 (omega arith)) [
          | inr (quiet, _) ↦ let here = a.here in cc
          | inl (i, x, answers, _, lt, at, before) ↦
              let same : x ≡ place = some_inj (sym answers ∙ a.here) in
              (
                i,
                sym same ∙ free_step-answer sec b (i * 32) x at,
                record {
                  sector_inside = a.high;
                  entry_inside = lt;
                  passed = before;
                  here = at ∙ ap answer (free_step-answer sec b (i * 32) x at);
                  earlier = λ k j lk lj.
                      free_none k (A.sector f.disk (f.layout.root_start + k))
                        (a.before k (omega arith) lk) j (omega arith) lj;
                },
              )
        ]

    pub IsFirstFree-transfer :
        {f g : Fat D} {sec i : ℕ}
        → SameFiles A f g
        → IsMounted f
        → IsFirstFree g sec i
        → IsFirstFree f sec i
    IsFirstFree-transfer {f} {g} {sec} {i} s m v =
        let layout = s.layout in
        let inside : sec < f.layout.root_sectors = rw (← layout) v.sector_inside in
        let same = λ (k : ℕ) (lt : k < f.layout.root_sectors).
          s.sectors (f.layout.root_start + k) (omega arith)
            (omega (arith, lt, m.root_low, m.root_small)) in
        record {
          sector_inside = inside;
          entry_inside = v.entry_inside;
          earlier = λ k j lk lj.
              rw (← same k (omega (arith, lk, inside)), ← layout) (v.earlier k j lk lj);
          passed = rw (← same sec inside, ← layout) v.passed;
          here = rw (← same sec inside, ← layout) v.here;
        }

    pub Written-transfer :
        {f g h : Fat D} {cluster sec off : ℕ}
        → SameFiles A f g
        → IsMounted f
        → sec < f.layout.root_sectors
        → Written g cluster sec off h
        → Written f cluster sec off h
    unfolding cluster_to_sector
    Written-transfer {f} {g} {h} {cluster} {sec} {off} s m inside w =
        let layout = s.layout in
        let same = λ (k : ℕ) (lt : k < f.layout.root_sectors).
          s.sectors (f.layout.root_start + k) (omega arith)
            (omega (arith, lt, m.root_low, m.root_small)) in
        let target : cluster_to_sector cluster g ≡ cluster_to_sector cluster f = rw layout refl in
        record {
          layout = w.layout ∙ layout;
          initialized = w.initialized ∙ s.initialized;
          entry =
              (rw layout at w.entry) ∙ ap (put_entry off name ext cluster len) (same sec inside);
          others = λ k lt ne. (rw layout at (w.others k (rw layout lt) ne)) ∙ same k lt;
          stored = rw target at w.stored;
        }

    pub SameFiles-Same : {f g h : Fat D} → SameFiles A f g → Same A g h → SameFiles A f h
    SameFiles-Same s t = record {
      layout = t.layout ∙ s.layout;
      initialized = t.initialized ∙ s.initialized;
      sectors = λ k lo hi. ap (λ x. x k) t.sectors ∙ s.sectors k lo hi;
    }
