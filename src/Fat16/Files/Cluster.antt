-- ===== src/Fat16/Files/Cluster.antt =====
-- fs/fat16/fat16.go: clusters, their words in the FAT, and their sectors.
use native.Mathlib.Nat.{mul-le-mul_left}
use go_dav_os.Base.{
  ℕ, zero, suc, ◌+◌, ◌*◌, ◌/◌, ◌%◌, ◌^◌, ◌<◌, ◌≤◌, ◌≡◌, ◌≢◌, ◌⊎◌, refl, ap, ◌∙◌, true, false, some,
  Array, update, ltb, ◌==◌, if◌then◌else◌, arith, Bool-cases, inl, inr,
}
use go_dav_os.BlockDevice.{BlockDevice}
use go_dav_os.Fat16.{Fat, read_sector, write_sector, word16}
use go_dav_os.Fat16.Files.{free_cluster_in, cluster_to_sector, find_free_cluster, set_fat_entry}
use go_dav_os.Fat16.Files.Scans.{Same, read_sector-Same, read_sector-got, each_sector-Ends}

-- A filesystem whose offsets are apart: two FATs before the root directory, that before the data, all
-- of them below the sectors that the driver can address; and whose clusters have numbers of 16 bits.
pub record IsMounted {D : Type 0} (f : Fat D) : Type 0 where
  pub started : f.initialized ≡ true
  pub two_fats : f.layout.fat_start + 2 * f.layout.fat_sz16 ≤ f.layout.root_start
  pub fat_small : f.layout.fat_sz16 ≤ 256
  pub root_low : f.layout.root_start < 2 ^ 25
  pub root_small : f.layout.root_sectors ≤ 4096
  pub data_place : f.layout.data_start ≡ f.layout.root_start + f.layout.root_sectors
  pub cluster_small : f.layout.sec_per_clust < 256

pub free_cluster_in-some :
    (sec : ℕ) (b : Array ℕ) (n i c : ℕ)
    → sec < 256
    → i + n ≤ 256
    → free_cluster_in sec b n i ≡ some c
    → (2 ≤ c) × (sec * 256 + i ≤ c) × (c < sec * 256 + (i + n)) × (word16 b (c % 256 * 2) ≡ 0)
unfolding free_cluster_in
free_cluster_in-some sec b zero i c hs hn e = cc
free_cluster_in-some sec b (suc n) i c hs hn e =
    let k = (sec * 256 + i) % 2 ^ 32 in
    let later = free_cluster_in-some sec b n (i + 1) c hs (omega (arith, hn)) in
    elim (Bool-cases (ltb k 2)) [
      | inl low ↦ ground (arith, later)
      | inr high ↦ elim (Bool-cases (word16 b (i * 2) == 0)) [
        | inl free ↦ ground (arith, free)
        | inr taken ↦ ground (arith, later)
      ]
    ]

-- The data of a cluster lies past the root directory, where the driver can address it.
pub cluster_to_sector-bounds :
    {D : Type 0} (c : ℕ) {f : Fat D}
    → IsMounted f
    → (f.layout.data_start ≤ cluster_to_sector c f) × (cluster_to_sector c f < 2 ^ 28)
unfolding cluster_to_sector
cluster_to_sector-bounds c {f} m =
    let small : f.layout.sec_per_clust ≤ 255 = omega (arith, m.cluster_small) in
    let product : (c + 65534) % 2 ^ 16 * f.layout.sec_per_clust ≤ 65535 * 255 =
      omega (arith, mul-le-mul_left ((c + 65534) % 2 ^ 16) small) in
    omega (arith, product, m.root_low, m.root_small, m.data_place)

-- The word of cluster `c` in the first FAT, which starts at sector `start`.
abbrev pub fat_word : {D : Type 0} → BlockDevice D → ℕ → D → ℕ → ℕ
fat_word A start d c = word16 (A.sector d (start + c / 256)) (c % 256 * 2)

put_word :
    (b : Array ℕ) (value c d : ℕ)
    → value < 2 ^ 16
    → c < 256
    → d < 256
    → word16 (update (update b (c * 2) (value % 256)) (c * 2 + 1) (value / 2 ^ 8 % 256)) (d * 2)
      ≡ (if d == c then value else word16 b (d * 2))
put_word b value c d hv hc hd = ground arith

module _ {D : Type 0} (A : BlockDevice D) where
  -- The cluster is one that the FAT knows, and free.
  pub record IsFreeCluster (f : Fat D) (c : ℕ) : Type 0 where
    pub low : 2 ≤ c
    pub inside : c < f.layout.fat_sz16 * 256
    pub free : fat_word A f.layout.fat_start f.disk c ≡ 0

  -- `findFreeCluster` changes nothing on the disk, and answers 0 or a free cluster.
  pub find_free_cluster_cases :
      {f : Fat D}
      → IsMounted f
      → Same A f (find_free_cluster A f).0
        × (((find_free_cluster A f).1 ≡ 0) ⊎ IsFreeCluster f (find_free_cluster A f).1)
  unfolding find_free_cluster
  find_free_cluster_cases {f} m =
      let body = λ (sec : ℕ) (b : Array ℕ). free_cluster_in sec b 256 0 in
      let l = f.layout in
      let (same, ends) =
        each_sector-Ends A body l.fat_start l.fat_sz16 0 l.fat_sz16 f (omega arith)
          (omega (arith, m.two_fats, m.root_low, m.fat_small)) in
      elim ends [
        | inl e ↦ rw e (same, inl refl)
        | inr (inr (e, _)) ↦ rw e (same, inl refl)
        | inr (inl (k, c, e, a)) ↦
            let (two, low, high, word) =
              free_cluster_in-some k (A.sector f.disk (l.fat_start + k)) 256 0 c
                (omega (arith, a.high, m.fat_small)) (omega arith) a.here in
            let place : c / 256 ≡ k = omega (arith, low, high) in
            rw e (
              same,
              inr (record {
                low = two;
                inside = omega (arith, high, a.high);
                free = rw place word;
              }),
            )
      ]

  pub write_sector-other :
      (s k : ℕ) (f : Fat D)
      → s < 2 ^ 28
      → k < 2 ^ 28
      → k ≢ s
      → A.sector (write_sector A s f).0.disk k ≡ A.sector f.disk k
  unfolding write_sector
  write_sector-other s k f hs hk ne = A.write_other s f.fat_buf f.disk k hs hk ne

  pub write_sector-done :
      (s : ℕ) (f : Fat D)
      → s < 2 ^ 28
      → (write_sector A s f).1 ≡ true
      → A.sector (write_sector A s f).0.disk s ≡ f.fat_buf
  unfolding write_sector
  write_sector-done s f hs e = A.write_done s f.fat_buf f.disk hs e

  -- The variables are the same, and so are the sectors from the root directory on.
  pub record SameFiles (f g : Fat D) : Type 0 where
    pub layout : g.layout ≡ f.layout
    pub initialized : g.initialized ≡ f.initialized
    pub sectors :
        (k : ℕ) → f.layout.root_start ≤ k → k < 2 ^ 28 → A.sector g.disk k ≡ A.sector f.disk k

  -- The words after the first of the two writes.
  put_word_at :
      (c value : ℕ) {f : Fat D}
      → IsMounted f
      → c < f.layout.fat_sz16 * 256
      → value < 2 ^ 16
      → let s1 = f.layout.fat_start + c * 2 / 512 in
        let g = (read_sector A s1 f).0 in
        let h = record g {
          fat_buf =
              update
                (update g.fat_buf (c * 2 % 512) (value % 256))
                (c * 2 % 512 + 1)
                (value / 2 ^ 8 % 256);
        } in
        (read_sector A s1 f).1 ≡ true
        → (write_sector A s1 h).1 ≡ true
        → (d : ℕ) → d < f.layout.fat_sz16 * 256
        → fat_word A f.layout.fat_start (write_sector A s1 h).0.disk d
          ≡ (if d == c then value else fat_word A f.layout.fat_start f.disk d)
  put_word_at c value {f} m inside small got put d lt =
      let l = f.layout in
      let s1 = l.fat_start + c * 2 / 512 in
      let j = l.fat_start + d / 256 in
      let g = (read_sector A s1 f).0 in
      let h = record g {
        fat_buf =
            update (update g.fat_buf (c * 2 % 512) (value % 256)) (c * 2 % 512 + 1)
              (value / 2 ^ 8 % 256);
      } in
      let low : s1 < 2 ^ 28 = omega (arith, m.two_fats, m.root_low, inside) in
      let lowj : j < 2 ^ 28 = omega (arith, m.two_fats, m.root_low, lt) in
      elim (Bool-cases (d / 256 == c / 256)) [
        | inl here ↦
            let place : j ≡ s1 = ground (arith, here) in
            let off : c * 2 % 512 ≡ c % 256 * 2 = omega arith in
            let test : (d % 256 == c % 256) ≡ (d == c) = ground (arith, here) in
            let words : word16 h.fat_buf (d % 256 * 2)
                ≡ (if d % 256 == c % 256 then value else word16 g.fat_buf (d % 256 * 2)) =
              rw off
                (put_word g.fat_buf value (c % 256) (d % 256) small (omega arith) (omega arith)) in
            rw (place, write_sector-done s1 h low put)
              (rw (← test, ← read_sector-got A s1 f low got) words)
        | inr away ↦
            let ne : j ≢ s1 = ground (arith, away) in
            let other : (d == c) ≡ false = ground (arith, away) in
            rw other (
              rw (write_sector-other s1 j h low lowj ne)
                (ap (λ x. word16 (x j) (d % 256 * 2)) (read_sector-Same A s1 f).sectors))
      ]

  -- `setFATEntry`, when it succeeds on a mounted filesystem for a cluster of the FAT, sets the cluster's
  -- word in the first FAT, leaves the other words there, and does not touch the root directory and what
  -- comes after it.
  pub set_fat_entry_done :
      (c value : ℕ) {f : Fat D}
      → IsMounted f
      → c < f.layout.fat_sz16 * 256
      → value < 2 ^ 16
      → (set_fat_entry A c value f).1 ≡ true
      → SameFiles f (set_fat_entry A c value f).0
        × ((d : ℕ)
            → d < f.layout.fat_sz16 * 256
            → fat_word A f.layout.fat_start (set_fat_entry A c value f).0.disk d
              ≡ (if d == c then value else fat_word A f.layout.fat_start f.disk d))
  unfolding set_fat_entry write_sector
  set_fat_entry_done c value {f} m inside small done =
      let l = f.layout in
      let s1 = l.fat_start + c * 2 / 512 in
      let s2 = l.fat_start + l.fat_sz16 + c * 2 / 512 in
      let g = (read_sector A s1 f).0 in
      let same = read_sector-Same A s1 f in
      let h = record g {
        fat_buf =
            update (update g.fat_buf (c * 2 % 512) (value % 256)) (c * 2 % 512 + 1)
              (value / 2 ^ 8 % 256);
      } in
      let k = (write_sector A s1 h).0 in
      let bound : s2 < 2 ^ 26 = omega (arith, m.two_fats, m.root_low, inside) in
      let apart : s1 ≢ s2 = omega (arith, inside) in
      elim (Bool-cases (read_sector A s1 f).1) [
        | inr fails ↦ cc (rw (fails, set_fat_entry) at done)
        | inl got ↦ elim (Bool-cases (write_sector A s1 h).1) [
          | inr fails ↦ cc (rw (got, fails, set_fat_entry) at done)
          | inl put ↦
              rw (got, put, set_fat_entry)
                (
                  record {
                    layout = same.layout;
                    initialized = same.initialized;
                    sectors = λ j lo hi.
                        let n1 : j ≢ s1 = omega (arith, lo, m.two_fats, inside) in
                        let n2 : j ≢ s2 = omega (arith, lo, m.two_fats, inside) in
                        write_sector-other s2 j k (omega (arith, bound)) hi n2
                        ∙ (write_sector-other s1 j h (omega (arith, bound)) hi n1
                            ∙ ap (λ x. x j) same.sectors);
                  },
                  λ d lt.
                      let j = l.fat_start + d / 256 in
                      let n2 : j ≢ s2 = omega (arith, inside, lt) in
                      let kept =
                        write_sector-other s2 j k (omega (arith, bound))
                          (omega (arith, m.two_fats, m.root_low, lt)) n2 in
                      rw kept (put_word_at c value m inside small got put d lt),
                )
        ]
      ]
