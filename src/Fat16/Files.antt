-- ===== src/Fat16/Files.antt =====
-- fs/fat16/fat16.go: files are created and read.
pub mod Entries
pub mod Scans
pub mod Cluster
pub mod Written
pub mod Create
pub mod Entry
pub mod RoundTrip
pub mod Succeeds
pub mod Result
use go_dav_os.Base.{
  ℕ, zero, suc, ◌+◌, ◌-◌, ◌*◌, ◌/◌, ◌%◌, ◌^◌, Bool, true, false, not, ◌&&◌, ◌||◌, Option, none,
  some, List, [], ◌∷◌, ◌++◌, Array, update, ltb, leb, ◌==◌, if◌then◌else◌,
}
use go_dav_os.BlockDevice.{BlockDevice}
use go_dav_os.Fat16.{
  Fat, Message, dir_entry_size, read_sector, write_sector, print, word16, word32, not_initialized,
  file_exists, no_free_clusters, fat_write_error, directory_full,
}
use go_dav_os.Fat16.Directory.{
  Scan, read_failed, found, used_up, Step, answer, stop, next, entry_matches, is_volume_label,
  each_entry, each_sector,
}

-- The loop of `CreateFile` over a sector: whether a file of the name is there.
unfoldable pub duplicate_step : Array ℕ → Array ℕ → Array ℕ → ℕ → Step Bool
duplicate_step name ext b off =
    if b off == 0x00
    then stop
    else if b off == 0xE5
    then next
    else if is_volume_label b off
    then next
    else if entry_matches b off name ext
    then answer true
    else next

-- A free entry: its sector in the directory, and its offset there.
unfoldable pub free_step : ℕ → Array ℕ → ℕ → Step (ℕ × ℕ)
free_step sec b off = if b off == 0x00 || b off == 0xE5 then answer (sec, off) else next

-- The loop of `ReadFile`: `none` at the end of the directory, or the file's cluster and size.
unfoldable pub read_step : Array ℕ → Array ℕ → Array ℕ → ℕ → Step (Option (ℕ × ℕ))
read_step name ext b off =
    if b off == 0x00
    then answer none
    else if b off == 0xE5
    then next
    else if entry_matches b off name ext
    then answer (some (word16 b (off + 26), word32 b (off + 28)))
    else next

-- The loop of `findFreeCluster` over the `n` words of the FAT's sector `sec` from word `i` on; a
-- cluster's number is cut to 16 bits.
unfoldable pub free_cluster_in : ℕ → Array ℕ → ℕ → ℕ → Option ℕ
free_cluster_in sec b zero i = none
free_cluster_in sec b (suc n) i =
    let rest = free_cluster_in sec b n (i + 1) in
    let cluster = (sec * 256 + i) % 2 ^ 32 in
    if ltb cluster 2 then rest else if word16 b (i * 2) == 0 then some (cluster % 2 ^ 16) else rest

abbrev pub option_or_zero : Scan ℕ → ℕ
option_or_zero (found c) = c
option_or_zero _ = 0

-- The directory entry that `CreateFile` writes at `off`.
unfoldable pub put_entry : ℕ → Array ℕ → Array ℕ → ℕ → ℕ → Array ℕ → Array ℕ
put_entry off name ext cluster len b = λ i.
    if ltb i off || leb (off + 32) i
    then b i
    else (let j = i - off in
        if ltb j 8
        then name j
        else if ltb j 11
        then ext (j - 8)
        else if ltb j 26
        then 0
        else if j == 26
        then cluster % 256
        else if j == 27
        then cluster / 2 ^ 8 % 256
        else if j == 28
        then len % 256
        else if j == 29
        then len / 2 ^ 8 % 256
        else if j == 30
        then len / 2 ^ 16 % 256
        else len / 2 ^ 24 % 256)

-- The sector of data: `dataLen` bytes, then zeros.
unfoldable pub padded : Array ℕ → ℕ → Array ℕ
padded bytes len = λ i. if ltb i 512 then (if ltb i len then bytes i else 0) else 0

-- `clusterToSector`, with a cluster of 16 bits.
unfoldable pub cluster_to_sector : {D : Type 0} → ℕ → Fat D → ℕ
cluster_to_sector cluster f =
    (f.layout.data_start + (cluster + 65534) % 2 ^ 16 * f.layout.sec_per_clust) % 2 ^ 32

module _ {D : Type 0} (A : BlockDevice D) where
  -- `findFreeCluster`
  unfoldable pub find_free_cluster : Fat D → Fat D × ℕ
  find_free_cluster f =
      let (g, scan) =
        each_sector A (λ sec b. free_cluster_in sec b 256 0) f.layout.fat_start f.layout.fat_sz16 0
          f in
      (g, option_or_zero scan)

  -- `setFATEntry`: the second copy's sector is written whether or not there is a second FAT.
  unfoldable pub set_fat_entry : ℕ → ℕ → Fat D → Fat D × Bool
  set_fat_entry cluster value f =
      let sec = cluster * 2 / 512 in
      let off = cluster * 2 % 512 in
      let (g, got) = read_sector A (f.layout.fat_start + sec) f in
      let h = record g {
        fat_buf = update (update g.fat_buf off (value % 256)) (off + 1) (value / 2 ^ 8 % 256);
      } in
      let (k, done) = write_sector A (f.layout.fat_start + sec) h in
      let (m, _) = write_sector A (f.layout.fat_start + f.layout.fat_sz16 + sec) k in
      if not got then (g, false) else if not done then (k, false) else (m, true)

  -- The end of `CreateFile`, from the free entry on.
  unfoldable pub write_file : Array ℕ → Array ℕ → Array ℕ → ℕ → ℕ → ℕ × ℕ → Fat D → Fat D × Bool
  write_file name ext bytes len cluster (sec, off) f =
      let (g, got) = read_sector A (f.layout.root_start + sec) f in
      let (h, entered) =
        write_sector A (f.layout.root_start + sec)
          (record g { fat_buf = put_entry off name ext cluster len g.fat_buf }) in
      let (k, stored) =
        write_sector A (cluster_to_sector cluster f) (record h { fat_buf = padded bytes len }) in
      if not got then (g, false) else if not entered then (h, false) else (k, stored)

  -- `CreateFile`, from the free cluster on.
  unfoldable pub create_at : Array ℕ → Array ℕ → Array ℕ → ℕ → ℕ → Fat D → Fat D × Bool
  create_at name ext bytes len cluster f =
      let (g, marked) = set_fat_entry cluster 0xFFFF f in
      let (h, scan) =
        each_sector A (λ sec b. each_entry (free_step sec b) 16 0) f.layout.root_start
          f.layout.root_sectors 0 g in
      if not marked then (print fat_write_error g, false) else elim scan [
        | read_failed ↦ (h, false)
        | used_up ↦ (print directory_full h, false)
        | found place ↦ write_file name ext bytes len cluster place h
      ]

  -- `CreateFile` on a filesystem that is started.
  unfoldable pub create_started : Array ℕ → Array ℕ → Array ℕ → ℕ → Fat D → Fat D × Bool
  create_started name ext bytes len f =
      let (g, scan) =
        each_sector A (λ sec b. each_entry (duplicate_step name ext b) 16 0) f.layout.root_start
          f.layout.root_sectors 0 f in
      let (h, cluster) = find_free_cluster g in
      elim scan [
        | read_failed ↦ (g, false)
        | found _ ↦ (print file_exists g, false)
        | used_up ↦
            if cluster == 0
            then (print no_free_clusters h, false)
            else create_at name ext bytes len cluster h
      ]

  -- `CreateFile`
  unfoldable pub create_file : Array ℕ → Array ℕ → Array ℕ → ℕ → Fat D → Fat D × Bool
  create_file name ext bytes len f =
      if not f.initialized
      then (print not_initialized f, false)
      else create_started name ext bytes len f

  -- `ReadFile` on a filesystem that is started: the size and the sector of data, or nothing.
  unfoldable pub read_started : Array ℕ → Array ℕ → Fat D → Fat D × Option (ℕ × Array ℕ)
  read_started name ext f =
      let (g, scan) =
        each_sector A (λ sec b. each_entry (read_step name ext b) 16 0) f.layout.root_start
          f.layout.root_sectors 0 f in
      elim scan [
        | read_failed ↦ (g, none)
        | used_up ↦ (g, none)
        | found none ↦ (g, none)
        | found (some (cluster, size)) ↦
            let (d, got) = A.read (cluster_to_sector cluster g) g.disk in
            elim got [
              | none ↦ (record g { disk = d }, none)
              | some b ↦ (record g { disk = d }, some (size, b))
            ]
      ]

  -- `ReadFile`
  unfoldable pub read_file : Array ℕ → Array ℕ → Fat D → Fat D × Option (ℕ × Array ℕ)
  read_file name ext f = if not f.initialized then (f, none) else read_started name ext f
