-- ===== src/Fat16/Examples.antt =====
-- fs/fat16/fat16.go: runs of the filesystem on a disk that never fails.
use go_dav_os.Base.{
  ℕ, ◌+◌, ◌*◌, ◌≡◌, ◌<◌, refl, true, false, some, [], Array, update, ◌==◌, if◌then◌else◌, inl,
  arith,
}
use go_dav_os.BlockDevice.{BlockDevice}
use go_dav_os.Fat16.{Fat, zeros, init, format, boot_fields, put_fields, write_sectors, write_sector}
use go_dav_os.Fat16.Directory.{each_entry}
use go_dav_os.Fat16.Files.{duplicate_step, create_file, read_file, padded, set_fat_entry}
use go_dav_os.Fat16.Files.Scans.{Silent}
use go_dav_os.Fat16.Files.Cluster.{
  IsMounted, IsFreeCluster, SameFiles, fat_word, set_fat_entry_done,
}
use go_dav_os.Fat16.Files.Result.{IsNewFile, create_file-IsNewFile}
use go_dav_os.Fat16.Files.RoundTrip.{HasNoLabel, read_file-create_file}
use go_dav_os.Fat16.Files.Succeeds.{create_file-succeeds, set_fat_entry-succeeds}
use go_dav_os.Fat16.Formatting.{init_boot, init-format}

abbrev Disk : Type 0
Disk = ℕ → Array ℕ

abbrev ideal_disk : BlockDevice Disk
ideal_disk = record {
  read = λ s d. (d, some (d s));
  write = λ s b d. (update d s b, true);
  sector = λ d. d;
  read_keeps = λ s d. refl;
  read_gives = λ s d b lt e. cc;
  write_other = λ s b d k ls lk ne. ground (arith, ne);
  write_done = λ s b d lt e. ground arith;
}

-- A filesystem of one sector per FAT and one of root directory.
abbrev small : Fat Disk
small = record {
  layout = record {
    bytes_per_sec = 512;
    sec_per_clust = 1;
    reserved_sec = 1;
    num_fats = 2;
    root_ent_cnt = 16;
    tot_sec16 = 260;
    fat_sz16 = 1;
    fat_start = 1;
    root_start = 3;
    data_start = 4;
    root_sectors = 1;
  };
  initialized = true;
  fat_buf = zeros;
  disk = λ s. zeros;
  output = [];
}

small-IsMounted : IsMounted small
small-IsMounted = record {
  started = refl;
  two_fats = omega arith;
  fat_small = omega arith;
  root_low = omega arith;
  root_small = omega arith;
  data_place = refl;
  cluster_small = omega arith;
}

-- The name `AAAAAAAA.BBB`, and the text of the file.
abbrev name : Array ℕ
name i = 65

abbrev ext : Array ℕ
ext i = 66

abbrev text : Array ℕ
text i = i + 97

cluster_two : IsFreeCluster ideal_disk small 2
cluster_two = record { low = omega arith; inside = omega arith; free = refl }

fresh :
    Silent ideal_disk
      (λ _ b. each_entry (duplicate_step name ext b) 16 0)
      small.layout.root_start
      small
      0
      small.layout.root_sectors
unfolding each_entry duplicate_step
fresh = λ j lo hi. refl

created : (create_file ideal_disk name ext text 3 small).1 ≡ true
created =
    create_file-succeeds ideal_disk name ext text 3 (λ s d lt. (d s, refl)) (λ s b d lt. refl)
      small-IsMounted fresh 2 cluster_two 0 0 (omega arith, omega arith, inl refl)

create_file-IsNewFile_example :
    IsNewFile ideal_disk name ext text 3 small (create_file ideal_disk name ext text 3 small).0
create_file-IsNewFile_example =
    create_file-IsNewFile ideal_disk name ext text 3 small-IsMounted (omega arith) created

no_label : HasNoLabel ideal_disk name ext small
no_label = λ k j lk lj e. cc

read_file-create_file_example :
    (read_file ideal_disk name ext (create_file ideal_disk name ext text 3 small).0).1
    ≡ some (3, padded text 3)
read_file-create_file_example =
    read_file-create_file ideal_disk name ext text 3 (λ s d lt. (d s, refl)) small-IsMounted
      (omega arith) (omega arith) (omega arith) no_label created

set_fat_entry_done_example :
    SameFiles ideal_disk small (set_fat_entry ideal_disk 2 0xFFFF small).0
    × ((d : ℕ)
        → d < 256
        → fat_word ideal_disk 1 (set_fat_entry ideal_disk 2 0xFFFF small).0.disk d
          ≡ (if d == 2 then 0xFFFF else fat_word ideal_disk 1 small.disk d))
set_fat_entry_done_example =
    set_fat_entry_done ideal_disk 2 0xFFFF small-IsMounted (omega arith) (omega arith) (
      set_fat_entry-succeeds ideal_disk 2 0xFFFF (λ s d lt. (d s, refl)) (λ s b d lt. refl)
        small-IsMounted (omega arith))

-- A disk that holds the boot sector of `Format`, before `Init`.
abbrev raw : Fat Disk
raw = record small { initialized = false; disk = λ s. put_fields boot_fields zeros }

raw_starts : (init ideal_disk raw).1 ≡ true
raw_starts = (init_boot ideal_disk raw (λ s d lt. (d s, refl)) refl).0

formatted : (format ideal_disk small).1 ≡ true
unfolding format write_sectors write_sector
formatted = refl

init-format_example :
    let g = (init ideal_disk (format ideal_disk small).0).0 in
    ((init ideal_disk (format ideal_disk small).0).1 ≡ true)
    × IsMounted g
    × (g.layout.fat_start ≡ 1)
    × (g.layout.root_start ≡ 321)
    × (g.layout.root_sectors ≡ 32)
    × (g.layout.data_start ≡ 353)
    × (g.layout.fat_sz16 ≡ 160)
    × ((c : ℕ) → c < 160 * 256 → fat_word ideal_disk 1 g.disk c ≡ 0)
    × ((k j : ℕ) → k < 32 → j < 16 → g.disk (321 + k) (j * 32) ≡ 0)
init-format_example = init-format ideal_disk small (λ s d lt. (d s, refl)) formatted
