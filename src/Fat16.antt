-- ===== src/Fat16.antt =====
-- fs/fat16/fat16.go: the state of the FAT16 filesystem, its start and its formatting.
pub mod Directory
pub mod Files
pub mod Start
pub mod Formatting
mod Examples
use go_dav_os.Base.{
  ℕ, zero, suc, ◌+◌, ◌-◌, ◌*◌, ◌/◌, ◌%◌, ◌^◌, Bool, true, false, not, ◌&&◌, ◌||◌, Option, none,
  some, List, [], ◌∷◌, ◌++◌, Array, update, ltb, leb, ◌==◌, if◌then◌else◌,
}
use go_dav_os.BlockDevice.{BlockDevice}

abbrev pub dir_entry_size : ℕ
dir_entry_size = 32

-- What is printed: a message of the source, or a single character.
pub data Message : Type 0 where
  read_error invalid_signature bad_sector_size not_initialized listing_read_error file_exists
        no_free_clusters fat_write_error directory_full root_directory indent gap bytes_word :
      Message
  layout_title reserved_label fat_label root_label data_label line_end : Message
  rune : ℕ → Message

-- The variables that `Init` reads from the boot sector, and the offsets that it computes.
pub record Layout : Type 0 where
  pub bytes_per_sec : ℕ
  pub sec_per_clust : ℕ
  pub reserved_sec : ℕ
  pub num_fats : ℕ
  pub root_ent_cnt : ℕ
  pub tot_sec16 : ℕ
  pub fat_sz16 : ℕ
  pub fat_start : ℕ
  pub root_start : ℕ
  pub data_start : ℕ
  pub root_sectors : ℕ

-- The package's variables, the disk and what has been printed.
pub record Fat (D : Type 0) : Type 0 where
  pub layout : Layout
  pub initialized : Bool
  pub fat_buf : Array ℕ
  pub disk : D
  pub output : List Message

-- `b[i] | b[i+1] << 8`, of bytes.
abbrev pub word16 : Array ℕ → ℕ → ℕ
word16 b i = b i + b (i + 1) * 2 ^ 8

abbrev pub word32 : Array ℕ → ℕ → ℕ
word32 b i = b i + b (i + 1) * 2 ^ 8 + b (i + 2) * 2 ^ 16 + b (i + 3) * 2 ^ 24

-- The numbers of the boot sector `b`, over the offsets of `l`.
unfoldable pub boot_numbers : Array ℕ → Layout → Layout
boot_numbers b l = record l {
  bytes_per_sec = word16 b 11;
  sec_per_clust = b 13;
  reserved_sec = word16 b 14;
  num_fats = b 16;
  root_ent_cnt = word16 b 17;
  tot_sec16 = word16 b 19;
  fat_sz16 = word16 b 22;
}

-- The offsets that follow from the numbers.
unfoldable pub offsets : Layout → Layout
offsets l =
    let root = (l.reserved_sec + l.num_fats * l.fat_sz16) % 2 ^ 32 in
    let sectors = (l.root_ent_cnt * 32 + 511) / 512 in
    record l {
      fat_start = l.reserved_sec;
      root_start = root;
      root_sectors = sectors;
      data_start = (root + sectors) % 2 ^ 32;
    }

-- The places that `Format` sets in a sector of zeros, with their values.
unfoldable pub boot_fields : List (ℕ × ℕ)
boot_fields =
    (0, 0xEB)
    ∷ (1, 0x3C)
    ∷ (2, 0x90)
    ∷ (3, b'M')
    ∷ (4, b'S')
    ∷ (5, b'W')
    ∷ (6, b'I')
    ∷ (7, b'N')
    ∷ (8, b'4')
    ∷ (9, b'.')
    ∷ (10, b'1')
    ∷ (11, 0x00)
    ∷ (12, 0x02)
    ∷ (13, 1)
    ∷ (14, 1)
    ∷ (15, 0)
    ∷ (16, 2)
    ∷ (17, 0x00)
    ∷ (18, 0x02)
    ∷ (19, 0x00)
    ∷ (20, 0xA0)
    ∷ (21, 0xF8)
    ∷ (22, 160)
    ∷ (23, 0)
    ∷ (510, 0x55)
    ∷ (511, 0xAA)
    ∷ []

unfoldable pub put_fields : List (ℕ × ℕ) → Array ℕ → Array ℕ
put_fields [] b = b
put_fields ((i, v) ∷ rest) b = put_fields rest (update b i v)

abbrev pub zeros : Array ℕ
zeros i = 0

abbrev pub print : {D : Type 0} → Message → Fat D → Fat D
print m f = record f { output = f.output ++ m ∷ [] }

module _ {D : Type 0} (A : BlockDevice D) where
  -- `ata.ReadSector(s, &fatBuf)`, which leaves the buffer when it fails.
  unfoldable pub read_sector : ℕ → Fat D → Fat D × Bool
  read_sector s f =
      let (d, got) = A.read s f.disk in
      elim got [
        | none ↦ (record f { disk = d }, false)
        | some b ↦ (record f { disk = d; fat_buf = b }, true)
      ]

  -- `ata.WriteSector(s, &fatBuf)`
  unfoldable pub write_sector : ℕ → Fat D → Fat D × Bool
  write_sector s f = let (d, done) = A.write s f.fat_buf f.disk in (record f { disk = d }, done)

  -- `Init`
  unfoldable pub init : Fat D → Fat D × Bool
  init f =
      let (g, got) = read_sector 0 f in
      let b = g.fat_buf in
      let h = record g { layout = boot_numbers b g.layout } in
      if not got
      then (print read_error g, false)
      else if not (b 510 == 0x55) || not (b 511 == 0xAA)
      then (record (print invalid_signature g) { initialized = false }, false)
      else if not (h.layout.bytes_per_sec == 512)
      then (print bad_sector_size h, false)
      else (record h { layout = offsets h.layout; initialized = true }, true)

  -- `for sec := 0; sec < n; sec++`: the buffer goes to the sectors from `base + sec` on.
  unfoldable pub write_sectors : ℕ → ℕ → ℕ → Fat D → Fat D × Bool
  write_sectors base zero sec f = (f, true)
  write_sectors base (suc n) sec f =
      let (g, done) = write_sector (base + sec) f in
      elim done [ true ↦ write_sectors base n (sec + 1) g | false ↦ (g, false) ]

  -- `Format`: the boot sector, both FATs, the root directory.
  unfoldable pub format : Fat D → Fat D × Bool
  format f =
      let (f1, done1) = write_sector 0 (record f { fat_buf = put_fields boot_fields zeros }) in
      let (f2, done2) = write_sectors 1 160 0 (record f1 { fat_buf = zeros }) in
      let (f3, done3) = write_sectors 161 160 0 f2 in
      let (f4, done4) = write_sectors 321 32 0 f3 in
      if not done1
      then (f1, false)
      else if not done2
      then (f2, false)
      else if not done3
      then (f3, false)
      else if not done4
      then (f4, false)
      else (f4, true)

-- `printU32`: eight hexadecimal digits.
unfoldable pub hex_digit : ℕ → ℕ
hex_digit d = if ltb d 10 then d + 48 else d + 55

unfoldable pub hex_digits : ℕ → ℕ → List Message
hex_digits v zero = []
hex_digits v (suc k) = rune (hex_digit (v / 16 ^ k % 16)) ∷ hex_digits v k

unfoldable pub u32_text : ℕ → List Message
u32_text v = rune b'0' ∷ rune b'x' ∷ hex_digits v 8

-- `Info`
unfoldable pub info : {D : Type 0} → Fat D → Fat D
info f =
    let l = f.layout in
    if not f.initialized then print not_initialized f else record f {
      output =
          f.output
          ++ layout_title
            ∷ reserved_label
            ∷ (u32_text l.reserved_sec
                ++ fat_label
                  ∷ (u32_text l.fat_start
                      ++ root_label
                        ∷ (u32_text l.root_start
                            ++ data_label ∷ (u32_text l.data_start ++ line_end ∷ []))));
    }
