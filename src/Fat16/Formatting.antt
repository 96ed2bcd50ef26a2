-- ===== src/Fat16/Formatting.antt =====
-- fs/fat16/fat16.go: the disk after `Format`, and `Init` on it.
use go_dav_os.Base.{
  ℕ, zero, suc, ◌+◌, ◌*◌, ◌/◌, ◌^◌, ◌<◌, ◌≤◌, ◌≡◌, refl, ap, ◌∙◌, true, false, not, ◌||◌, ltb, ◌==◌,
  ==_iff, arith, Bool-cases, inl, inr,
}
use go_dav_os.BlockDevice.{BlockDevice}
use go_dav_os.Fat16.{
  Fat, Layout, read_sector, write_sector, write_sectors, boot_numbers, offsets, boot_fields,
  put_fields, zeros, init, format,
}
use go_dav_os.Fat16.Files.Scans.{Reads, read_sector-Same, read_sector-got, read_sector-Reads}
use go_dav_os.Fat16.Files.Cluster.{IsMounted, fat_word, write_sector-other, write_sector-done}
use go_dav_os.Fat16.Start.{boot_signed, boot_sized, format_sector-IsBoot, init-IsMounted}

module _ {D : Type 0} (A : BlockDevice D) where
  -- `write_sectors` that succeeds has put the buffer in its sectors, and in no other.
  pub record Filled (base sec last : ℕ) (f g : Fat D) : Type 0 where
    pub layout : g.layout ≡ f.layout
    pub buffer : g.fat_buf ≡ f.fat_buf
    pub inside : (k : ℕ) → base + sec ≤ k → k < base + last → A.sector g.disk k ≡ f.fat_buf
    pub below : (k : ℕ) → k < base + sec → A.sector g.disk k ≡ A.sector f.disk k
    pub above : (k : ℕ) → base + last ≤ k → k < 2 ^ 28 → A.sector g.disk k ≡ A.sector f.disk k

  Filled-later :
      (base sec last : ℕ) (f g : Fat D)
      → base + last ≤ 2 ^ 28
      → sec < last
      → (write_sector A (base + sec) f).1 ≡ true
      → Filled base (sec + 1) last (write_sector A (base + sec) f).0 g
      → Filled base sec last f g
  unfolding write_sector
  Filled-later base sec last f g fits lt put later = record {
    layout = later.layout;
    buffer = later.buffer;
    inside = λ k lo hi. elim (Bool-cases (k == base + sec)) [
      | inl same ↦
          let at_k = (==_iff k (base + sec)).0 same in
          later.below k (ground (arith, same))
          ∙ rw at_k (write_sector-done A (base + sec) f (omega arith) put)
      | inr ne ↦ later.inside k (ground (arith, ne, lo)) hi
    ];
    below = λ k lo.
        later.below k (omega (arith, lo))
        ∙ write_sector-other A (base + sec) k f (omega arith) (omega arith) (omega (arith, lo));
    above = λ k lo hi.
        later.above k lo hi
        ∙ write_sector-other A (base + sec) k f (omega arith) hi (omega (arith, lo));
  }

  write_sectors-Filled :
      (base n sec last : ℕ) (f : Fat D)
      → sec + n ≡ last
      → base + last ≤ 2 ^ 28
      → (write_sectors A base n sec f).1 ≡ true
      → Filled base sec last f (write_sectors A base n sec f).0
  unfolding write_sectors
  write_sectors-Filled base zero sec last f e fits done = record {
    layout = refl;
    buffer = refl;
    inside = λ k lo hi. absurd (omega (arith, lo, hi, e));
    below = λ k lo. refl;
    above = λ k lo hi. refl;
  }
  write_sectors-Filled base (suc n) sec last f e fits done =
      let g = (write_sector A (base + sec) f).0 in
      elim (Bool-cases (write_sector A (base + sec) f).1) [
        | inr fails ↦ cc (rw (fails, write_sectors) at done)
        | inl put ↦
            rw (put, write_sectors)
              (Filled-later base sec last f (write_sectors A base n (sec + 1) g).0 fits
                (omega arith) put
                (write_sectors-Filled base n (sec + 1) last g (omega (arith, e)) fits
                  (rw (put, write_sectors) at done)))
      ]

  -- What `Format` leaves: its boot sector, FATs without a used cluster, and a root directory of free
  -- entries.
  pub record IsFormatted (f : Fat D) : Type 0 where
    pub boot : A.sector f.disk 0 ≡ put_fields boot_fields zeros
    pub cleared : (k : ℕ) → 1 ≤ k → k < 353 → A.sector f.disk k ≡ zeros

  IsFormatted-Filled :
      (f g h k : Fat D)
      → Filled 1 0 160 f g
      → Filled 161 0 160 g h
      → Filled 321 0 32 h k
      → A.sector f.disk 0 ≡ put_fields boot_fields zeros
      → f.fat_buf ≡ zeros
      → IsFormatted k
  IsFormatted-Filled f g h k v w x boot empty = record {
    boot = x.below 0 (omega arith) ∙ (w.below 0 (omega arith) ∙ (v.below 0 (omega arith) ∙ boot));
    cleared = λ s lo hi. elim (Bool-cases (ltb s 161)) [
      | inl lt ↦
          x.below s (ground (arith, lt))
          ∙ (w.below s (ground (arith, lt))
              ∙ (v.inside s (omega (arith, lo)) (ground (arith, lt)) ∙ empty))
      | inr past ↦ elim (Bool-cases (ltb s 321)) [
        | inl lt ↦
            x.below s (ground (arith, lt))
            ∙ (w.inside s (ground (arith, past)) (ground (arith, lt)) ∙ (v.buffer ∙ empty))
        | inr ge ↦
            x.inside s (ground (arith, ge)) (omega (arith, hi)) ∙ (w.buffer ∙ (v.buffer ∙ empty))
      ]
    ];
  }

  pub format-IsFormatted : (f : Fat D) → (format A f).1 ≡ true → IsFormatted (format A f).0
  unfolding format
  format-IsFormatted f done =
      let f0 = record f { fat_buf = put_fields boot_fields zeros } in
      let f1 = record (write_sector A 0 f0).0 { fat_buf = zeros } in
      let r2 = write_sectors A 1 160 0 f1 in
      let r3 = write_sectors A 161 160 0 r2.0 in
      let r4 = write_sectors A 321 32 0 r3.0 in
      elim (Bool-cases (write_sector A 0 f0).1) [
        | inr fails ↦ cc (rw (fails, format) at done)
        | inl put ↦ elim (Bool-cases r2.1) [
          | inr fails ↦ cc (rw (put, fails, format) at done)
          | inl two ↦ elim (Bool-cases r3.1) [
            | inr fails ↦ cc (rw (put, two, fails, format) at done)
            | inl three ↦ elim (Bool-cases r4.1) [
              | inr fails ↦ cc (rw (put, two, three, fails, format) at done)
              | inl four ↦
                  let v2 = write_sectors-Filled 1 160 0 160 f1 refl (omega arith) two in
                  let v3 = write_sectors-Filled 161 160 0 160 r2.0 refl (omega arith) three in
                  let v4 = write_sectors-Filled 321 32 0 32 r3.0 refl (omega arith) four in
                  rw (put, two, three, four, format)
                    (IsFormatted-Filled f1 r2.0 r3.0 r4.0 v2 v3 v4
                      (write_sector-done A 0 f0 (omega arith) put) refl)
            ]
          ]
        ]
      ]

  -- `Init` takes the numbers of the boot sector that `Format` writes.
  pub init_boot :
      (f : Fat D)
      → Reads A
      → A.sector f.disk 0 ≡ put_fields boot_fields zeros
      → ((init A f).1 ≡ true)
        × ((init A f).0.layout ≡ offsets (boot_numbers (put_fields boot_fields zeros) f.layout))
  unfolding init
  init_boot f reads boot =
      let got = read_sector-Reads A reads 0 f (omega arith) in
      let g = (read_sector A 0 f).0 in
      let same = read_sector-Same A 0 f in
      let buf : g.fat_buf ≡ put_fields boot_fields zeros =
        read_sector-got A 0 f (omega arith) got ∙ boot in
      let signed : (not (g.fat_buf 510 == 0x55) || not (g.fat_buf 511 == 0xAA)) ≡ false =
        rw buf boot_signed in
      let sized : (not ((boot_numbers g.fat_buf g.layout).bytes_per_sec == 512)) ≡ false =
        rw buf (boot_sized g.layout) in
      rw (got, signed, sized, init) (refl, rw (buf, same.layout) refl)

  -- `Init` on a disk that `Format` has written, when the reads succeed, succeeds: the FAT starts at
  -- sector 1, the root directory of 32 sectors at 321 and the data at 353; no cluster is in use, and every
  -- entry of the root directory is the end of the directory.
  pub init-format :
      (f : Fat D)
      → Reads A
      → (format A f).1 ≡ true
      → let g = (init A (format A f).0).0 in
        ((init A (format A f).0).1 ≡ true)
        × IsMounted g
        × (g.layout.fat_start ≡ 1)
        × (g.layout.root_start ≡ 321)
        × (g.layout.root_sectors ≡ 32)
        × (g.layout.data_start ≡ 353)
        × (g.layout.fat_sz16 ≡ 160)
        × ((c : ℕ) → c < 160 * 256 → fat_word A 1 g.disk c ≡ 0)
        × ((k j : ℕ) → k < 32 → j < 16 → A.sector g.disk (321 + k) (j * 32) ≡ 0)
  unfolding offsets boot_numbers put_fields boot_fields
  init-format f reads done =
      let v = format-IsFormatted f done in
      let h = (format A f).0 in
      let (got, layout) = init_boot h reads v.boot in
      let (m, same) = init-IsMounted A h (rw v.boot format_sector-IsBoot) got in
      (
        got,
        m,
        ap Layout.fat_start layout,
        ap Layout.root_start layout,
        ap Layout.root_sectors layout,
        ap Layout.data_start layout,
        ap Layout.fat_sz16 layout,
        λ c lt. rw (same, v.cleared (1 + c / 256) (omega arith) (omega (arith, lt))) refl,
        λ k j lk lj. rw (same, v.cleared (321 + k) (omega arith) (omega (arith, lk))) refl,
      )
