-- ===== src/Fat16/Start.antt =====
-- fs/fat16/fat16.go: what `Init` takes from the boot sector.
use native.Mathlib.Nat.{mul-le-mul_left, mul-le-mul_right}
use go_dav_os.Base.{
  ℕ, ◌+◌, ◌*◌, ◌%◌, ◌^◌, ◌<◌, ◌≤◌, ◌≡◌, refl, Bool, true, false, not, ◌&&◌, ◌||◌, List, [], ◌∷◌,
  Array, update, ltb, ◌==◌, arith, Bool-cases, inl, inr,
}
use go_dav_os.BlockDevice.{BlockDevice}
use go_dav_os.Fat16.{
  Fat, Layout, read_sector, word16, boot_numbers, offsets, boot_fields, put_fields, zeros, init,
}
use go_dav_os.Fat16.Files.Scans.{read_sector-Same, read_sector-got}
use go_dav_os.Fat16.Files.Cluster.{IsMounted}

-- The numbers of a boot sector of bytes that has two FATs, of 256 sectors at most each.
pub record IsBoot (b : Array ℕ) : Type 0 where
  pub bytes : (i : ℕ) → b i < 256
  pub two_fats : 2 ≤ b 16
  pub fat_small : word16 b 22 ≤ 256

offsets-IsMounted :
    {D : Type 0} (b : Array ℕ) (l : Layout) (f : Fat D)
    → IsBoot b
    → f.initialized ≡ true
    → f.layout ≡ offsets (boot_numbers b l)
    → IsMounted f
unfolding offsets boot_numbers
offsets-IsMounted b l f v started e =
    let per_fat : 2 * word16 b 22 ≤ b 16 * word16 b 22 =
      mul-le-mul_right (word16 b 22) v.two_fats in
    let few : b 16 ≤ 255 = omega (arith, v.bytes 16) in
    let most : b 16 * word16 b 22 ≤ 255 * 256 =
      omega (arith, mul-le-mul_right (word16 b 22) few, mul-le-mul_left 255 v.fat_small) in
    let p = b 16 * word16 b 22 in
    let root : (word16 b 14 + p) % 2 ^ 32 ≡ word16 b 14 + p =
      omega (arith, most, v.bytes 14, v.bytes 15) in
    record {
      started = started;
      two_fats = rw (e, root) (omega (arith, per_fat));
      fat_small = rw e v.fat_small;
      root_low = rw (e, root) (omega (arith, most, v.bytes 14, v.bytes 15));
      root_small = rw e (omega (arith, v.bytes 17, v.bytes 18));
      data_place =
          rw (e, root) (omega (arith, most, v.bytes 14, v.bytes 15, v.bytes 17, v.bytes 18));
      cluster_small = rw e (v.bytes 13);
    }

pub boot_signed :
    (not (put_fields boot_fields zeros 510 == 0x55)
      || not (put_fields boot_fields zeros 511 == 0xAA))
    ≡ false
unfolding boot_fields put_fields
boot_signed = refl

pub boot_sized :
    (l : Layout)
    → not ((boot_numbers (put_fields boot_fields zeros) l).bytes_per_sec == 512) ≡ false
unfolding boot_fields put_fields boot_numbers
boot_sized l = refl

small_values : List (ℕ × ℕ) → Bool
small_values [] = true
small_values ((i, v) ∷ rest) = ltb v 256 && small_values rest

put_fields_bytes :
    (fields : List (ℕ × ℕ)) (b : Array ℕ)
    → small_values fields ≡ true
    → ((i : ℕ) → b i < 256)
    → (i : ℕ) → put_fields fields b i < 256
unfolding put_fields small_values
put_fields_bytes [] b small bytes = bytes
put_fields_bytes ((j, v) ∷ rest) b small bytes =
    put_fields_bytes rest (update b j v) (ground (arith, small)) (λ k. elim (Bool-cases (k == j)) [
      | inl same ↦ rw same (ground (arith, small))
      | inr other ↦ rw other (bytes k)
    ])

pub format_sector-IsBoot : IsBoot (put_fields boot_fields zeros)
unfolding boot_fields put_fields small_values
format_sector-IsBoot = record {
  bytes = put_fields_bytes boot_fields zeros refl (λ i. omega arith);
  two_fats = omega arith;
  fat_small = omega arith;
}

module _ {D : Type 0} (A : BlockDevice D) where
  -- When `Init` succeeds on a boot sector of bytes with two FATs or more, of at most 256 sectors each, the
  -- filesystem is mounted: the FATs, the root directory and the data are apart and the driver can address
  -- them. The disk is unchanged.
  pub init-IsMounted :
      (f : Fat D)
      → IsBoot (A.sector f.disk 0)
      → (init A f).1 ≡ true
      → IsMounted (init A f).0 × (A.sector (init A f).0.disk ≡ A.sector f.disk)
  unfolding init
  init-IsMounted f v done =
      let b = A.sector f.disk 0 in
      let g = (read_sector A 0 f).0 in
      let same = read_sector-Same A 0 f in
      elim (Bool-cases (read_sector A 0 f).1) [
        | inr fails ↦ cc (rw (fails, init) at done)
        | inl got ↦
            let buf = read_sector-got A 0 f (omega arith) got in
            elim (Bool-cases (not (g.fat_buf 510 == 0x55) || not (g.fat_buf 511 == 0xAA))) [
              | inl bad ↦ cc (rw (got, bad, init) at done)
              | inr signed ↦
                  elim (Bool-cases (not ((boot_numbers g.fat_buf g.layout).bytes_per_sec == 512))) [
                    | inl bad ↦ cc (rw (got, signed, bad, init) at done)
                    | inr sized ↦
                        rw (got, signed, sized, init)
                          (
                            offsets-IsMounted g.fat_buf g.layout
                                (record g {
                                  layout = offsets (boot_numbers g.fat_buf g.layout);
                                  initialized = true;
                                })
                                (rw buf v) refl refl,
                            same.sectors,
                          )
                  ]
            ]
      ]
