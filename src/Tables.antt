-- ===== src/Tables.antt =====
-- kernel/tss/tss.go, kernel/gdt/gdt.go, kernel/idt.go and drivers/ata/ata.go: the values that the
-- processor's tables and the disk's registers take.
pub mod Words
mod Examples
use go_dav_os.Base.{ℕ, ◌+◌, ◌*◌, ◌/◌, ◌%◌, ◌^◌, Array, update}

-- `byte(value >> n)`, of a number that is not negative.
abbrev pub byte_at : ℕ → ℕ → ℕ
byte_at value n = value / 2 ^ n % 256

unfoldable pub put16 : Array ℕ → ℕ → ℕ → Array ℕ
put16 dst off value = update (update dst off (byte_at value 0)) (off + 1) (byte_at value 8)

unfoldable pub put64 : Array ℕ → ℕ → ℕ → Array ℕ
put64 dst off value =
    let a = update (update dst off (byte_at value 0)) (off + 1) (byte_at value 8) in
    let b = update (update a (off + 2) (byte_at value 16)) (off + 3) (byte_at value 24) in
    let c = update (update b (off + 4) (byte_at value 32)) (off + 5) (byte_at value 40) in
    update (update c (off + 6) (byte_at value 48)) (off + 7) (byte_at value 56)

abbrev pub tss_rsp0_offset : ℕ
tss_rsp0_offset = 4

abbrev pub tss_iomap_base_offset : ℕ
tss_iomap_base_offset = 102

-- `SetRSP0`
unfoldable pub set_rsp0 : Array ℕ → ℕ → Array ℕ
set_rsp0 tss rsp0 = put64 tss tss_rsp0_offset rsp0

-- `SetIomapBase`
unfoldable pub set_iomap_base : Array ℕ → ℕ → Array ℕ
set_iomap_base tss iomap_base = put16 tss tss_iomap_base_offset iomap_base

-- `EncodeTSSDescriptor`: the low and the high word. The fields lie apart, so that a sum is their `|`.
unfoldable pub encode_tss_descriptor : ℕ → ℕ → ℕ × ℕ
encode_tss_descriptor base limit = (
  limit % 2 ^ 16
      + base % 2 ^ 24 * 2 ^ 16
      + 0x89 * 2 ^ 40
      + limit / 2 ^ 16 % 16 * 2 ^ 48
      + base / 2 ^ 24 % 2 ^ 8 * 2 ^ 56,
  base / 2 ^ 32,
)

-- `PackGDTR`
unfoldable pub pack_gdtr : ℕ → ℕ → Array ℕ → Array ℕ
pack_gdtr limit base out =
    let a = update (update out 0 (byte_at limit 0)) 1 (byte_at limit 8) in
    let b = update (update a 2 (byte_at base 0)) 3 (byte_at base 8) in
    let c = update (update b 4 (byte_at base 16)) 5 (byte_at base 24) in
    let d = update (update c 6 (byte_at base 32)) 7 (byte_at base 40) in
    update (update d 8 (byte_at base 48)) 9 (byte_at base 56)

-- `packIDTR`, whose body is that of `PackGDTR`.
unfoldable pub pack_idtr : ℕ → ℕ → Array ℕ → Array ℕ
pack_idtr limit base out = pack_gdtr limit base out

-- `idtEntry`
pub record IdtEntry : Type 0 where
  pub offset_low : ℕ
  pub selector : ℕ
  pub ist : ℕ
  pub flags : ℕ
  pub offset_mid : ℕ
  pub offset_high : ℕ
  pub zero : ℕ

-- `setIDTEntry`
unfoldable pub set_idt_entry : ℕ → ℕ → ℕ → ℕ → Array IdtEntry → Array IdtEntry
set_idt_entry vec handler selector flags idt = update idt vec (record {
  offset_low = handler % 2 ^ 16;
  selector = selector;
  ist = 0;
  flags = flags;
  offset_mid = handler / 2 ^ 16 % 2 ^ 16;
  offset_high = handler / 2 ^ 32 % 2 ^ 32;
  zero = 0;
})

-- `LBARegs`
pub record LbaRegs : Type 0 where
  pub drive_head : ℕ
  pub lba_lo : ℕ
  pub lba_mid : ℕ
  pub lba_hi : ℕ

-- `LBA28ToRegs`
unfoldable pub lba28_to_regs : ℕ → LbaRegs
lba28_to_regs lba = record {
  drive_head = 0xE0 + lba / 2 ^ 24 % 16;
  lba_lo = byte_at lba 0;
  lba_mid = byte_at lba 8;
  lba_hi = byte_at lba 16;
}
