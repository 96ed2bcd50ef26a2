-- ===== src/Tables/Words.antt =====
-- kernel/idt.go, kernel/tss/tss.go and drivers/ata/ata.go: the fields of a table say what was put in.
use go_dav_os.Base.{ℕ, ◌+◌, ◌-◌, ◌*◌, ◌/◌, ◌%◌, ◌^◌, ◌<◌, ◌≡◌, arith, Array}
use go_dav_os.Tables.{IdtEntry, set_idt_entry, lba28_to_regs, encode_tss_descriptor}

-- What the processor reads as a gate's handler.
abbrev pub handler_of : IdtEntry → ℕ
handler_of e = e.offset_low + e.offset_mid * 2 ^ 16 + e.offset_high * 2 ^ 32

-- What the processor reads as a task segment's address: bits 16 to 39 and 56 to 63 of the low word,
-- and the high word.
abbrev pub base_of : ℕ × ℕ → ℕ
base_of d = d.0 / 2 ^ 16 % 2 ^ 24 + d.0 / 2 ^ 56 % 2 ^ 8 * 2 ^ 24 + d.1 * 2 ^ 32

-- The three parts of a gate's address are the address of its handler.
pub set_idt_entry-handler_of :
    (vec handler selector flags : ℕ) (idt : Array IdtEntry)
    → handler < 2 ^ 64
    → handler_of (set_idt_entry vec handler selector flags idt vec) ≡ handler
unfolding set_idt_entry
set_idt_entry-handler_of vec handler selector flags idt h = ground arith

-- The registers of a sector's number of 28 bits give the number back.
pub lba28_to_regs-lba :
    (lba : ℕ)
    → lba < 2 ^ 28
    → let r = lba28_to_regs lba in
      r.lba_lo + r.lba_mid * 2 ^ 8 + r.lba_hi * 2 ^ 16 + (r.drive_head - 0xE0) * 2 ^ 24 ≡ lba
unfolding lba28_to_regs
lba28_to_regs-lba lba h = omega (arith, h)

-- The descriptor of a task segment holds its address, of 64 bits.
pub encode_tss_descriptor-base_of :
    (base limit : ℕ)
    → base < 2 ^ 64
    → limit < 2 ^ 32
    → base_of (encode_tss_descriptor base limit) ≡ base
unfolding encode_tss_descriptor
encode_tss_descriptor-base_of base limit h k = omega (arith, h, k)
