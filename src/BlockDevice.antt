-- ===== src/BlockDevice.antt =====
-- The interface between the FAT16 filesystem and the disk driver: what fs/fat16/fat16.go takes from
-- drivers/ata, and the laws that it relies on. A sector is an array of which 512 places count; the
-- driver addresses 28 bits.
use go_dav_os.Base.{ℕ, ◌^◌, ◌<◌, ◌≡◌, ◌≢◌, Bool, true, Option, some, Array}

pub record BlockDevice (D : Type 0) : Type 1 where
  -- `ReadSector`, which gives the sector, or nothing, and `WriteSector`.
  pub read : ℕ → D → D × Option (Array ℕ)
  pub write : ℕ → Array ℕ → D → D × Bool
  -- What is on the disk.
  pub sector : D → ℕ → Array ℕ
  pub read_keeps : (s : ℕ) (d : D) → sector (read s d).0 ≡ sector d
  pub read_gives :
      (s : ℕ) (d : D) (b : Array ℕ) → s < 2 ^ 28 → (read s d).1 ≡ some b → b ≡ sector d s
  -- A write that fails may have changed its sector, and no other.
  pub write_other :
      (s : ℕ) (b : Array ℕ) (d : D) (k : ℕ)
      → s < 2 ^ 28
      → k < 2 ^ 28
      → k ≢ s
      → sector (write s b d).0 k ≡ sector d k
  pub write_done :
      (s : ℕ) (b : Array ℕ) (d : D)
      → s < 2 ^ 28
      → (write s b d).1 ≡ true
      → sector (write s b d).0 s ≡ b
