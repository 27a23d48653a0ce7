-- ===== src/Stream/Interface.antt =====
-- The disk driver as the streams use it, and what they rely on.
use icariusos.Base.{ℕ, ◌<◌, ◌≡◌, ◌/◌, ◌%◌, Bool, true, ◌==◌, if◌then◌else◌}
use icariusos.Libc.Blocks.{Bytes}

abbrev pub sector_size : ℕ
sector_size = 512

-- The sector buffer of `ata_t`, and the state of the drive.
pub record Ata (W : Type 0) : Type 0 where
  pub buffer : Bytes
  pub drive : W

-- `ata_read(dev, lba, 1)` and `ata_write(dev, lba, 1, dev->buffer)`; `true` is a result that is not
-- negative.
pub record Driver (W : Type 0) : Type 0 where
  pub ata_read : ℕ → Ata W → Bool × Ata W
  pub ata_write : ℕ → Ata W → Bool × Ata W

-- A drive that answers without an error: `sector` is what stands on the disk. A read brings the
-- sector into the buffer, a write takes the buffer to the sector.
pub record IsReliable {W : Type 0} (driver : Driver W) (sector : W → ℕ → Bytes) : Type 0 where
  pub read_done : (lba : ℕ) (dev : Ata W) → (driver.ata_read lba dev).0 ≡ true
  pub read_buffer :
      (lba : ℕ) (dev : Ata W) (i : ℕ)
      → i < sector_size
      → (driver.ata_read lba dev).1.buffer i ≡ sector dev.drive lba i
  pub read_keeps :
      (lba : ℕ) (dev : Ata W) (l i : ℕ)
      → sector (driver.ata_read lba dev).1.drive l i ≡ sector dev.drive l i
  pub write_done : (lba : ℕ) (dev : Ata W) → (driver.ata_write lba dev).0 ≡ true
  pub write_sector :
      (lba : ℕ) (dev : Ata W) (l i : ℕ)
      → i < sector_size
      → sector (driver.ata_write lba dev).1.drive l i
        ≡ (if l == lba then dev.buffer i else sector dev.drive l i)

-- The byte at a position of the disk.
abbrev pub byte_at : {W : Type 0} → (W → ℕ → Bytes) → W → Bytes
byte_at sector w pos = sector w (pos / sector_size) (pos % sector_size)
