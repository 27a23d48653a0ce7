-- ===== src/Stream.antt =====
-- src/x86/fs/stream.c: a cursor over the bytes of the disk, which reads and writes through the
-- sector buffer of the device. `Ata` is what `ata_t` holds that a stream touches: the buffer, and
-- behind the driver the disk. `Driver` is the interface of src/x86/driver/ata.c that it calls: the
-- transfer of one sector, which may fail. An index at or behind 512 is outside `ata_t.buffer`, a
-- fault: the result is `none`. The caller's bytes are a list, in their order.
pub mod Interface
pub mod Reads
pub mod Writes
pub mod Plain
mod Tests
use icariusos.Base.{
  ℕ, zero, suc, ◌+◌, ◌-◌, ◌/◌, ◌%◌, ◌^◌, Bool, true, false, List, [], ◌∷◌, ◌++◌, length, take, drop,
  Option, none, some, ltb, leb, ◌==◌, if◌then◌else◌, ◌>>=◌,
}
use icariusos.Errno.{eio, einval, negated}
use icariusos.Libc.Blocks.{Bytes, store}
use Interface.{Driver, Ata, sector_size}

-- The copy out of the sector buffer, `rounds` bytes from index `at` on.
unfoldable pub copy_out : ℕ → ℕ → Bytes → Option (List ℕ)
copy_out zero at buffer = some []
copy_out (suc rounds) at buffer =
    let rest = copy_out rounds (at + 1) buffer >>= λ bytes. some (buffer at ∷ bytes) in
    if ltb at sector_size then rest else none

-- The copy into it.
unfoldable pub copy_in : List ℕ → ℕ → Bytes → Option Bytes
copy_in [] at buffer = some buffer
copy_in (byte ∷ bytes) at buffer =
    let rest = copy_in bytes (at + 1) (store buffer at byte) in
    if ltb at sector_size then rest else none

-- `remaining_bytes > block_size ? block_size : remaining_bytes`
abbrev pub chunk : ℕ → ℕ
chunk remaining = if ltb sector_size remaining then sector_size else remaining

module _ {W : Type 0} (driver : Driver W) where
  -- The result, what was read, the new position and the device. A round that reads something
  -- leaves less to read, so `remaining` rounds are enough.
  unfoldable pub read_loop : ℕ → ℕ → ℕ → List ℕ → Ata W → Option (ℕ × List ℕ × ℕ × Ata W)
  unfolding copy_out
  read_loop fuel pos zero out dev = some (0, out, pos, dev)
  read_loop zero pos (suc remaining) out dev = none
  read_loop (suc fuel) pos (suc remaining) out dev =
      let (done, dev') = driver.ata_read (pos / sector_size) dev in
      let read_size = chunk (suc remaining) in
      let rest = copy_out read_size (pos % sector_size) dev'.buffer >>= λ bytes.
      read_loop fuel ((pos + read_size) % 2 ^ 32) (suc remaining - read_size) (out ++ bytes) dev' in
      if done then rest else some (negated eio, out, pos, dev')

  unfoldable pub stream_read : ℕ → ℕ → Ata W → Option (ℕ × List ℕ × ℕ × Ata W)
  unfolding read_loop
  stream_read pos n_bytes dev = read_loop n_bytes pos n_bytes [] dev

  -- The loop of `stream_write`, on the bytes that are left.
  unfoldable pub write_loop : ℕ → ℕ → List ℕ → Ata W → Option (ℕ × ℕ × Ata W)
  unfolding copy_in
  write_loop fuel pos [] dev = some (0, pos, dev)
  write_loop zero pos (byte ∷ bytes) dev = none
  write_loop (suc fuel) pos (byte ∷ bytes) dev =
      let (loaded, dev') = driver.ata_read (pos / sector_size) dev in
      let write_size = chunk (length (byte ∷ bytes)) in
      let rest =
        copy_in (take write_size (byte ∷ bytes)) (pos % sector_size) dev'.buffer >>= λ buffer.
        let (done, dev'') =
          driver.ata_write (pos / sector_size) (record dev' { buffer = buffer }) in
        let next =
          write_loop fuel ((pos + write_size) % 2 ^ 32) (drop write_size (byte ∷ bytes)) dev'' in
        if done then next else some (negated eio, pos, dev'') in
      if loaded then rest else some (negated eio, pos, dev')

  unfoldable pub stream_write : ℕ → List ℕ → Ata W → Option (ℕ × ℕ × Ata W)
  unfolding write_loop
  stream_write pos bytes dev = write_loop (length bytes) pos bytes dev
