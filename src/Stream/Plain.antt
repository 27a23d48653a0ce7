-- ===== src/Stream/Plain.antt =====
-- A drive that always answers, and keeps its sectors as a function: the interface can be filled.
use icariusos.Base.{ℕ, refl, true, ◌==◌, if◌then◌else◌}
use icariusos.Libc.Blocks.{Bytes}
use icariusos.Stream.Interface.{Driver, IsReliable}

abbrev pub plain : Driver (ℕ → Bytes)
plain = record {
  ata_read = λ lba dev. (true, record dev { buffer = dev.drive lba });
  ata_write = λ lba dev.
      (true, record dev { drive = λ l i. if l == lba then dev.buffer i else dev.drive l i });
}

abbrev pub contents : (ℕ → Bytes) → ℕ → Bytes
contents w = w

pub plain-IsReliable : IsReliable plain contents
plain-IsReliable = record {
  read_done = λ lba dev. refl;
  read_buffer = λ lba dev i h. refl;
  read_keeps = λ lba dev l i. refl;
  write_done = λ lba dev. refl;
  write_sector = λ lba dev l i h. refl;
}
