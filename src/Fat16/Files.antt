-- ===== src/Fat16/Files.antt =====
-- The data of a file: the clusters of its chain, read and sought through a descriptor. A `size_t` has
-- 32 bits. Dividing by a cluster of no bytes is a fault, as is a pointer that is null: `none`.
pub mod Reads
pub mod Bytes
use icariusos.Base.{
  ℕ, zero, suc, ◌+◌, ◌-◌, ◌*◌, ◌/◌, ◌%◌, ◌^◌, Bool, true, false, List, [], ◌∷◌, ◌++◌, length,
  Option, none, some, ltb, leb, ◌==◌, if◌then◌else◌, ◌>>=◌,
}
use icariusos.Errno.{eio, einval, enoent, negated}
use icariusos.Stream.{stream_read}
use icariusos.Stream.Interface.{Driver, Ata}
use icariusos.Fat16.Layout.{Bpb, partition_offset, word, get_sector_from_cluster}
use icariusos.Fat16.Table.{end_of_chain, negative, get_next_cluster, get_cluster_chain_length}
use icariusos.Fat16.Entries.{
  DirEntry, Folder, Node, file, dir, Descriptor, get_cluster_from_descriptor,
}

-- `max_cluster_size_bytes`, a `uint16_t`.
abbrev pub max_cluster_size_bytes : Bpb → ℕ
max_cluster_size_bytes bpb = bpb.sec_per_clus * bpb.byts_per_sec % 2 ^ 16

-- `data_pos`: where a cluster's bytes begin.
unfoldable pub data_pos : Bpb → ℕ → ℕ
unfolding get_sector_from_cluster
data_pos bpb cluster =
    word (partition_offset + get_sector_from_cluster bpb cluster * bpb.byts_per_sec)

-- `remaining_bytes < max_cluster_size_bytes ? remaining_bytes : max_cluster_size_bytes`
abbrev pub share : ℕ → ℕ → ℕ
share size remaining = if ltb remaining size then remaining else size

module _ {W : Type 0} (driver : Driver W) (bpb : Bpb) where
  -- The loop of `fat16_read`, which adds the offset in the first cluster in every round: the number
  -- of bytes read, the position of the descriptor, what stands in the caller's buffer and the device.
  unfoldable pub cluster_loop :
      ℕ → ℕ → ℕ → ℕ → ℕ → ℕ → List ℕ → Ata W → Option (ℕ × ℕ × List ℕ × Ata W)
  unfolding data_pos get_next_cluster
  cluster_loop fuel offset curr zero bytes_read pos out dev = some (bytes_read, pos, out, dev)
  cluster_loop zero offset curr (suc remaining) bytes_read pos out dev = none
  cluster_loop (suc fuel) offset curr (suc remaining) bytes_read pos out dev =
      let read_size = share (max_cluster_size_bytes bpb) (suc remaining) in
      stream_read driver (word (data_pos bpb curr + offset)) read_size dev
      >>= λ (res, bytes, at, dev').
          let total = word (bytes_read + read_size) in
          let moved = word (pos + read_size) in
          let rest = get_next_cluster driver bpb partition_offset curr dev' >>= λ (next, dev'').
          let following =
            cluster_loop fuel offset next (suc remaining - read_size) total moved (out ++ bytes)
              dev'' in
          if leb end_of_chain next then some (total, moved, out ++ bytes, dev'') else following in
          if negative res then some (bytes_read, pos, out ++ bytes, dev') else rest

  -- The result, the descriptor, what was read and the device. A round reads at least a byte, so as
  -- many rounds as there are bytes asked for are enough.
  unfoldable pub read_from : ℕ → ℕ → Descriptor → Ata W → Option (ℕ × Descriptor × List ℕ × Ata W)
  unfolding cluster_loop get_cluster_from_descriptor
  read_from n_bytes n_blocks fd dev = get_cluster_from_descriptor fd.entry >>= λ start_cluster.
      let size = max_cluster_size_bytes bpb in
      let remaining_bytes = word (n_bytes * n_blocks) in
      let curr_cluster = (fd.pos / size + start_cluster) % 2 ^ 16 in
      if size == 0
      then none
      else (cluster_loop remaining_bytes (fd.pos % size) curr_cluster remaining_bytes 0 fd.pos []
            dev
          >>= λ (bytes_read, pos, out, dev'). some (bytes_read, record fd { pos = pos }, out, dev'))

  -- `fat16_read`: a file that is read to its end gives nothing.
  unfoldable pub fat16_read : ℕ → ℕ → Descriptor → Ata W → Option (ℕ × Descriptor × List ℕ × Ata W)
  unfolding read_from
  fat16_read n_bytes n_blocks fd dev =
      let reading = read_from n_bytes n_blocks fd dev in
      elim fd.entry [
        | file e ↦ if leb e.file_size fd.pos then some (0, fd, [], dev) else reading
        | dir folder ↦ reading
      ]

-- SEEK_SET, SEEK_CUR and SEEK_END are 0, 1 and 2. The size is read through the folder of the
-- descriptor's node; for a file the same pointer is that of its entry, whose first bytes stand in
-- the place of the pointer: `none`.
unfoldable pub fat16_seek : Descriptor → ℕ → ℕ → Option (ℕ × Descriptor)
fat16_seek fd offset origin = elim fd.entry [
  | file e ↦ none
  | dir folder ↦ folder.entry >>= λ e.
      if leb e.file_size offset
      then some (negated eio, fd)
      else (if origin == 0
          then some (0, record fd { pos = offset })
          else (if origin == 2
              then some (enoent, fd)
              else (if origin == 1
                  then some (0, record fd { pos = word (fd.pos + offset) })
                  else some (negated einval, fd))))
]
