-- ===== src/Fat16/Writes.antt =====
-- `fat16_write`: a file's data, written from the beginning of its chain on, which is made longer or
-- shorter as needed; then its size, its stamps and its directory entry. `fuel` bounds the clusters of
-- a chain that are followed. The clock's time and date are arguments.
pub mod Loop
pub mod Chains
pub mod Readback
use icariusos.Base.{
  ℕ, zero, suc, ◌+◌, ◌-◌, ◌*◌, ◌/◌, ◌%◌, ◌^◌, Bool, true, false, not, ◌&&◌, ◌||◌, List, [], ◌∷◌,
  length, take, drop, Option, none, some, ltb, leb, ◌==◌, if◌then◌else◌, ◌>>=◌,
}
use icariusos.Errno.{eio, einval, enospc, negated}
use icariusos.Stream.{stream_write}
use icariusos.Stream.Interface.{Driver, Ata}
use icariusos.Fat16.Layout.{
  Bpb, partition_offset, word, get_fat_table_absolute, get_combined_cluster,
}
use icariusos.Fat16.Table.{
  end_of_chain, negative, get_next_cluster, create_fat_entry, get_next_free_cluster,
  get_cluster_chain_length, free_unused_clusters,
}
use icariusos.Fat16.Stamps.{Time, Date, get_packed_time, get_packed_date}
use icariusos.Fat16.Entries.{DirEntry, entry_bytes, file, dir, Descriptor}
use icariusos.Fat16.Files.{max_cluster_size_bytes, data_pos}
use icariusos.Fat16.Directories.{get_parent_cluster, find_entry_offset}

-- How the loop ends: with an error to return, or with the cluster that was written last.
pub data Wrote : Type 0 where
  refused : (result : ℕ) → Wrote
  wrote : (curr_cluster : ℕ) → Wrote

-- `remaining_bytes > free_space_in_cluster ? free_space_in_cluster : remaining_bytes`
abbrev pub portion : ℕ → ℕ → ℕ
portion free_space remaining = if ltb free_space remaining then free_space else remaining

module _ {W : Type 0} (driver : Driver W) (bpb : Bpb) where
  -- The cluster to go on with behind a full one: the next of the chain, or a new one that is linked;
  -- `none` inside is the lack of space.
  unfoldable pub next_or_new : ℕ → ℕ → Ata W → Option (Option ℕ × Ata W)
  next_or_new additional_clusters curr_cluster dev =
      get_next_cluster driver bpb partition_offset curr_cluster dev >>= λ (next_cluster, dev1).
      let extend = get_next_free_cluster driver bpb partition_offset dev1 >>= λ (new_cluster, dev2).
      let append = create_fat_entry driver bpb curr_cluster new_cluster dev2 >>= λ (linked, dev3).
      create_fat_entry driver bpb new_cluster end_of_chain dev3 >>= λ (marked, dev4).
      some (some new_cluster, dev4) in
      if new_cluster == 0 then some (none, dev2) else append in
      if leb end_of_chain next_cluster
      then (if additional_clusters == 0 then some (none, dev1) else extend)
      else some (some next_cluster, dev1)

  -- The loop over the bytes that are left.
  unfoldable pub write_clusters : ℕ → ℕ → ℕ → ℕ → List ℕ → Ata W → Option (Wrote × Ata W)
  write_clusters fuel additional_clusters curr_cluster cluster_offset [] dev =
      some (wrote curr_cluster, dev)
  write_clusters zero additional_clusters curr_cluster cluster_offset (byte ∷ bytes) dev = none
  write_clusters (suc fuel) additional_clusters curr_cluster cluster_offset (byte ∷ bytes) dev =
      let size = max_cluster_size_bytes bpb in
      let write_size = portion (size - cluster_offset) (length (byte ∷ bytes)) in
      let left = drop write_size (byte ∷ bytes) in
      stream_write driver (word (data_pos bpb curr_cluster + cluster_offset))
        (take write_size (byte ∷ bytes)) dev
      >>= λ (res, at, dev1).
          let stay =
            write_clusters fuel additional_clusters curr_cluster (cluster_offset + write_size) left
              dev1 in
          let move = next_or_new additional_clusters curr_cluster dev1 >>= λ (next, dev2).
          let go_on : Option (Wrote × Ata W) = elim next [
            | none ↦ some (refused (negated enospc), dev2)
            | some next_cluster ↦ write_clusters fuel additional_clusters next_cluster 0 left dev2
          ] in
          go_on in
          let rest =
            if leb size (cluster_offset + write_size) && ltb 0 (length left) then move else stay in
          if negative res then some (refused (negated eio), dev1) else rest

  -- The end of `fat16_write`: the entry in its directory.
  unfoldable pub update_entry :
      ℕ → Time → Date → DirEntry → Ata W → Option (Bool × DirEntry × Ata W)
  update_entry fuel time date entry dev =
      get_parent_cluster driver bpb fuel entry.file_name dev >>= λ (parent_cluster, dev1).
      find_entry_offset driver bpb fuel parent_cluster entry.file_name dev1
      >>= λ (entry_offset, dev2).
          let stamped = record entry {
            modification_time = get_packed_time time;
            modification_date = get_packed_date date;
          } in
          let stores =
            stream_write driver entry_offset (entry_bytes stamped) dev2 >>= λ (res, at, dev3).
            some (not (negative res), stamped, dev3) in
          if entry_offset == 0 then some (false, entry, dev2) else stores

  -- Once the bytes are written: the clusters that are no longer used, and the entry.
  unfoldable pub write_end :
      ℕ → Time → Date → ℕ → ℕ → ℕ → ℕ → DirEntry → ℕ → Ata W → Option (ℕ × Descriptor × Ata W)
  write_end fuel time date curr_cluster required existing bytes_written entry pos dev =
      let table = get_fat_table_absolute bpb partition_offset in
      let shortened =
        if ltb required existing
        then free_unused_clusters driver bpb fuel curr_cluster required existing table dev
        else some dev in
      shortened >>= λ dev1.
      let grown =
        update_entry fuel time date (record entry { file_size = bytes_written }) dev1
        >>= λ (done, entry', dev2). some (
          if done then bytes_written else negated eio,
          record { entry = file entry'; pos = pos },
          dev2,
        ) in
      if ltb entry.file_size bytes_written
      then grown
      else some (bytes_written, record { entry = file entry; pos = pos }, dev1)

  -- `fat16_write` of the `n_bytes * n_blocks` bytes of the buffer. For a directory, the pointer to its
  -- folder would be taken for that to an entry: `none`, as is the division by a cluster of no bytes.
  unfoldable pub fat16_write :
      ℕ → Time → Date → ℕ → ℕ → List ℕ → Descriptor → Ata W → Option (ℕ × Descriptor × Ata W)
  fat16_write fuel time date n_bytes n_blocks buffer fd dev =
      let refuse : Option (ℕ × Descriptor × Ata W) = some (negated einval, fd, dev) in
      let writing : Option (ℕ × Descriptor × Ata W) = elim fd.entry [
        | dir folder ↦ none
        | file entry ↦
            let start_cluster =
              get_combined_cluster entry.high_cluster entry.low_cluster % 2 ^ 16 in
            let size = max_cluster_size_bytes bpb in
            let bytes = take (word (n_bytes * n_blocks)) buffer in
            let required = word (n_bytes + size - 1) / size in
            let run =
              get_cluster_chain_length driver bpb fuel start_cluster partition_offset dev
              >>= λ (existing, dev1).
                  write_clusters (length bytes) (required - existing) start_cluster 0 bytes dev1
                  >>= λ (outcome, dev2).
                      let closing : Option (ℕ × Descriptor × Ata W) = elim outcome [
                        | refused result ↦ some (result, fd, dev2)
                        | wrote curr_cluster ↦
                            write_end fuel time date curr_cluster required existing (length bytes)
                              entry fd.pos dev2
                      ] in
                      closing in
            if size == 0 then none else run
      ] in
      if (n_bytes == 0) || (n_blocks == 0) then refuse else writing
