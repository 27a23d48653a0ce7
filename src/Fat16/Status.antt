-- ===== src/Fat16/Status.antt =====
-- `fat16_stat` and `fat16_create_file_stat`: `vstat_t` of src/x86/include/vnode.h, filled from the
-- entry of a descriptor and the length of its chain. The name of the device is left out.
use icariusos.Base.{◌==◌, if◌then◌else◌, ℕ, ◌*◌, ◌/◌, ◌%◌, ◌^◌, Option, none, some, ◌>>=◌}
use icariusos.Stream.Interface.{Driver, Ata, sector_size}
use icariusos.Fat16.Layout.{Bpb, partition_offset, word}
use icariusos.Fat16.Table.{get_cluster_chain_length}
use icariusos.Fat16.Entries.{DirEntry, Node, file, dir, Descriptor, get_cluster_from_descriptor}
use icariusos.Fat16.Files.{max_cluster_size_bytes}

pub record VStat : Type 0 where
  pub st_mode : ℕ
  pub st_size : ℕ
  pub st_blksize : ℕ
  pub st_blocks : ℕ
  pub st_atime : ℕ
  pub st_mtime : ℕ
  pub st_ctime : ℕ

-- READ
abbrev pub stat_mode : ℕ
stat_mode = 0

-- Either case, on the entry of the node.
unfoldable pub filled : DirEntry → ℕ → ℕ → VStat
filled e max_cluster_size_bytes used_blocks = record {
  st_mode = stat_mode;
  st_size = e.file_size;
  st_blksize = max_cluster_size_bytes;
  st_blocks = word (used_blocks * max_cluster_size_bytes) / sector_size % 2 ^ 16;
  st_atime = e.last_access_date;
  st_mtime = e.modification_date;
  st_ctime = e.creation_time_ms;
}

unfoldable pub create_file_stat : Node → ℕ → ℕ → Option VStat
unfolding filled
create_file_stat (file e) size used_blocks = some (filled e size used_blocks)
create_file_stat (dir folder) size used_blocks =
    folder.entry >>= λ e. some (filled e size used_blocks)

-- `fat16_get_cluster_chain_length` divides by the size of a cluster: a fault where it is 0.
module _ {W : Type 0} (driver : Driver W) (bpb : Bpb) where
  unfoldable pub fat16_stat : ℕ → Descriptor → Ata W → Option (VStat × Ata W)
  fat16_stat fuel fd dev =
      let size = max_cluster_size_bytes bpb in
      let stat = get_cluster_from_descriptor fd.entry >>= λ start_cluster.
      get_cluster_chain_length driver bpb fuel start_cluster partition_offset dev
      >>= λ (used_blocks, dev').
          create_file_stat fd.entry size used_blocks >>= λ vstat. some (vstat, dev') in
      if size == 0 then none else stat
