-- ===== src/Fat16/Creation.antt =====
-- `fat16_create_file`: a new file, in the root directory where its path has one name, and else in the
-- folder of the node. A path is its names, in their order. `allocates` says whether `kzalloc` has
-- memory; the code does not ask, and writes through the null pointer: `none`. Of the message at the
-- end only the write to its array is kept.
pub mod Lost
use icariusos.Base.{
  ℕ, zero, suc, ◌+◌, ◌*◌, ◌/◌, ◌%◌, ◌^◌, Bool, true, false, not, List, [], ◌∷◌, Option, none, some,
  ltb, leb, ◌==◌, if◌then◌else◌, ◌>>=◌,
}
use icariusos.Stream.{stream_write}
use icariusos.Stream.Interface.{Driver, Ata}
use icariusos.Fat16.Layout.{Bpb, partition_offset, get_combined_cluster}
use icariusos.Fat16.Table.{end_of_chain, create_fat_entry, get_next_free_cluster}
use icariusos.Fat16.Names.{get_native_filename_from_userland}
use icariusos.Fat16.Entries.{DirEntry, archive, Folder, Node, file, dir}
use icariusos.Fat16.Directories.{find_free_entry_in_dir, get_free_root_dir_entry}

abbrev pub last_name : List ℕ → List (List ℕ) → List ℕ
last_name name [] = name
last_name name (next ∷ names) = last_name next names

-- `new_entry`, with the cluster that is its own.
unfoldable pub new_entry : List ℕ → ℕ → DirEntry
new_entry name free_cluster = record {
  file_name = get_native_filename_from_userland name;
  attributes = archive;
  reserved = 0;
  creation_time_ms = 0;
  create_time = 0;
  create_date = 0;
  last_access_date = 0;
  high_cluster = free_cluster / 2 ^ 16 % 2 ^ 16;
  modification_time = 0;
  modification_date = 0;
  low_cluster = free_cluster % 2 ^ 16;
  file_size = 0;
}

-- `sizeof(userland)`, and how much of it is cleared.
abbrev pub userland_size : ℕ
userland_size = 11

abbrev pub cleared_size : ℕ
cleared_size = 13

module _ {W : Type 0} (driver : Driver W) (bpb : Bpb) where
  -- The cluster of the new file, its entry and its node: the length handed to `stream_write` is the
  -- comparison `sizeof(fat16_dir_entry_t) < 0`, which is 0.
  unfoldable pub create_node : Bool → List ℕ → ℕ → Ata W → Option (Option Node × Ata W)
  create_node allocates name free_entry_offset dev =
      get_next_free_cluster driver bpb partition_offset dev >>= λ (free_cluster, dev1).
      let create = create_fat_entry driver bpb free_cluster end_of_chain dev1 >>= λ (marked, dev2).
      stream_write driver free_entry_offset [] dev2 >>= λ (res, at, dev3).
      let made =
        if allocates then some (some (file (new_entry name free_cluster)), dev3) else none in
      if res == 0 then made else some (none, dev3) in
      if free_cluster == 0 then some (none, dev1) else create

  -- The name for the message: `fat16_get_userland_filename_from_native` clears 13 bytes of an array of
  -- 11, a write outside of it.
  unfoldable pub announce : Option Node × Ata W → Option (Option Node × Ata W)
  announce (none, dev) = some (none, dev)
  announce (some node, dev) = if leb cleared_size userland_size then some (some node, dev) else none

  unfoldable pub create_at : Bool → List ℕ → ℕ → Ata W → Option (Option Node × Ata W)
  unfolding create_node announce
  create_at allocates name free_entry_offset dev =
      create_node allocates name free_entry_offset dev >>= announce

  -- A folder's entry is read through its pointer. An offset of 0, the failure of the search in a folder,
  -- is not looked at.
  unfoldable pub create_in_folder : ℕ → Bool → List ℕ → Node → Ata W → Option (Option Node × Ata W)
  create_in_folder fuel allocates name (file e) dev = none
  create_in_folder fuel allocates name (dir folder) dev = folder.entry >>= λ e.
      find_free_entry_in_dir driver bpb fuel
        (get_combined_cluster e.high_cluster e.low_cluster % 2 ^ 16) dev
      >>= λ (free_entry_offset, dev'). create_at allocates name free_entry_offset dev'

  unfoldable pub create_in_root : Bool → List ℕ → Ata W → Option (Option Node × Ata W)
  create_in_root allocates name dev =
      get_free_root_dir_entry driver bpb dev >>= λ (free_entry_offset, dev').
      let create = create_at allocates name free_entry_offset dev' in
      if free_entry_offset == 0 then some (none, dev') else create

  unfoldable pub create_file :
      ℕ → Bool → List ℕ → List (List ℕ) → Node → Ata W → Option (Option Node × Ata W)
  create_file fuel allocates name [] node dev = create_in_root allocates name dev
  create_file fuel allocates name (next ∷ names) node dev =
      create_in_folder fuel allocates (last_name next names) node dev
