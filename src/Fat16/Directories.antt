-- ===== src/Fat16/Directories.antt =====
-- Searching directories: the chain of a folder cluster by cluster, and the root directory, which has
-- its own area. `fuel` bounds the clusters of a chain that are visited.
pub mod Finds
pub mod Outcomes
use icariusos.Base.{
  ℕ, zero, suc, ◌+◌, ◌-◌, ◌*◌, ◌/◌, ◌%◌, ◌^◌, bit_and, Bool, true, false, not, ◌&&◌, ◌||◌, List, [],
  ◌∷◌, take, drop, replicate, get_or, Option, none, some, ltb, leb, ◌==◌, if◌then◌else◌, ◌>>=◌,
}
use icariusos.Errno.{eio, negated}
use icariusos.Stream.{stream_read, stream_write}
use icariusos.Stream.Interface.{Driver, Ata}
use icariusos.Fat16.Layout.{
  Bpb, partition_offset, dir_entry_size, word, get_root_dir_absolute, get_sector_from_cluster,
  get_combined_cluster,
}
use icariusos.Fat16.Table.{
  max_clusters, end_of_chain, negative, get_next_cluster, create_fat_entry, get_next_free_cluster,
}
use icariusos.Fat16.Entries.{DirEntry, entry_from, entry_bytes, directory, is_free, Folder}
use icariusos.Fat16.Files.{max_cluster_size_bytes, data_pos}

-- The entries in a buffer, and the first of them that passes a test, with its index.
abbrev pub entries_of : ℕ → List ℕ → List DirEntry
entries_of zero bytes = []
entries_of (suc n) bytes = entry_from (take 32 bytes) ∷ entries_of n (drop 32 bytes)

unfoldable pub first_index : (DirEntry → Bool) → ℕ → List DirEntry → Option (ℕ × DirEntry)
first_index test i [] = none
first_index test i (e ∷ es) =
    let rest = first_index test (i + 1) es in if test e then some (i, e) else rest

-- `memcmp(a, b, n) == 0`
abbrev pub same_bytes : ℕ → List ℕ → List ℕ → Bool
same_bytes zero xs ys = true
same_bytes (suc n) xs ys = (get_or xs 0 0 == get_or ys 0 0) && same_bytes n (drop 1 xs) (drop 1 ys)

abbrev pub is_named : List ℕ → DirEntry → Bool
is_named filename e = same_bytes 11 e.file_name filename

abbrev pub entries_per_cluster : Bpb → ℕ
entries_per_cluster bpb = max_cluster_size_bytes bpb / dir_entry_size

-- How the search of a chain ends: at an entry, by an error of the drive, or behind its last cluster
-- with the link that ended it.
pub data Search : Type 0 where
  found : (cluster index : ℕ) → DirEntry → Search
  failed : Search
  ended : (link : ℕ) → Search

-- `data_pos + (i * sizeof(fat16_dir_entry_t))`, or 0.
abbrev pub offset_of : Bpb → Search → ℕ
offset_of bpb (found cluster index e) = word (data_pos bpb cluster + index * dir_entry_size)
offset_of bpb failed = 0
offset_of bpb (ended link) = 0

abbrev pub cluster_of : Search → ℕ
cluster_of (found cluster index e) = cluster
cluster_of failed = 0
cluster_of (ended link) = 0

module _ {W : Type 0} (driver : Driver W) (bpb : Bpb) where
  -- The loop that `fat16_find_free_entry_in_dir`, `fat16_scan_dir` and `fat16_find_entry_offset` share.
  unfoldable pub search_loop : (DirEntry → Bool) → ℕ → ℕ → Ata W → Option (Search × Ata W)
  unfolding first_index data_pos get_next_cluster
  search_loop test zero curr_cluster dev = none
  search_loop test (suc fuel) curr_cluster dev =
      let visit =
        stream_read driver (data_pos bpb curr_cluster) (max_cluster_size_bytes bpb) dev
        >>= λ (res, bytes, at, dev').
            let rest =
              get_next_cluster driver bpb partition_offset curr_cluster dev' >>= λ (next, dev'').
              search_loop test fuel next dev'' in
            let looked : Option (Search × Ata W) =
              elim (first_index test 0 (entries_of (entries_per_cluster bpb) bytes)) [
                | none ↦ rest
                | some (i, e) ↦ some (found curr_cluster i e, dev')
              ] in
            if negative res then some (failed, dev') else looked in
      if ltb curr_cluster end_of_chain then visit else some (ended curr_cluster, dev)

  unfoldable pub scan_dir : ℕ → ℕ → List ℕ → Ata W → Option (ℕ × Ata W)
  unfolding search_loop
  scan_dir fuel dir_cluster filename dev =
      search_loop (is_named filename) fuel (dir_cluster % 2 ^ 16) dev >>= λ (outcome, dev').
      some (cluster_of outcome, dev')

  unfoldable pub find_entry_offset : ℕ → ℕ → List ℕ → Ata W → Option (ℕ × Ata W)
  unfolding search_loop
  find_entry_offset fuel folder_cluster filename dev =
      search_loop (is_named filename) fuel (folder_cluster % 2 ^ 16) dev >>= λ (outcome, dev').
      some (offset_of bpb outcome, dev')

  -- A directory without a free entry: a new cluster, which is to be linked behind the cluster that the
  -- search ended with.
  unfoldable pub grow_dir : ℕ → Ata W → Option (ℕ × Ata W)
  grow_dir curr_cluster dev =
      get_next_free_cluster driver bpb partition_offset dev >>= λ (new_cluster, dev1).
      let append = create_fat_entry driver bpb curr_cluster new_cluster dev1 >>= λ (linked, dev2).
      create_fat_entry driver bpb new_cluster end_of_chain dev2 >>= λ (marked, dev3).
      stream_write driver (data_pos bpb new_cluster) (replicate (max_cluster_size_bytes bpb) 0) dev3
      >>= λ (res, at, dev4).
          some (if negative res then negated eio else data_pos bpb new_cluster, dev4) in
      if new_cluster == 0 then some (0, dev1) else append

  unfoldable pub find_free_entry_in_dir : ℕ → ℕ → Ata W → Option (ℕ × Ata W)
  find_free_entry_in_dir fuel start_cluster dev =
      if ltb start_cluster 2 || leb max_clusters start_cluster
      then some (0, dev)
      else (search_loop is_free fuel start_cluster dev >>= λ (outcome, dev'). elim outcome [
        | found cluster index e ↦ some (word (data_pos bpb cluster + index * dir_entry_size), dev')
        | failed ↦ some (0, dev')
        | ended link ↦ grow_dir link dev'
      ])

  -- The loop of `fat16_get_node_from_path_in_cluster_chain`, which visits a cluster 0xFFF8 too; the
  -- outcome, and how many entries were passed.
  unfoldable pub node_loop : List ℕ → ℕ → ℕ → ℕ → Ata W → Option (Search × ℕ × Ata W)
  unfolding first_index data_pos get_next_cluster
  node_loop filename zero curr_cluster total_entries dev = none
  node_loop filename (suc fuel) curr_cluster total_entries dev =
      let visit =
        stream_read driver (data_pos bpb curr_cluster) (max_cluster_size_bytes bpb) dev
        >>= λ (res, bytes, at, dev').
            let rest =
              get_next_cluster driver bpb partition_offset curr_cluster dev' >>= λ (next, dev'').
              node_loop filename fuel next (total_entries + entries_per_cluster bpb) dev'' in
            let looked : Option (Search × ℕ × Ata W) =
              elim (first_index (is_named filename) 0
                (entries_of (entries_per_cluster bpb) bytes)) [
                  | none ↦ rest
                  | some (i, e) ↦ some (found curr_cluster i e, total_entries + i, dev')
                ] in
            if negative res then some (failed, total_entries, dev') else looked in
      if leb curr_cluster end_of_chain then visit else some (ended curr_cluster, total_entries, dev)

  -- The entry, or none, and the folder of the caller.
  unfoldable pub get_node_from_path_in_cluster_chain :
      ℕ → ℕ → List ℕ → Folder → Ata W → Option (Option DirEntry × Folder × Ata W)
  unfolding node_loop get_sector_from_cluster
  get_node_from_path_in_cluster_chain fuel start_cluster filename folder dev =
      node_loop filename fuel start_cluster 0 dev >>= λ (outcome, total, dev'). elim outcome [
        | found cluster index e ↦ some (
          some e,
          record folder {
            start_sector = get_sector_from_cluster bpb start_cluster;
            end_sector = get_sector_from_cluster bpb cluster;
            total = total;
          },
          dev',
        )
        | failed ↦ some (none, folder, dev')
        | ended link ↦ some (none, record folder { total = total }, dev')
      ]

  -- The root directory: where a free entry stands, or 0.
  unfoldable pub get_free_root_dir_entry : Ata W → Option (ℕ × Ata W)
  unfolding first_index get_root_dir_absolute
  get_free_root_dir_entry dev =
      let root_dir_sector = get_root_dir_absolute bpb partition_offset in
      stream_read driver root_dir_sector (bpb.root_ent_cnt * dir_entry_size) dev
      >>= λ (res, bytes, at, dev').
          let position : ℕ = elim (first_index is_free 0 (entries_of bpb.root_ent_cnt bytes)) [
            | none ↦ 0
            | some (i, e) ↦ word (root_dir_sector + i * dir_entry_size)
          ] in
          some (if negative res then 0 else position, dev')

  -- The loop of `fat16_get_parent_cluster` over the entries of the root directory.
  unfoldable pub parent_loop : ℕ → List ℕ → List DirEntry → Ata W → Option (ℕ × Ata W)
  unfolding scan_dir get_combined_cluster
  parent_loop fuel filename [] dev = some (0, dev)
  parent_loop fuel filename (e ∷ es) dev =
      let folder_cluster = get_combined_cluster e.high_cluster e.low_cluster in
      let next = parent_loop fuel filename es dev in
      let scan = scan_dir fuel folder_cluster filename dev >>= λ (parent_cluster, dev').
      let rest = parent_loop fuel filename es dev' in
      if parent_cluster == 0 then rest else some (folder_cluster, dev') in
      if not (bit_and e.attributes directory == 0) && leb 2 folder_cluster then scan else next

  unfoldable pub get_parent_cluster : ℕ → List ℕ → Ata W → Option (ℕ × Ata W)
  unfolding parent_loop get_root_dir_absolute
  get_parent_cluster fuel filename dev =
      stream_read driver (get_root_dir_absolute bpb partition_offset)
        (bpb.root_ent_cnt * dir_entry_size) dev
      >>= λ (res, bytes, at, dev').
          let searched = parent_loop fuel filename (entries_of bpb.root_ent_cnt bytes) dev' in
          if negative res then some (0, dev') else searched

  unfoldable pub create_root_dir_entry : ℕ → DirEntry → Ata W → Option (Bool × Ata W)
  unfolding entry_bytes
  create_root_dir_entry entry_sector new_entry dev =
      stream_write driver entry_sector (entry_bytes new_entry) dev >>= λ (res, at, dev').
      some (not (negative res), dev')
