-- ===== src/Fat16/Table.antt =====
-- The file allocation table: two bytes for each cluster, read and written through streams on the one
-- device. A stream's own position does not outlive the calls here, each of which seeks first.
pub mod Entries
pub mod Chains
use icariusos.Base.{
  ℕ, zero, suc, ◌+◌, ◌-◌, ◌*◌, ◌/◌, ◌%◌, ◌^◌, Bool, true, false, ◌&&◌, ◌||◌, List, [], ◌∷◌, get_or,
  Option, none, some, ltb, leb, ◌==◌, if◌then◌else◌, ◌>>=◌, bit_or,
}
use icariusos.Stream.{stream_read, stream_write}
use icariusos.Stream.Interface.{Driver, Ata}
use icariusos.Fat16.Layout.{Bpb, partition_offset, word, get_fat_table_absolute}

abbrev pub max_clusters : ℕ
max_clusters = 65525

abbrev pub end_of_chain : ℕ
end_of_chain = 0xFFF8

-- An `int32_t` result below 0.
abbrev pub negative : ℕ → Bool
negative res = leb (2 ^ 31) res

-- `fat_entry[0] | fat_entry[1] << 8`, from the two bytes of a buffer that was zeroed.
abbrev pub value_of : List ℕ → ℕ
value_of bytes = bit_or (get_or bytes 1 0 * 2 ^ 8) (get_or bytes 0 0)

module _ {W : Type 0} (driver : Driver W) (bpb : Bpb) where
  -- The result of the read is not looked at.
  unfoldable pub get_next_cluster : ℕ → ℕ → Ata W → Option (ℕ × Ata W)
  get_next_cluster offset curr_cluster dev =
      stream_read driver (word (offset + bpb.rsvd_sec * bpb.byts_per_sec + curr_cluster * 2)) 2 dev
      >>= λ (res, bytes, pos, dev'). some (value_of bytes, dev')

  unfoldable pub create_fat_entry : ℕ → ℕ → Ata W → Option (Bool × Ata W)
  unfolding get_fat_table_absolute
  create_fat_entry cluster value dev =
      if ltb cluster 2 || leb max_clusters cluster
      then some (false, dev)
      else (stream_write driver (word (get_fat_table_absolute bpb partition_offset + cluster * 2))
            ((value % 256) ∷ (value / 256 % 256) ∷ []) dev
          >>= λ (res, pos, dev'). some (if negative res then false else true, dev'))

  -- The loop of `fat16_get_next_free_cluster`; `rounds` clusters from `cluster` on are left. The
  -- buffer of the two bytes is the same in every round, and a read that answers fills it.
  unfoldable pub free_loop : ℕ → ℕ → ℕ → Ata W → Option (ℕ × Ata W)
  free_loop offset zero cluster dev = some (0, dev)
  free_loop offset (suc rounds) cluster dev =
      stream_read driver (word (offset + bpb.rsvd_sec * bpb.byts_per_sec + cluster * 2)) 2 dev
      >>= λ (res, bytes, pos, dev').
          let rest = free_loop offset rounds (cluster + 1) dev' in
          if negative res
          then some (0, dev')
          else (if value_of bytes == 0 then some (cluster, dev') else rest)

  unfoldable pub get_next_free_cluster : ℕ → Ata W → Option (ℕ × Ata W)
  unfolding free_loop
  get_next_free_cluster offset dev = free_loop offset (max_clusters - 3) 3 dev

  -- The loop of `fat16_get_cluster_chain_length`, with `next_cluster` and `used_blocks`.
  unfoldable pub length_loop : ℕ → ℕ → ℕ → ℕ → Ata W → Option (ℕ × Ata W)
  unfolding get_next_cluster
  length_loop zero offset next_cluster used_blocks dev = none
  length_loop (suc fuel) offset next_cluster used_blocks dev =
      let rest = get_next_cluster offset next_cluster dev >>= λ (next, dev').
      length_loop fuel offset next ((used_blocks + 1) % 2 ^ 16) dev' in
      if ltb next_cluster end_of_chain then rest else some (used_blocks, dev)

  unfoldable pub get_cluster_chain_length : ℕ → ℕ → ℕ → Ata W → Option (ℕ × Ata W)
  unfolding length_loop
  get_cluster_chain_length fuel start_cluster offset dev =
      get_next_cluster offset (start_cluster % 2 ^ 16) dev >>= λ (next, dev').
      length_loop fuel offset next 1 dev'

  -- The first loop of `fat16_free_unused_clusters`, which hands the position of the table over as a
  -- cluster and the cluster as the offset. The result is `prev_cluster` and `curr_cluster`.
  unfoldable pub skip_loop : ℕ → ℕ → ℕ → ℕ → ℕ → ℕ → Ata W → Option (ℕ × ℕ × Ata W)
  unfolding get_next_cluster
  skip_loop zero table required prev_cluster curr_cluster cluster_count dev = none
  skip_loop (suc fuel) table required prev_cluster curr_cluster cluster_count dev =
      let rest = get_next_cluster curr_cluster (table % 2 ^ 16) dev >>= λ (next, dev').
      skip_loop fuel table required curr_cluster next (cluster_count + 1) dev' in
      if leb cluster_count required && ltb curr_cluster end_of_chain
      then rest
      else some (prev_cluster, curr_cluster, dev)

  -- The second loop, which frees the clusters of a chain one by one.
  unfoldable pub release_loop : ℕ → ℕ → ℕ → Ata W → Option (Ata W)
  unfolding get_next_cluster create_fat_entry
  release_loop zero offset curr_cluster dev = none
  release_loop (suc fuel) offset curr_cluster dev =
      let rest = get_next_cluster offset curr_cluster dev >>= λ (next, dev').
      create_fat_entry curr_cluster 0 dev' >>= λ (done, dev'').
      release_loop fuel offset next dev'' in
      if leb 2 curr_cluster && ltb curr_cluster end_of_chain then rest else some dev

  unfoldable pub free_unused_clusters : ℕ → ℕ → ℕ → ℕ → ℕ → Ata W → Option (Ata W)
  unfolding skip_loop release_loop
  free_unused_clusters fuel start_cluster required existing table dev =
      if leb existing required || ltb start_cluster 2
      then some dev
      else (skip_loop fuel table required 0 start_cluster 1 dev >>= λ (prev, curr, dev').
          if leb end_of_chain curr
          then some dev'
          else (create_fat_entry prev end_of_chain dev' >>= λ (done, dev'').
              release_loop fuel table curr dev''))
