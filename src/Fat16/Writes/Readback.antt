-- ===== src/Fat16/Writes/Readback.antt =====
-- A file that is written over in its chain, and read again.
use icariusos.Base.{
  ℕ, zero, suc, ◌+◌, ◌-◌, ◌*◌, ◌/◌, ◌%◌, ◌^◌, ◌<◌, ◌≤◌, ◌≡◌, inl, ap, ◌∙◌, arith, false, ◌||◌, List,
  ◌∷◌, length, take, All, All-map, some, ltb, ◌==◌,
}
use icariusos.Libc.Blocks.{Bytes}
use icariusos.Stream.Interface.{Driver, Ata, IsReliable, byte_at}
use icariusos.Fat16.Layout.{Bpb, partition_offset, word, get_combined_cluster}
use icariusos.Fat16.Table.{get_cluster_chain_length}
use icariusos.Fat16.Table.Entries.{IsSane, entry_of, entry_pos, entry, entry-eq}
use icariusos.Fat16.Table.Chains.{Chain, Chain-eq, Chain-same, get_cluster_chain_length-Chain}
use icariusos.Fat16.Stamps.{Time, Date}
use icariusos.Fat16.Entries.{DirEntry, file}
use icariusos.Fat16.Files.{max_cluster_size_bytes, fat16_read}
use icariusos.Fat16.Files.Reads.{fat16_read-chain_bytes}
use icariusos.Fat16.Files.Bytes.{IsNear, chain_bytes}
use icariusos.Fat16.Writes.{wrote, write_clusters, write_end, fat16_write}
use icariusos.Fat16.Writes.Loop.{Outside, AllApart, IsBehind, take-all}
use icariusos.Fat16.Writes.Chains.{room, Chain-small, write_clusters-Rewritten}

positive_mul : (a b : ℕ) → 0 < a * b → (0 < a) × (0 < b)
positive_mul zero b h = absurd (omega arith)
positive_mul (suc a) zero h = absurd (omega arith)
positive_mul (suc a) (suc b) h = (omega arith, omega arith)

module _ {W : Type 0} (driver : Driver W) (sector : W → ℕ → Bytes) (law : IsReliable driver sector)
    (bpb : Bpb) (sane : IsSane bpb) where
  abbrev table : W → ℕ → ℕ
  table w = entry driver sector law bpb sane w

  table-Outside :
      (cs : List ℕ) (w w' : W)
      → All (IsBehind bpb) cs
      → ((a : ℕ) → All (Outside bpb a) cs → byte_at sector w' a ≡ byte_at sector w a)
      → (x : ℕ) → x < 2 ^ 16
      → table w' x ≡ table w x
  unfolding entry_of
  table-Outside cs w w' behind keeps x small =
      let low = keeps (entry_pos bpb x) (
        All-map (IsBehind bpb) (Outside bpb (entry_pos bpb x)) cs (λ c h. inl (omega (arith, h.0)))
          behind) in
      let high = keeps (entry_pos bpb x + 1) (
        All-map (IsBehind bpb) (Outside bpb (entry_pos bpb x + 1)) cs
          (λ c h. inl (omega (arith, h.0))) behind) in
      rw (low, high)

  -- Nothing is released and the entry stays as it is.
  write_end-stays :
      (fuel : ℕ) (time : Time) (date : Date) (curr required existing written : ℕ) (e : DirEntry)
      (pos : ℕ) (dev : Ata W)
      → existing ≤ required
      → written ≤ e.file_size
      → write_end driver bpb fuel time date curr required existing written e pos dev
        ≡ some (written, record { entry = file e; pos = pos }, dev)
  unfolding write_end
  write_end-stays fuel time date curr required existing written e pos dev enough inside =
      let stays : ltb required existing ≡ false = ground arith in
      let same : ltb e.file_size written ≡ false = ground arith in rw (stays, same)

  -- The run of `fat16_write`, from the runs of its parts.
  fat16_write-run :
      (fuel : ℕ) (time : Time) (date : Date) (n_bytes n_blocks existing curr : ℕ) (bytes : List ℕ)
      (e : DirEntry) (pos : ℕ) (dev dev1 dev2 : Ata W)
      → let start = get_combined_cluster e.high_cluster e.low_cluster in
        let size = max_cluster_size_bytes bpb in
        let required = word (n_bytes + size - 1) / size in
        0 < length bytes
        → length bytes < 2 ^ 32
        → n_bytes * n_blocks ≡ length bytes
        → 0 < size
        → start < 2 ^ 16
        → existing ≤ required
        → length bytes ≤ e.file_size
        → get_cluster_chain_length driver bpb fuel start partition_offset dev
          ≡ some (existing, dev1)
        → write_clusters driver bpb (length bytes) (required - existing) start 0 bytes dev1
          ≡ some (wrote curr, dev2)
        → fat16_write driver bpb fuel time date n_bytes n_blocks bytes
            (record { entry = file e; pos = pos })
            dev
          ≡ some (length bytes, record { entry = file e; pos = pos }, dev2)
  unfolding fat16_write
  fat16_write-run fuel time date n_bytes n_blocks existing curr bytes e pos dev dev1 dev2 some_bytes
        fits total positive small enough inside counts writes =
      let both = positive_mul n_bytes n_blocks (omega arith) in
      let start = get_combined_cluster e.high_cluster e.low_cluster in
      let size = max_cluster_size_bytes bpb in
      let accepts : ((n_bytes == 0) || (n_blocks == 0)) ≡ false = ground (arith, both.0, both.1) in
      let sized : (size == 0) ≡ false = ground arith in
      let first : start % 2 ^ 16 ≡ start = omega arith in
      let count : n_bytes * n_blocks % 2 ^ 32 ≡ length bytes = omega arith in
      let required = word (n_bytes + size - 1) / size in
      let whole : take (n_bytes * n_blocks % 2 ^ 32) bytes ≡ bytes =
        ap (λ (n : ℕ). take n bytes) count ∙ take-all bytes in
      rw (accepts, sized, first, whole, counts, writes)
        (ap
            (λ (l : List ℕ).
              write_end driver bpb fuel time date curr required existing (length l) e pos dev2)
            whole
          ∙ write_end-stays fuel time date curr required existing (length bytes) e pos dev2 enough
              inside)

  -- On a drive that answers, for a file whose chain has clusters of the data area which do not overlap
  -- and have room for the bytes, where the write needs at least as many clusters as the chain has and
  -- the file is at least as long as the bytes: `fat16_write` of all of a buffer from the beginning
  -- returns its length and leaves the descriptor as it is, and `fat16_read` of as many bytes from the
  -- beginning brings back the buffer.
  pub fat16_read-fat16_write :
      (fuel : ℕ) (time : Time) (date : Date) (n_bytes n_blocks : ℕ) (bytes : List ℕ) (e : DirEntry)
      (ds : List ℕ) (dev : Ata W)
      → let start = get_combined_cluster e.high_cluster e.low_cluster in
        let size = max_cluster_size_bytes bpb in
        0 < length bytes
        → length bytes < 2 ^ 32
        → n_bytes * n_blocks ≡ length bytes
        → length bytes ≤ e.file_size
        → 0 < size
        → start < 2 ^ 16
        → Chain (table dev.drive) start ds
        → All (IsBehind bpb) (start ∷ ds)
        → AllApart bpb (start ∷ ds)
        → length bytes ≤ room size (start ∷ ds)
        → 1 + length ds ≤ word (n_bytes + size - 1) / size
        → length ds < fuel
        → (dev' : Ata W) × (dev'' : Ata W) × (fat16_write driver bpb fuel time date n_bytes n_blocks
              bytes
              (record { entry = file e; pos = 0 })
              dev
            ≡ some (length bytes, record { entry = file e; pos = 0 }, dev'))
          × (fat16_read driver bpb n_bytes n_blocks (record { entry = file e; pos = 0 }) dev'
              ≡ some (length bytes, record { entry = file e; pos = length bytes }, bytes, dev''))
  fat16_read-fat16_write fuel time date n_bytes n_blocks bytes e ds dev some_bytes fits total inside
        positive small chain behind apart roomy enough fueled =
      let start = get_combined_cluster e.high_cluster e.low_cluster in
      let size = max_cluster_size_bytes bpb in
      let required = word (n_bytes + size - 1) / size in
      let existing = (1 + length ds) % 2 ^ 16 in
      let (dev1, counts, kept) =
        get_cluster_chain_length-Chain driver sector law bpb sane fuel start ds dev small chain
          fueled in
      let chain1 =
        Chain-same (table dev.drive) (table dev1.drive) start ds
          (entry-eq driver sector law bpb sane dev.drive dev1.drive kept) chain in
      let (curr, dev2, writes, holds, keeps) =
        write_clusters-Rewritten driver sector law bpb sane (length bytes) (required - existing)
          start ds bytes dev1 small chain1 behind apart positive roomy (omega arith) in
      let same =
        All-map (λ x. x < 2 ^ 16) (λ x. table dev2.drive x ≡ table dev1.drive x) (start ∷ ds)
          (table-Outside (start ∷ ds) dev1.drive dev2.drive behind keeps)
          (Chain-small (table dev1.drive) start ds small chain1) in
      let chain2 = Chain-eq (table dev1.drive) (table dev2.drive) start ds same chain1 in
      let (dev3, reads) =
        fat16_read-chain_bytes driver sector law bpb sane e ds n_bytes n_blocks dev2 (omega arith)
          small chain2 (All-map (IsBehind bpb) (IsNear bpb) (start ∷ ds) (λ c h. h.1) behind)
          positive (omega arith) in
      let back : chain_bytes bpb (byte_at sector dev2.drive) (start ∷ ds) (n_bytes * n_blocks)
          ≡ bytes =
        ap (chain_bytes bpb (byte_at sector dev2.drive) (start ∷ ds)) total ∙ holds in
      (
        dev2,
        dev3,
        fat16_write-run fuel time date n_bytes n_blocks existing curr bytes e 0 dev dev1 dev2
            some_bytes fits total positive small (omega arith) inside counts writes,
        reads
            ∙ ap
                (λ (l : List ℕ).
                  some (length l, record { entry = file e; pos = length l }, l, dev3))
                back,
      )
