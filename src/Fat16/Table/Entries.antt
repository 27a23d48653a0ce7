-- ===== src/Fat16/Table/Entries.antt =====
-- One entry of the table: what is written is read back, and no other entry changes.
use icariusos.Base.{
  ℕ, ◌+◌, ◌-◌, ◌*◌, ◌/◌, ◌%◌, ◌^◌, ◌<◌, ◌≤◌, ◌≡◌, ◌≢◌, inl, inr, refl, ap₂, ◌∙◌, arith, Bool-cases,
  true, false, ◌||◌, List, [], ◌∷◌, some, ltb, leb, ◌==◌, if◌then◌else◌, bit_or,
}
use icariusos.Base.Bits.{bit_or-fields}
use icariusos.Libc.Blocks.{Bytes}
use icariusos.Stream.{stream_read}
use icariusos.Stream.Interface.{Driver, Ata, IsReliable, byte_at}
use icariusos.Stream.Reads.{Fits, bytes_from, stream_read-bytes}
use icariusos.Stream.Writes.{patched, stream_write-patched}
use icariusos.Fat16.Layout.{Bpb, partition_offset, word, get_fat_table_absolute}
use icariusos.Fat16.Table.{max_clusters, value_of, get_next_cluster, create_fat_entry}

-- The header that the driver accepts has sectors of 512 bytes, and its other fields are 16 bits.
pub record IsSane (bpb : Bpb) : Type 0 where
  pub sector_bytes : bpb.byts_per_sec ≡ 512
  pub reserved : bpb.rsvd_sec < 2 ^ 16

-- Where the entry of a cluster stands.
abbrev pub entry_pos : Bpb → ℕ → ℕ
entry_pos bpb cluster = partition_offset + bpb.rsvd_sec * 512 + cluster * 2

-- The entry of a cluster, in the bytes of a disk.
unfoldable pub entry_of : Bpb → Bytes → ℕ → ℕ
entry_of bpb b cluster = bit_or (b (entry_pos bpb cluster + 1) * 2 ^ 8) (b (entry_pos bpb cluster))

read_pos :
    (bpb : Bpb) (cluster : ℕ)
    → IsSane bpb
    → cluster < 2 ^ 16
    → word (partition_offset + bpb.rsvd_sec * bpb.byts_per_sec + cluster * 2)
      ≡ entry_pos bpb cluster
read_pos bpb cluster sane small = rw (sane.sector_bytes) (let r = sane.reserved in omega arith)

write_pos :
    (bpb : Bpb) (cluster : ℕ)
    → IsSane bpb
    → cluster < 2 ^ 16
    → word (get_fat_table_absolute bpb partition_offset + cluster * 2) ≡ entry_pos bpb cluster
unfolding get_fat_table_absolute
write_pos bpb cluster sane small = rw (sane.sector_bytes) (let r = sane.reserved in omega arith)

Fits-entry : (bpb : Bpb) (cluster : ℕ) → Fits (entry_pos bpb cluster) 2
Fits-entry bpb cluster = inr (omega arith)

small-entry :
    (bpb : Bpb) (cluster : ℕ) → IsSane bpb → cluster < 2 ^ 16 → entry_pos bpb cluster + 2 < 2 ^ 32
small-entry bpb cluster sane small = let r = sane.reserved in omega arith

-- Two bytes put over a memory.
patched-pair :
    (b : Bytes) (p x y a : ℕ)
    → patched b p (x ∷ y ∷ []) a ≡ (if a == p then x else if a == p + 1 then y else b a)
patched-pair b p x y a = elim (Bool-cases (a == p)) [
  | inl e ↦
      let none : a - p ≡ 0 = ground arith in
      let same : a ≡ p = ground arith in rw (e, none) (ground arith)
  | inr n ↦ elim (Bool-cases (a == p + 1)) [
    | inl e ↦
        let one : a - p ≡ 1 = ground arith in
        let same : a ≡ p + 1 = ground arith in rw (n, e, one) (ground arith)
    | inr m ↦ rw (n, m) (ground arith)
  ]
]

-- The entries after two bytes were written over one of them.
pub entry_of-patched :
    (bpb : Bpb) (b b' : Bytes) (cluster value other : ℕ)
    → value < 2 ^ 16
    → ((a : ℕ)
        → b' a ≡ patched b (entry_pos bpb cluster) ((value % 256) ∷ (value / 256 % 256) ∷ []) a)
    → entry_of bpb b' other ≡ (if other == cluster then value else entry_of bpb b other)
unfolding entry_of
entry_of-patched bpb b b' cluster value other fits is =
    let low =
      is (entry_pos bpb other) ∙ patched-pair b (entry_pos bpb cluster) _ _ (entry_pos bpb other) in
    let high =
      is (entry_pos bpb other + 1)
      ∙ patched-pair b (entry_pos bpb cluster) _ _ (entry_pos bpb other + 1) in
    elim (Bool-cases (other == cluster)) [
      | inl e ↦
          let same : other ≡ cluster = ground arith in
          let low_byte : b' (entry_pos bpb other) ≡ value % 256 = ground arith in
          let high_byte : b' (entry_pos bpb other + 1) ≡ value / 256 % 256 = ground arith in
          rw (e, low_byte, high_byte)
            (bit_or-fields 8 (value / 256 % 256) (value % 256) (omega arith) ∙ omega arith)
      | inr n ↦
          let away : other ≢ cluster = ground arith in
          let low_byte : b' (entry_pos bpb other) ≡ b (entry_pos bpb other) = ground arith in
          let high_byte : b' (entry_pos bpb other + 1) ≡ b (entry_pos bpb other + 1) =
            ground arith in
          rw (n, low_byte, high_byte)
    ]

module _ {W : Type 0} (driver : Driver W) (sector : W → ℕ → Bytes) (law : IsReliable driver sector)
    (bpb : Bpb) (sane : IsSane bpb) where
  -- The entries of the table on a disk.
  abbrev pub entry : W → ℕ → ℕ
  entry w cluster = entry_of bpb (byte_at sector w) cluster

  -- Disks with the same sectors have the same table.
  pub entry-eq :
      (w w' : W)
      → ((l i : ℕ) → sector w' l i ≡ sector w l i)
      → (other : ℕ) → entry w' other ≡ entry w other
  unfolding entry_of
  entry-eq w w' same other = ap₂ (λ (hi lo : ℕ). bit_or (hi * 2 ^ 8) lo) (same _ _) (same _ _)

  -- The two bytes of an entry, through a stream.
  pub read_entry :
      (cluster : ℕ) (dev : Ata W)
      → cluster < 2 ^ 16
      → (bytes : List ℕ) × (pos : ℕ) × (dev' : Ata W) × (stream_read driver
            (word (partition_offset + bpb.rsvd_sec * bpb.byts_per_sec + cluster * 2))
            2
            dev
          ≡ some (0, bytes, pos, dev'))
        × (value_of bytes ≡ entry dev.drive cluster)
        × ((l i : ℕ) → sector dev'.drive l i ≡ sector dev.drive l i)
  unfolding entry_of
  read_entry cluster dev small =
      let (dev', (reads, keeps)) =
        stream_read-bytes driver sector law (entry_pos bpb cluster) 2 dev (Fits-entry bpb cluster)
          (small-entry bpb cluster sane small) in
      (
        bytes_from (byte_at sector dev.drive) (entry_pos bpb cluster) 2,
        entry_pos bpb cluster + 2,
        dev',
        rw (read_pos bpb cluster sane small) reads,
        refl,
        keeps,
      )

  pub get_next_cluster-sectors :
      (cluster : ℕ) (dev : Ata W)
      → cluster < 2 ^ 16
      → (dev' : Ata W) × ((get_next_cluster driver bpb partition_offset cluster dev
            ≡ some (entry dev.drive cluster, dev'))
          × ((l i : ℕ) → sector dev'.drive l i ≡ sector dev.drive l i))
  unfolding get_next_cluster
  get_next_cluster-sectors cluster dev small =
      let (bytes, pos, dev', reads, is, keeps) = read_entry cluster dev small in
      (dev', (rw (reads, is), keeps))

  -- On a drive that answers, `fat16_get_next_cluster` returns the entry and changes none.
  pub get_next_cluster-entry :
      (cluster : ℕ) (dev : Ata W)
      → cluster < 2 ^ 16
      → (dev' : Ata W) × ((get_next_cluster driver bpb partition_offset cluster dev
            ≡ some (entry dev.drive cluster, dev'))
          × ((other : ℕ) → entry dev'.drive other ≡ entry dev.drive other))
  get_next_cluster-entry cluster dev small =
      let (dev', (gets, keeps)) = get_next_cluster-sectors cluster dev small in
      (dev', (gets, entry-eq dev.drive dev'.drive keeps))

  pub create_fat_entry-patched :
      (cluster value : ℕ) (dev : Ata W)
      → 2 ≤ cluster
      → cluster < max_clusters
      → (dev' : Ata W) × ((create_fat_entry driver bpb cluster value dev ≡ some (true, dev'))
          × ((a : ℕ)
              → byte_at sector dev'.drive a
                ≡ patched
                    (byte_at sector dev.drive)
                    (entry_pos bpb cluster)
                    ((value % 256) ∷ (value / 256 % 256) ∷ [])
                    a))
  unfolding create_fat_entry
  create_fat_entry-patched cluster value dev low high =
      let inside : (ltb cluster 2 || leb max_clusters cluster) ≡ false = ground arith in
      let (dev', (writes, is)) =
        stream_write-patched driver sector law (entry_pos bpb cluster)
          ((value % 256) ∷ (value / 256 % 256) ∷ []) dev (Fits-entry bpb cluster)
          (small-entry bpb cluster sane (omega arith)) in
      (dev', (rw (inside, write_pos bpb cluster sane (omega arith), writes), is))

  -- On a drive that answers, `fat16_create_fat_entry` of a cluster of the data area writes its entry
  -- and changes no other.
  pub create_fat_entry-entry :
      (cluster value : ℕ) (dev : Ata W)
      → 2 ≤ cluster
      → cluster < max_clusters
      → value < 2 ^ 16
      → (dev' : Ata W) × ((create_fat_entry driver bpb cluster value dev ≡ some (true, dev'))
          × ((other : ℕ)
              → entry dev'.drive other
                ≡ (if other == cluster then value else entry dev.drive other)))
  create_fat_entry-entry cluster value dev low high fits =
      let (dev', (writes, is)) = create_fat_entry-patched cluster value dev low high in
      (
        dev',
        (
          writes,
          λ other.
              entry_of-patched bpb (byte_at sector dev.drive) (byte_at sector dev'.drive) cluster
                value other fits is,
        ),
      )
