-- ===== src/Fat16/Tests.antt =====
-- A small volume: the entry of cluster 5 links to 6, which ends its chain.
use icariusos.Base.{
  ℕ, ◌*◌, ◌≡◌, inl, refl, arith, true, List, [], ◌∷◌, length, Option, none, some, ◌==◌,
  if◌then◌else◌, ◌||◌, ◌-◌, replicate, All,
}
use icariusos.Libc.Blocks.{Bytes}
use icariusos.Stream.{stream_read}
use icariusos.Stream.Plain.{plain, contents, plain-IsReliable}
use icariusos.Stream.Interface.{Ata, byte_at}
use icariusos.Fat16.Layout.{Bpb, partition_offset, get_combined_cluster}
use icariusos.Fat16.Table.{
  max_clusters, get_next_cluster, create_fat_entry, get_next_free_cluster, get_cluster_chain_length,
}
use icariusos.Fat16.Table.Entries.{IsSane, entry, entry_of, create_fat_entry-entry}
use icariusos.Fat16.Table.Chains.{Chain, last, link, IsFree, get_next_free_cluster-IsFree}
use icariusos.Fat16.Stamps.{Time, Date, get_packed_date, get_unpacked_date}
use icariusos.Fat16.Names.{
  joined, get_native_filename_from_userland, get_userland_filename_from_native,
  get_userland_filename_from_native-get_native_filename_from_userland,
}
use icariusos.Fat16.Entries.{DirEntry, archive, IsEntry, file}
use icariusos.Fat16.Files.{fat16_read, data_pos}
use icariusos.Fat16.Files.Reads.{fat16_read-chain_bytes}
use icariusos.Fat16.Files.Bytes.{IsNear, chain_bytes}
use icariusos.Fat16.Creation.Lost.{Lost}
use icariusos.Fat16.Writes.{fat16_write}
use icariusos.Fat16.Writes.Loop.{IsBehind, AllApart}
use icariusos.Fat16.Writes.Readback.{fat16_read-fat16_write}
use icariusos.Fat16.Directories.{find_entry_offset, is_named}
use icariusos.Fat16.Directories.Finds.{dir_entries, find_entry_offset-named}
use icariusos.Fat16.Directories.Outcomes.{IsOffset}

abbrev volume : Bpb
volume = record {
  jmp = 0xEB ∷ 0x3C ∷ 0x90 ∷ [];
  oem = [];
  byts_per_sec = 512;
  sec_per_clus = 1;
  rsvd_sec = 1;
  num_fats = 2;
  root_ent_cnt = 512;
  tot_sec_16 = 0;
  media = 0xF8;
  fatsz16 = 256;
  sec_per_trk = 63;
  num_heads = 32;
  hidd_sec = 0;
  tot_sec_32 = 65000;
}

volume-IsSane : IsSane volume
volume-IsSane = record { sector_bytes = refl; reserved = omega arith }

abbrev sectors : ℕ → Bytes
sectors l i =
    if l == 2049 then (if i == 10 then 6 else (if (i == 12) || (i == 13) then 0xFF else 0)) else i

abbrev disk : Ata (ℕ → Bytes)
disk = record { buffer = λ i. 0; drive = sectors }

abbrev table : ℕ → ℕ
table = entry plain contents plain-IsReliable volume volume-IsSane sectors

chain : Chain table 5 (6 ∷ [])
unfolding entry_of
chain = link 5 6 [] refl (omega arith) (last 6 (omega arith))

near : All (IsNear volume) (5 ∷ 6 ∷ [])
unfolding data_pos
near = (omega arith, (omega arith, tt))

behind : All (IsBehind volume) (5 ∷ 6 ∷ [])
unfolding data_pos
behind = ((omega arith, omega arith), ((omega arith, omega arith), tt))

apart : AllApart volume (5 ∷ 6 ∷ [])
unfolding data_pos
apart = ((inl (omega arith), tt), (tt, tt))

-- A file that begins in cluster 5.
abbrev readme : DirEntry
readme = record {
  file_name = 0x52 ∷ 0x45 ∷ 0x41 ∷ 0x44 ∷ 0x4D ∷ 0x45 ∷ 0x20 ∷ 0x20 ∷ 0x54 ∷ 0x58 ∷ 0x54 ∷ [];
  attributes = archive;
  reserved = 0;
  creation_time_ms = 0;
  create_time = 0;
  create_date = 0;
  last_access_date = 0;
  high_cluster = 0;
  modification_time = 0;
  modification_date = 0;
  low_cluster = 5;
  file_size = 600;
}

abbrev letter : List ℕ
letter = replicate 600 0x41

abbrev midnight : Time
midnight = record { hour = 0; minute = 0; second = 0 }

abbrev first_day : Date
first_day = record { day = 1; month = 1; year = 2025 }

abbrev answer : {A : Type 0} → Option (ℕ × A) → Option ℕ
answer none = none
answer (some (n, rest)) = some n

read-links : answer (get_next_cluster plain volume partition_offset 5 disk) ≡ some 6
unfolding get_next_cluster stream_read
read-links = refl

chain_length : answer (get_cluster_chain_length plain volume 4 5 partition_offset disk) ≡ some 2
unfolding get_cluster_chain_length get_next_cluster stream_read
chain_length = refl

fat16_read-fat16_write_example :
    (dev' : Ata (ℕ → Bytes)) × (dev'' : Ata (ℕ → Bytes)) × (fat16_write plain volume 2 midnight
        first_day 600 1 letter
        (record { entry = file readme; pos = 0 })
        disk
      ≡ some (length letter, record { entry = file readme; pos = 0 }, dev'))
    × (fat16_read plain volume 600 1 (record { entry = file readme; pos = 0 }) dev'
        ≡ some (length letter, record { entry = file readme; pos = length letter }, letter, dev''))
unfolding get_combined_cluster
fat16_read-fat16_write_example =
    fat16_read-fat16_write plain contents plain-IsReliable volume volume-IsSane 2 midnight first_day
      600 1 letter readme (6 ∷ []) disk (omega arith) (omega arith) refl (omega arith) (omega arith)
      (omega arith) chain behind apart (omega arith) (omega arith) (omega arith)

fat16_read-chain_bytes_example :
    (dev' : Ata (ℕ → Bytes)) × (fat16_read plain volume 700 1
        (record { entry = file readme; pos = 0 })
        disk
      ≡ (let bytes =
            chain_bytes volume
              (byte_at contents sectors)
              (get_combined_cluster 0 5 ∷ 6 ∷ [])
              (700 * 1) in
          some (length bytes, record { entry = file readme; pos = length bytes }, bytes, dev')))
unfolding get_combined_cluster
fat16_read-chain_bytes_example =
    fat16_read-chain_bytes plain contents plain-IsReliable volume volume-IsSane readme (6 ∷ []) 700
      1 disk (omega arith) (omega arith) chain near (omega arith) (omega arith)

find_entry_offset-named_example :
    (p : ℕ) × (dev' : Ata (ℕ → Bytes)) × (find_entry_offset plain volume 3 5 readme.file_name disk
      ≡ some (p, dev'))
    × IsOffset volume
        (is_named readme.file_name)
        (dir_entries plain contents plain-IsReliable volume volume-IsSane sectors)
        (5 ∷ 6 ∷ [])
        p
    × ((l i : ℕ) → contents dev'.drive l i ≡ contents sectors l i)
find_entry_offset-named_example =
    find_entry_offset-named plain contents plain-IsReliable volume volume-IsSane 3 5 (6 ∷ [])
      readme.file_name disk (omega arith) chain near (omega arith)

create_fat_entry-entry_example :
    (dev' : Ata (ℕ → Bytes)) × ((create_fat_entry plain volume 6 7 disk ≡ some (true, dev'))
      × ((other : ℕ)
          → entry plain contents plain-IsReliable volume volume-IsSane dev'.drive other
            ≡ (if other == 6 then 7 else table other)))
create_fat_entry-entry_example =
    create_fat_entry-entry plain contents plain-IsReliable volume volume-IsSane 6 7 disk
      (omega arith) (omega arith) (omega arith)

get_next_free_cluster-IsFree_example :
    (found : ℕ) × (dev' : Ata (ℕ → Bytes)) × (get_next_free_cluster plain volume partition_offset
        disk
      ≡ some (found, dev'))
    × IsFree table 3 (max_clusters - 3) found
    × ((l i : ℕ) → contents dev'.drive l i ≡ contents sectors l i)
get_next_free_cluster-IsFree_example =
    get_next_free_cluster-IsFree plain contents plain-IsReliable volume volume-IsSane disk

get_userland_filename_from_native-get_native_filename_from_userland_example :
    get_userland_filename_from_native
      (get_native_filename_from_userland (joined (0x41 ∷ 0x42 ∷ []) (0x43 ∷ [])))
    ≡ joined (0x41 ∷ 0x42 ∷ []) (0x43 ∷ [])
get_userland_filename_from_native-get_native_filename_from_userland_example =
    get_userland_filename_from_native-get_native_filename_from_userland (0x41 ∷ 0x42 ∷ [])
      (0x43 ∷ [])
      (
        ((λ e. absurd (omega arith)), (λ e. absurd (omega arith)), (λ e. absurd (omega arith))),
        (
          ((λ e. absurd (omega arith)), (λ e. absurd (omega arith)), (λ e. absurd (omega arith))),
          tt,
        ),
      )
      (((λ e. absurd (omega arith)), (λ e. absurd (omega arith))), tt) (omega arith) (omega arith)

-- A date in 1980 comes back as the year 0.
first-year :
    (get_unpacked_date (get_packed_date (record { day = 1; month = 1; year = 1980 }))).year ≡ 0
unfolding get_packed_date get_unpacked_date
first-year = refl

readme-IsEntry : IsEntry readme
readme-IsEntry = record {
  name_length = refl;
  attributes_byte = omega arith;
  reserved_byte = omega arith;
  creation_time_byte = omega arith;
  create_time_half = omega arith;
  create_date_half = omega arith;
  last_access_half = omega arith;
  high_half = omega arith;
  modification_time_half = omega arith;
  modification_date_half = omega arith;
  low_half = omega arith;
  file_size_word = omega arith;
}
