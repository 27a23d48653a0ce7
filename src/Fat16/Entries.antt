-- ===== src/Fat16/Entries.antt =====
-- Directory entries, `fat16_dir_entry_t`: the packed structure and its 32 bytes on the disk, little
-- end first; and the nodes and descriptors that hold them. A pointer that may be null is an `Option`.
use icariusos.Base.{
  ℕ, zero, suc, ◌+◌, ◌*◌, ◌/◌, ◌%◌, ◌^◌, ◌<◌, ◌≡◌, refl, ap, arith, Bool, List, [], ◌∷◌, ◌++◌,
  length, take, drop, get_or, Option, none, some, ◌==◌, ◌||◌,
}
use icariusos.Fat16.Layout.{get_combined_cluster}

pub record DirEntry : Type 0 where
  pub file_name : List ℕ
  pub attributes : ℕ
  pub reserved : ℕ
  pub creation_time_ms : ℕ
  pub create_time : ℕ
  pub create_date : ℕ
  pub last_access_date : ℕ
  pub high_cluster : ℕ
  pub modification_time : ℕ
  pub modification_date : ℕ
  pub low_cluster : ℕ
  pub file_size : ℕ

abbrev pub directory : ℕ
directory = 0x10

abbrev pub archive : ℕ
archive = 0x20

abbrev pub deleted : ℕ
deleted = 0xE5

abbrev half_at : List ℕ → ℕ → ℕ
half_at bytes i = get_or bytes i 0 + get_or bytes (i + 1) 0 * 2 ^ 8

abbrev half_bytes : ℕ → List ℕ
half_bytes n = (n % 256) ∷ (n / 256 % 256) ∷ []

-- The entry that stands in 32 bytes, and the bytes of an entry.
unfoldable pub entry_from : List ℕ → DirEntry
entry_from bytes =
    let fields = drop 11 bytes in
    record {
      file_name = take 11 bytes;
      attributes = get_or fields 0 0;
      reserved = get_or fields 1 0;
      creation_time_ms = get_or fields 2 0;
      create_time = half_at fields 3;
      create_date = half_at fields 5;
      last_access_date = half_at fields 7;
      high_cluster = half_at fields 9;
      modification_time = half_at fields 11;
      modification_date = half_at fields 13;
      low_cluster = half_at fields 15;
      file_size = half_at fields 17 + half_at fields 19 * 2 ^ 16;
    }

unfoldable pub entry_bytes : DirEntry → List ℕ
entry_bytes e =
    e.file_name
    ++ ((e.attributes % 256)
        ∷ (e.reserved % 256)
        ∷ (e.creation_time_ms % 256)
        ∷ (half_bytes e.create_time
            ++ half_bytes e.create_date
            ++ half_bytes e.last_access_date
            ++ half_bytes e.high_cluster
            ++ half_bytes e.modification_time
            ++ half_bytes e.modification_date
            ++ half_bytes e.low_cluster
            ++ half_bytes e.file_size
            ++ half_bytes (e.file_size / 2 ^ 16)))

-- The fields are as wide as those of the structure.
pub record IsEntry (e : DirEntry) : Type 0 where
  pub name_length : length e.file_name ≡ 11
  pub attributes_byte : e.attributes < 2 ^ 8
  pub reserved_byte : e.reserved < 2 ^ 8
  pub creation_time_byte : e.creation_time_ms < 2 ^ 8
  pub create_time_half : e.create_time < 2 ^ 16
  pub create_date_half : e.create_date < 2 ^ 16
  pub last_access_half : e.last_access_date < 2 ^ 16
  pub high_half : e.high_cluster < 2 ^ 16
  pub modification_time_half : e.modification_time < 2 ^ 16
  pub modification_date_half : e.modification_date < 2 ^ 16
  pub low_half : e.low_cluster < 2 ^ 16
  pub file_size_word : e.file_size < 2 ^ 32

-- `file_name[0]` is FREE or DELETED.
abbrev pub is_free : DirEntry → Bool
is_free e = (get_or e.file_name 0 0 == 0) || (get_or e.file_name 0 0 == deleted)

pub record Folder : Type 0 where
  pub entry : Option DirEntry
  pub total : ℕ
  pub start_sector : ℕ
  pub end_sector : ℕ

-- `fat16_node_t`: the union and its tag.
pub data Node : Type 0 where
  file : DirEntry → Node
  dir : Folder → Node

pub record Descriptor : Type 0 where
  pub entry : Node
  pub pos : ℕ

-- The entry of a directory is read through its pointer.
unfoldable pub get_cluster_from_descriptor : Node → Option ℕ
get_cluster_from_descriptor (file e) = some (get_combined_cluster e.high_cluster e.low_cluster)
get_cluster_from_descriptor (dir folder) = elim folder.entry [
  | none ↦ none
  | some e ↦ some (get_combined_cluster e.high_cluster e.low_cluster)
]

take-length : (xs ys : List ℕ) (n : ℕ) → length xs ≡ n → take n (xs ++ ys) ≡ xs
take-length [] ys zero h = refl
take-length [] ys (suc n) h = absurd (omega arith)
take-length (x ∷ xs) ys zero h = absurd (omega arith)
take-length (x ∷ xs) ys (suc n) h = ap (λ l. x ∷ l) (take-length xs ys n (omega arith))

drop-length : (xs ys : List ℕ) (n : ℕ) → length xs ≡ n → drop n (xs ++ ys) ≡ ys
drop-length [] ys zero h = refl
drop-length [] ys (suc n) h = absurd (omega arith)
drop-length (x ∷ xs) ys zero h = absurd (omega arith)
drop-length (x ∷ xs) ys (suc n) h = drop-length xs ys n (omega arith)

byte_lem : (n : ℕ) → n < 2 ^ 8 → n % 256 ≡ n
byte_lem n h = omega arith

half_lem : (n : ℕ) → n < 2 ^ 16 → n % 256 + n / 256 % 256 * 2 ^ 8 ≡ n
half_lem n h = omega arith

word_lem :
    (n : ℕ)
    → n < 2 ^ 32
    → n % 256 + n / 256 % 256 * 2 ^ 8 + (n / 2 ^ 16 % 256 + n / 2 ^ 16 / 256 % 256 * 2 ^ 8) * 2 ^ 16
      ≡ n
word_lem n h = omega arith

-- An entry with fields of the structure's widths is read back from its bytes.
pub entry_from-entry_bytes : (e : DirEntry) → IsEntry e → entry_from (entry_bytes e) ≡ e
unfolding entry_from entry_bytes
entry_from-entry_bytes e valid = rw (
  take-length e.file_name _ 11 valid.name_length,
  drop-length e.file_name _ 11 valid.name_length,
  byte_lem e.attributes valid.attributes_byte,
  byte_lem e.reserved valid.reserved_byte,
  byte_lem e.creation_time_ms valid.creation_time_byte,
  half_lem e.create_time valid.create_time_half,
  half_lem e.create_date valid.create_date_half,
  half_lem e.last_access_date valid.last_access_half,
  half_lem e.high_cluster valid.high_half,
  half_lem e.modification_time valid.modification_time_half,
  half_lem e.modification_date valid.modification_date_half,
  half_lem e.low_cluster valid.low_half,
  word_lem e.file_size valid.file_size_word,
)
