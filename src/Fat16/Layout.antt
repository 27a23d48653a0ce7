-- ===== src/Fat16/Layout.antt =====
-- The header of the volume, src/x86/include/fat16.h, and where its areas begin. Every result is a
-- `uint32_t`.
use icariusos.Base.{
  ℕ, bit_or, ◌+◌, ◌-◌, ◌*◌, ◌/◌, ◌%◌, ◌^◌, Bool, ◌&&◌, ◌||◌, not, List, get_or, leb, ◌==◌,
  if◌then◌else◌,
}

pub record Bpb : Type 0 where
  pub jmp : List ℕ
  pub oem : List ℕ
  pub byts_per_sec : ℕ
  pub sec_per_clus : ℕ
  pub rsvd_sec : ℕ
  pub num_fats : ℕ
  pub root_ent_cnt : ℕ
  pub tot_sec_16 : ℕ
  pub media : ℕ
  pub fatsz16 : ℕ
  pub sec_per_trk : ℕ
  pub num_heads : ℕ
  pub hidd_sec : ℕ
  pub tot_sec_32 : ℕ

pub record Ebpb : Type 0 where
  pub drv_num : ℕ
  pub reserved1 : ℕ
  pub boot_sig : ℕ
  pub vol_id : ℕ
  pub vol_lab : List ℕ
  pub fil_sys_type : List ℕ

abbrev pub partition_offset : ℕ
partition_offset = 0x10_0000

-- `sizeof(fat16_dir_entry_t)`
abbrev pub dir_entry_size : ℕ
dir_entry_size = 32

abbrev pub word : ℕ → ℕ
word n = n % 2 ^ 32

unfoldable pub get_root_dir_offset : Bpb → ℕ
get_root_dir_offset bpb = word (bpb.byts_per_sec * (bpb.rsvd_sec + bpb.num_fats * bpb.fatsz16))

unfoldable pub get_root_dir_absolute : Bpb → ℕ → ℕ
unfolding get_root_dir_offset
get_root_dir_absolute bpb offset = word (offset + get_root_dir_offset bpb)

unfoldable pub get_fat_table_offset : Bpb → ℕ
get_fat_table_offset bpb = word (bpb.rsvd_sec * bpb.byts_per_sec)

unfoldable pub get_fat_table_absolute : Bpb → ℕ → ℕ
unfolding get_fat_table_offset
get_fat_table_absolute bpb offset = word (offset + get_fat_table_offset bpb)

-- The sectors of the root directory, rounded up.
abbrev pub root_dir_sectors : Bpb → ℕ
root_dir_sectors bpb = (bpb.root_ent_cnt * dir_entry_size + bpb.byts_per_sec - 1) / bpb.byts_per_sec

-- `cluster - 2` is a `uint32_t` difference.
unfoldable pub get_sector_from_cluster : Bpb → ℕ → ℕ
get_sector_from_cluster bpb cluster = word (
    bpb.rsvd_sec
    + bpb.num_fats * bpb.fatsz16
    + root_dir_sectors bpb
    + word (cluster + (2 ^ 32 - 2)) * bpb.sec_per_clus)

unfoldable pub get_combined_cluster : ℕ → ℕ → ℕ
get_combined_cluster high_cluster low_cluster = bit_or (word (high_cluster * 2 ^ 16)) low_cluster

unfoldable pub is_valid_fat16_header : Bpb → Ebpb → Bool
is_valid_fat16_header bpb ebpb =
    let has_signature = (get_or bpb.jmp 0 0 == 0xEB) && (get_or bpb.jmp 2 0 == 0x90) in
    let has_header =
      has_signature
      && (bpb.byts_per_sec == 512)
      && leb 1 bpb.sec_per_clus
      && (bpb.num_fats == 2)
      && not (bpb.media == 0) in
    let has_ebpb = (ebpb.boot_sig == 0x29) && (ebpb.drv_num == 0x80) in
    let total_sectors = if bpb.tot_sec_32 == 0 then bpb.tot_sec_16 else bpb.tot_sec_32 in
    let disk_size = word (total_sectors * bpb.byts_per_sec) in
    has_header && (not has_ebpb || (not (disk_size == 0) && not (total_sectors == 0)))
