-- ===== src/Fat.antt =====
-- kernel/fat.hpp, fat.cpp, and the directory listing of terminal.cpp: where clusters stand, and the
-- names of directory entries.
pub mod Names
pub mod Listing
mod Tests
use uhyok_os.Base.{
  ℕ, zero, suc, ◌+◌, ◌-◌, ◌*◌, ◌/◌, ◌%◌, ◌^◌, Bool, true, false, ◌==◌, if◌then◌else◌, List, [], ◌∷◌,
  ◌++◌, get_or, set, take, drop, length,
}
use uhyok_os.Terminal.{c_string}

-- `BPB`, with its arrays of bytes as lists.
pub record Bpb : Type 0 where
  pub jump_boot : List ℕ
  pub oem_name : List ℕ
  pub bytes_per_sector : ℕ
  pub sectors_per_cluster : ℕ
  pub reserved_sector_count : ℕ
  pub num_fats : ℕ
  pub root_entry_count : ℕ
  pub total_sectors_16 : ℕ
  pub media : ℕ
  pub fat_size_16 : ℕ
  pub sectors_per_track : ℕ
  pub num_heads : ℕ
  pub hidden_sectors : ℕ
  pub total_sectors_32 : ℕ
  pub fat_size_32 : ℕ
  pub ext_flags : ℕ
  pub fs_version : ℕ
  pub root_cluster : ℕ
  pub fs_info : ℕ
  pub backup_boot_sector : ℕ
  pub reserved : List ℕ
  pub drive_number : ℕ
  pub reserved1 : ℕ
  pub boot_signature : ℕ
  pub volume_id : ℕ
  pub volume_label : List ℕ
  pub fs_type : List ℕ

pub record DirectoryEntry : Type 0 where
  pub name : List ℕ
  pub attr : ℕ
  pub ntres : ℕ
  pub create_time_tenth : ℕ
  pub create_time : ℕ
  pub create_date : ℕ
  pub last_access_date : ℕ
  pub first_cluster_high : ℕ
  pub write_time : ℕ
  pub write_date : ℕ
  pub first_cluster_low : ℕ
  pub file_size : ℕ

abbrev pub first_cluster : DirectoryEntry → ℕ
first_cluster e = e.first_cluster_low + e.first_cluster_high * 2 ^ 16

abbrev pub long_name : ℕ
long_name = 0x0f

-- `GetClusterAddr`: the first sum is of 32 bits, the rest of 64.
abbrev pub get_cluster_addr : Bpb → ℕ → ℕ → ℕ
get_cluster_addr bpb image cluster =
    let sector_num =
      ((bpb.reserved_sector_count + bpb.num_fats * bpb.fat_size_32) % 2 ^ 32
        + (cluster + 2 ^ 64 - 2) % 2 ^ 64 * bpb.sectors_per_cluster)
      % 2 ^ 64 in
    (image + sector_num * bpb.bytes_per_sector % 2 ^ 64) % 2 ^ 64

-- The loop over the spaces at the end of an array, from index `i - 1` down.
unfoldable pub trim : ℕ → List ℕ → List ℕ
trim zero name = name
trim (suc i) name =
    let rest = trim i (set name i 0) in if get_or name i 0 == 0x20 then rest else name

-- `ReadName`: the arrays of 9 and 4 bytes.
abbrev pub read_base : DirectoryEntry → List ℕ
read_base e = trim 8 (take 8 e.name ++ 0 ∷ [])

abbrev pub read_ext : DirectoryEntry → List ℕ
read_ext e = trim 3 (take 3 (drop 8 e.name) ++ 0 ∷ [])

-- What the command `ls` prints of an entry: "%s.%s\n" or "%s\n".
abbrev pub entry_line : DirectoryEntry → List ℕ
entry_line e =
    if get_or (read_ext e) 0 0 == 0
    then c_string (read_base e) ++ 10 ∷ []
    else c_string (read_base e) ++ 46 ∷ c_string (read_ext e) ++ 10 ∷ []

-- The loop of `ls` over the entries of a cluster.
unfoldable pub list_directory : List DirectoryEntry → List (List ℕ)
list_directory [] = []
list_directory (e ∷ entries) =
    let rest = list_directory entries in
    if get_or (read_base e) 0 0 == 0
    then []
    else if get_or (read_base e) 0 0 == 0xe5
    then rest
    else if e.attr == long_name
    then rest
    else entry_line e ∷ rest

abbrev pub entries_per_cluster : Bpb → ℕ
entries_per_cluster bpb = bpb.bytes_per_sector / 32 * bpb.sectors_per_cluster
