-- ===== src/Fat/Tests.antt =====
-- kernel/fat.cpp: a directory at concrete entries.
use uhyok_os.Base.{ℕ, ◌≡◌, ◌≢◌, ◌≤◌, refl, [], ◌∷◌, take, drop, arith}
use uhyok_os.Terminal.{c_string}
use uhyok_os.Fat.{DirectoryEntry, read_base, read_ext, list_directory, trim}
use uhyok_os.Fat.Names.{Trimmed, read_name-Trimmed}

-- "KERNEL  ELF"
abbrev kernel : DirectoryEntry
kernel = record {
  name = 75 ∷ 69 ∷ 82 ∷ 78 ∷ 69 ∷ 76 ∷ 32 ∷ 32 ∷ 69 ∷ 76 ∷ 70 ∷ [];
  attr = 0x20;
  ntres = 0;
  create_time_tenth = 0;
  create_time = 0;
  create_date = 0;
  last_access_date = 0;
  first_cluster_high = 0;
  write_time = 0;
  write_date = 0;
  first_cluster_low = 3;
  file_size = 1;
}

listed :
    list_directory (kernel ∷ []) ≡ (75 ∷ 69 ∷ 82 ∷ 78 ∷ 69 ∷ 76 ∷ 46 ∷ 69 ∷ 76 ∷ 70 ∷ 10 ∷ []) ∷ []
unfolding list_directory trim
listed = refl

read_name-Trimmed_example :
    Trimmed (take 8 kernel.name) (c_string (read_base kernel))
    × Trimmed (drop 8 kernel.name) (c_string (read_ext kernel))
read_name-Trimmed_example = read_name-Trimmed kernel refl (
  differ 75 (omega arith),
  (
    differ 69 (omega arith),
    (
      differ 82 (omega arith),
      (
        differ 78 (omega arith),
        (
          differ 69 (omega arith),
          (
            differ 76 (omega arith),
            (
              differ 32 (omega arith),
              (
                differ 32 (omega arith),
                (differ 69 (omega arith), (differ 76 (omega arith), (differ 70 (omega arith), tt))),
              ),
            ),
          ),
        ),
      ),
    ),
  ),
)
  where
    differ : (n : ℕ) → 1 ≤ n → n ≢ 0
    differ n l e = omega (arith, e, l)
