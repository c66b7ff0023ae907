-- ===== src/Acpi.antt =====
-- kernel/acpi.hpp, acpi.cpp: the tables of ACPI and the power management timer. Memory is a function
-- from addresses to bytes, and the port of the timer a sequence of readings.
pub mod Waiting
pub mod Milliseconds
mod Tests
use uhyok_os.Base.{
  ℕ, zero, suc, ◌+◌, ◌-◌, ◌*◌, ◌/◌, ◌%◌, ◌^◌, Bool, true, false, not, ◌&&◌, ◌==◌, ltb, leb,
  if◌then◌else◌, List, [], ◌∷◌, Option, none, some,
}

abbrev pub Bytes : Type 0
Bytes = ℕ → ℕ

abbrev pub read32 : Bytes → ℕ → ℕ
read32 memory p =
    memory p + memory (p + 1) * 2 ^ 8 + memory (p + 2) * 2 ^ 16 + memory (p + 3) * 2 ^ 24

abbrev pub read64 : Bytes → ℕ → ℕ
read64 memory p = read32 memory p + read32 memory (p + 4) * 2 ^ 32

-- `SumBytes`, from a sum on.
abbrev pub sum_from : Bytes → ℕ → ℕ → ℕ → ℕ
sum_from memory at sum zero = sum
sum_from memory at sum (suc n) = sum_from memory (at + 1) ((sum + memory at) % 2 ^ 8) n

abbrev pub sum_bytes : Bytes → ℕ → ℕ → ℕ
sum_bytes memory at bytes = sum_from memory at 0 bytes

-- `strncmp(…) == 0` with a signature of that length, which has no zero.
abbrev pub has_signature : Bytes → ℕ → List ℕ → Bool
has_signature memory p [] = true
has_signature memory p (c ∷ s) = (memory p == c) && has_signature memory (p + 1) s

-- "RSD PTR ", "XSDT" and "FACP".
abbrev pub rsd_ptr : List ℕ
rsd_ptr = 82 ∷ 83 ∷ 68 ∷ 32 ∷ 80 ∷ 84 ∷ 82 ∷ 32 ∷ []

abbrev pub xsdt_signature : List ℕ
xsdt_signature = 88 ∷ 83 ∷ 68 ∷ 84 ∷ []

abbrev pub facp : List ℕ
facp = 70 ∷ 65 ∷ 67 ∷ 80 ∷ []

-- The fields of `RSDP`, `DescriptionHeader` and `FADT` that are read, at their offsets.
abbrev pub revision : Bytes → ℕ → ℕ
revision memory rsdp = memory (rsdp + 15)

abbrev pub xsdt_address : Bytes → ℕ → ℕ
xsdt_address memory rsdp = read64 memory (rsdp + 24)

abbrev pub header_length : Bytes → ℕ → ℕ
header_length memory header = read32 memory (header + 4)

abbrev pub flags : Bytes → ℕ → ℕ
flags memory fadt = read32 memory (fadt + 112)

-- `RSDP::IsValid` and `DescriptionHeader::IsValid`.
abbrev pub rsdp_is_valid : Bytes → ℕ → Bool
rsdp_is_valid memory rsdp =
    if not (has_signature memory rsdp rsd_ptr)
    then false
    else if not (revision memory rsdp == 2)
    then false
    else if not (sum_bytes memory rsdp 20 == 0)
    then false
    else if not (sum_bytes memory rsdp 36 == 0)
    then false
    else true

abbrev pub header_is_valid : Bytes → ℕ → List ℕ → Bool
header_is_valid memory header expected_signature =
    if not (has_signature memory header expected_signature)
    then false
    else if not (sum_bytes memory header (header_length memory header) == 0)
    then false
    else true

-- `XSDT::operator[]` and `XSDT::Count`; a header is 36 bytes long.
abbrev pub entry : Bytes → ℕ → ℕ → ℕ
entry memory xsdt i = read64 memory (xsdt + 36 + 8 * i)

abbrev pub count : Bytes → ℕ → ℕ
count memory xsdt = (header_length memory xsdt + 2 ^ 64 - 36) % 2 ^ 64 / 8

-- The loop of `Initialize`, with `n` entries left from the entry `i`.
unfoldable pub find_fadt : Bytes → ℕ → ℕ → ℕ → Option ℕ
find_fadt memory xsdt i zero = none
find_fadt memory xsdt i (suc n) =
    let rest = find_fadt memory xsdt (i + 1) n in
    if header_is_valid memory (entry memory xsdt i) facp then some (entry memory xsdt i) else rest

-- `Initialize`: the table, or `none` where it exits.
unfoldable pub initialize : Bytes → ℕ → Option ℕ
initialize memory rsdp =
    if not (rsdp_is_valid memory rsdp)
    then none
    else if not (header_is_valid memory (xsdt_address memory rsdp) xsdt_signature)
    then none
    else find_fadt memory (xsdt_address memory rsdp) 0 (count memory (xsdt_address memory rsdp))

abbrev pub pm_timer_freq : ℕ
pm_timer_freq = 3579545

abbrev pub pm_timer_32 : ℕ → Bool
pm_timer_32 flags = flags / 2 ^ 8 % 2 == 1

-- `while (test(IoIn32(…)));` from the reading `n` on: the number of the last reading.
unfoldable pub wait_while : ℕ → (ℕ → Bool) → (ℕ → ℕ) → ℕ → Option ℕ
wait_while zero test port n = none
wait_while (suc fuel) test port n =
    let rest = wait_while fuel test port (n + 1) in if test (port n) then rest else some n

-- The reading that `WaitMilliseconds` waits for.
abbrev pub end_of : Bool → ℕ → ℕ → ℕ
end_of wide start msec =
    let end = (start + pm_timer_freq * msec % 2 ^ 64 / 1000) % 2 ^ 64 % 2 ^ 32 in
    if wide then end else end % 2 ^ 24

-- `WaitMilliseconds`, with `fuel` for each of its loops.
unfoldable pub wait_milliseconds : ℕ → ℕ → (ℕ → ℕ) → ℕ → Option ℕ
wait_milliseconds fuel flags port msec =
    let start = port 0 in
    let end = end_of (pm_timer_32 flags) start msec in
    if ltb end start
    then elim (wait_while fuel (λ t. leb start t) port 1) [
      | none ↦ none
      | some n ↦ wait_while fuel (λ t. ltb t end) port (n + 1)
    ]
    else wait_while fuel (λ t. ltb t end) port 1
