-- ===== src/Memory/Startup.antt =====
-- kernel/memory_map.hpp and the end of kernel/memory_manager.cpp: the bitmap built from the
-- firmware's memory map, and the kernel's heap taken from it.
pub mod Available
pub mod KernelHeap
use uhyok_os.Base.{
  ℕ, ◌+◌, ◌-◌, ◌*◌, ◌/◌, ◌^◌, ◌%◌, Bool, true, false, ◌||◌, List, [], ◌∷◌, Option, none, some,
  add64, ltb, ◌==◌, if◌then◌else◌,
}
use uhyok_os.Errors.{Code, success, no_enough_memory, WithError, is_error}
use uhyok_os.Memory.{
  BitmapMemoryManager, bytes_per_frame, init, mark_allocated, set_memory_range, allocate,
}

-- `MemoryDescriptor`, the fields that are read.
pub record MemoryDescriptor : Type 0 where
  pub kind : ℕ
  pub physical_start : ℕ
  pub number_of_pages : ℕ

-- The members of `MemoryType` that `IsAvailable` names, by their places in the enumeration.
abbrev pub efi_boot_services_code : ℕ
efi_boot_services_code = 3

abbrev pub efi_boot_services_data : ℕ
efi_boot_services_data = 4

abbrev pub efi_conventional_memory : ℕ
efi_conventional_memory = 7

abbrev pub is_available : ℕ → Bool
is_available kind =
    kind == efi_boot_services_code
    || kind == efi_boot_services_data
    || kind == efi_conventional_memory

-- `kUEFIPageSize`.
abbrev pub uefi_page_size : ℕ
uefi_page_size = 4096

abbrev pub physical_end : MemoryDescriptor → ℕ
physical_end d = add64 d.physical_start (d.number_of_pages * uefi_page_size % 2 ^ 64)

-- The body of the loop up to `physical_end`: the gap below the descriptor is marked.
pub mark_gap : ℕ → MemoryDescriptor → BitmapMemoryManager → BitmapMemoryManager
mark_gap available_end d m =
    if ltb available_end d.physical_start
    then mark_allocated (available_end / bytes_per_frame)
        ((d.physical_start - available_end) / bytes_per_frame) m
    else m

-- The rest of it for memory that is not available.
pub mark_descriptor : MemoryDescriptor → BitmapMemoryManager → BitmapMemoryManager
mark_descriptor d m =
    mark_allocated (d.physical_start / bytes_per_frame)
      (d.number_of_pages * uefi_page_size % 2 ^ 64 / bytes_per_frame) m

-- The loop over the memory map: the end of the available memory, and the bitmap.
unfoldable pub walk : List MemoryDescriptor → ℕ → BitmapMemoryManager → ℕ × BitmapMemoryManager
walk [] available_end m = (available_end, m)
walk (d ∷ ds) available_end m =
    if is_available d.kind
    then walk ds (physical_end d) (mark_gap available_end d m)
    else walk ds available_end (mark_descriptor d (mark_gap available_end d m))

-- `kHeapFrames`.
abbrev pub heap_frames : ℕ
heap_frames = 64 * 512

-- `program_break` and `program_break_end`.
pub record Heap : Type 0 where
  pub program_break : ℕ
  pub program_break_end : ℕ

abbrev pub heap_of : WithError ℕ × BitmapMemoryManager → Code × Option Heap × BitmapMemoryManager
heap_of (r, m) = if is_error r.error then (r.error, none, m) else (
  success,
  some (record {
    program_break = r.value * bytes_per_frame;
    program_break_end = r.value * bytes_per_frame + heap_frames * bytes_per_frame;
  }),
  m,
)

pub initialize_heap : BitmapMemoryManager → Option (Code × Option Heap × BitmapMemoryManager)
initialize_heap m = elim (allocate heap_frames m) [ none ↦ none | some r ↦ some (heap_of r) ]

-- `InitializeMemoryManager` over the descriptors of the map.
pub initialize_memory_manager :
    List MemoryDescriptor → Option (Code × Option Heap × BitmapMemoryManager)
initialize_memory_manager ds =
    let (available_end, m) = walk ds 0 init in
    initialize_heap (set_memory_range 1 (available_end / bytes_per_frame) m)
