-- ===== src/Memory/Tests.antt =====
-- kernel/memory_manager.cpp: small bitmaps, and the theorems at inputs that they cover.
use uhyok_os.Base.{
  ℕ, ◌+◌, ◌/◌, ◌≤◌, ◌<◌, ◌≡◌, ◌⊎◌, refl, false, List, [], ◌∷◌, none, some, arith, if◌then◌else◌,
}
use uhyok_os.Errors.{success, no_enough_memory}
use uhyok_os.Memory.{
  BitmapMemoryManager, bytes_per_frame, get_bit, set_bit, set_bits, mark_allocated, free, allocate,
  scan, search, init,
}
use uhyok_os.Memory.Bitmap.{within}
use uhyok_os.Memory.Allocation.{IsValid, Allocates, allocate-Allocates, free-bits, free-allocate}
use uhyok_os.Memory.Startup.{MemoryDescriptor, walk, heap_frames, initialize_memory_manager}
use uhyok_os.Memory.Startup.Available.{in_available}
use uhyok_os.Memory.Startup.KernelHeap.{Placed, heap_at, initialize_memory_manager-Placed}

-- Frames 0 and 2 of 128 are in use.
abbrev small : BitmapMemoryManager
small = record { alloc_map = 5 ∷ 0 ∷ []; range_begin = 0; range_end = 128 }

abbrev taken : BitmapMemoryManager
taken = record { alloc_map = 29 ∷ 0 ∷ []; range_begin = 0; range_end = 128 }

small-IsValid : IsValid small
small-IsValid = record {
  covers = record { lines = omega arith; small = omega arith };
  ordered = omega arith;
}

allocate-small : allocate 2 small ≡ some (record { value = 3; error = success }, taken)
unfolding allocate search scan get_bit mark_allocated set_bits set_bit
allocate-small = refl

allocate-Allocates_example : Allocates 2 small (allocate 2 small)
allocate-Allocates_example = allocate-Allocates 2 small-IsValid

free-bits_example :
    ((f : ℕ) → get_bit (free 0 3 small).1 f ≡ (if within 0 3 f then false else get_bit small f))
    × IsValid (free 0 3 small).1
free-bits_example = free-bits 0 3 small-IsValid (omega arith)

free-allocate_example : get_bit (free 3 2 taken).1 4 ≡ get_bit small 4
free-allocate_example = free-allocate 2 3 small-IsValid allocate-small 4

-- 256 MiB of conventional memory above 1 MiB that is reserved.
abbrev map : List MemoryDescriptor
map =
    record { kind = 0; physical_start = 0; number_of_pages = 256 }
    ∷ record { kind = 7; physical_start = 1048576; number_of_pages = 65536 }
    ∷ []

map-end : bytes_per_frame ≤ (walk map 0 init).0
unfolding walk
map-end = omega arith

initialize_memory_manager-Placed_example :
    ((start : ℕ) × (m : BitmapMemoryManager) × (initialize_memory_manager map
        ≡ some (success, some (heap_at start), m))
      × Placed map start m)
    ⊎ ((m : BitmapMemoryManager) × (initialize_memory_manager map
          ≡ some (no_enough_memory, none, m))
        × ((s : ℕ)
            → 1 ≤ s
            → s + heap_frames ≤ (walk map 0 init).0 / bytes_per_frame
            → (f : ℕ) × (s ≤ f) × (f < s + heap_frames) × (in_available map f ≡ false)))
initialize_memory_manager-Placed_example =
    initialize_memory_manager-Placed map (omega arith) map-end
