-- ===== src/Memory.antt =====
-- kernel/memory_manager.hpp and kernel/memory_manager.cpp: physical frames managed by a bitmap.
-- A `FrameID` is its number. An access outside the bitmap is undefined in the source; here it reads
-- 0 and writes nothing, and the theorems keep it out.
pub mod Bitmap
pub mod Allocation
pub mod Startup
mod Tests
use uhyok_os.Base.{
  ℕ, zero, suc, ◌+◌, ◌-◌, ◌*◌, ◌/◌, ◌%◌, ◌^◌, Bool, true, false, List, Option, none, some, add64,
  leb, get_or, set, if◌then◌else◌, [], ◌∷◌,
}
use uhyok_os.Bits.{test_bit, raise_bit, lower_bit}
use uhyok_os.Errors.{Code, success, no_enough_memory, WithError}

-- `kBitsPerMapLine`, the bits of an `unsigned long`.
abbrev pub bits_per_map_line : ℕ
bits_per_map_line = 64

abbrev pub bytes_per_frame : ℕ
bytes_per_frame = 4096

-- `kFrameCount`: 128 GiB in frames.
abbrev pub frame_count : ℕ
frame_count = 2 ^ 37 / bytes_per_frame

-- `kNullFrame`.
abbrev pub null_frame : ℕ
null_frame = 2 ^ 64 - 1

pub record BitmapMemoryManager : Type 0 where
  pub alloc_map : List ℕ
  pub range_begin : ℕ
  pub range_end : ℕ

-- A map of so many lines with every frame free.
pub zeros : ℕ → List ℕ
zeros zero = []
zeros (suc n) = 0 ∷ zeros n

-- The constructor.
pub init : BitmapMemoryManager
init = record {
  alloc_map = zeros (frame_count / bits_per_map_line);
  range_begin = 0;
  range_end = frame_count;
}

pub get_bit : BitmapMemoryManager → ℕ → Bool
get_bit m frame =
    test_bit (get_or m.alloc_map (frame / bits_per_map_line) 0) (frame % bits_per_map_line)

pub set_bit : BitmapMemoryManager → ℕ → Bool → BitmapMemoryManager
set_bit m frame allocated =
    let line_index = frame / bits_per_map_line in
    let bit_index = frame % bits_per_map_line in
    let line = get_or m.alloc_map line_index 0 in
    record m {
      alloc_map =
          set m.alloc_map line_index
            (if allocated then raise_bit line bit_index else lower_bit 64 line bit_index);
    }

-- `for (; i < num_frames; ++i) SetBit(FrameID{start + i}, allocated)`, with so many rounds left.
pub set_bits : ℕ → ℕ → ℕ → Bool → BitmapMemoryManager → BitmapMemoryManager
set_bits zero i start allocated m = m
set_bits (suc rounds) i start allocated m =
    set_bits rounds (i + 1) start allocated (set_bit m (add64 start i) allocated)

pub mark_allocated : ℕ → ℕ → BitmapMemoryManager → BitmapMemoryManager
mark_allocated start num_frames m = set_bits num_frames 0 start true m

pub free : ℕ → ℕ → BitmapMemoryManager → Code × BitmapMemoryManager
free start num_frames m = (success, set_bits num_frames 0 start false m)

pub set_memory_range : ℕ → ℕ → BitmapMemoryManager → BitmapMemoryManager
set_memory_range begin end m = record m { range_begin = begin; range_end = end }

-- How the inner loop of `Allocate` ends: at the end of the range, at a frame in use, or with all
-- frames seen to be free.
pub data Scan : Type 0 where
  past_end all_free : Scan
  in_use : ℕ → Scan

pub scan : ℕ → ℕ → ℕ → BitmapMemoryManager → Scan
scan zero i start m = all_free
scan (suc rounds) i start m =
    let rest = scan rounds (i + 1) start m in
    if leb m.range_end (add64 start i)
    then past_end
    else if get_bit m (add64 start i)
    then in_use i
    else rest

-- `while (true)` on fuel; `none` is its end.
pub search : ℕ → ℕ → ℕ → BitmapMemoryManager → Option (WithError ℕ × BitmapMemoryManager)
search zero start num_frames m = none
search (suc fuel) start num_frames m = elim (scan num_frames 0 start m) [
  | past_end ↦ some (record { value = null_frame; error = no_enough_memory }, m)
  | all_free ↦ some (record { value = start; error = success }, mark_allocated start num_frames m)
  | in_use i ↦ search fuel (add64 start (i + 1)) num_frames m
]

-- `Allocate`. Every round starts further on in the range, so its size bounds the rounds.
pub allocate : ℕ → BitmapMemoryManager → Option (WithError ℕ × BitmapMemoryManager)
allocate num_frames m = search (suc (m.range_end - m.range_begin)) m.range_begin num_frames m
