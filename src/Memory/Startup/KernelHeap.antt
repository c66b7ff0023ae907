-- ===== src/Memory/Startup/KernelHeap.antt =====
-- kernel/memory_manager.cpp: the heap that `InitializeMemoryManager` takes lies in memory that the
-- firmware's map calls available.
use uhyok_os.Base.{
  ℕ, zero, suc, ◌+◌, ◌*◌, ◌/◌, ◌%◌, ◌≤◌, ◌<◌, ◌≡◌, refl, ap, ◌∙◌, ◌⊎◌, inl, inr, true, false, not,
  List, none, some, arith, length, get_or, if◌then◌else◌,
}
use uhyok_os.Errors.{success, no_enough_memory, WithError}
use uhyok_os.Bits.{test_bit-zero}
use uhyok_os.Memory.{
  BitmapMemoryManager, bytes_per_frame, bits_per_map_line, frame_count, init, zeros, get_bit,
  set_memory_range, allocate,
}
use uhyok_os.Memory.Bitmap.{Covers, within}
use uhyok_os.Memory.Allocation.{IsValid, Taken, allocate-Allocates}
use uhyok_os.Memory.Startup.{
  MemoryDescriptor, walk, heap_frames, heap_of, Heap, initialize_heap, initialize_memory_manager,
}
use uhyok_os.Memory.Startup.Available.{IsOrdered, in_available, Walked, walk-Walked, frames}

length-zeros : (n : ℕ) → length (zeros n) ≡ n
unfolding zeros
length-zeros zero = refl
length-zeros (suc n) = ap suc (length-zeros n)

get_or-zeros : (n i : ℕ) → get_or (zeros n) i 0 ≡ 0
unfolding zeros
get_or-zeros zero i = refl
get_or-zeros (suc n) zero = refl
get_or-zeros (suc n) (suc i) = get_or-zeros n i

get_bit-init : (f : ℕ) → get_bit init f ≡ false
unfolding get_bit init
get_bit-init f =
    rw (get_or-zeros (frame_count / bits_per_map_line) (f / bits_per_map_line))
      (test_bit-zero (f % bits_per_map_line))

init-Covers : Covers frames init
unfolding init
init-Covers = record {
  lines = omega (arith, length-zeros (frame_count / bits_per_map_line));
  small = omega arith;
}

-- What the bitmap says after the loop over the map.
pub init-Walked : (ds : List MemoryDescriptor) → IsOrdered 0 ds → Walked ds 0 init (walk ds 0 init)
init-Walked ds o =
    walk-Walked ds 0 0 init init-Covers o (omega arith) refl (omega arith) (λ f h. get_bit-init f)

abbrev ranged : List MemoryDescriptor → BitmapMemoryManager
ranged ds = let (e, m) = walk ds 0 init in set_memory_range 1 (e / bytes_per_frame) m

get_bit-set_memory_range :
    (b e : ℕ) (m : BitmapMemoryManager) (f : ℕ) → get_bit (set_memory_range b e m) f ≡ get_bit m f
unfolding set_memory_range get_bit
get_bit-set_memory_range b e m f = refl

get_bit-ranged :
    (ds : List MemoryDescriptor) (f : ℕ)
    → IsOrdered 0 ds
    → f < (walk ds 0 init).0 / bytes_per_frame
    → get_bit (ranged ds) f ≡ not (in_available ds f)
get_bit-ranged ds f o h =
    get_bit-set_memory_range 1 ((walk ds 0 init).0 / bytes_per_frame) (walk ds 0 init).1 f
    ∙ (init-Walked ds o).bits f (omega arith)
    ∙ ground arith

ranged-IsValid :
    (ds : List MemoryDescriptor)
    → IsOrdered 0 ds
    → bytes_per_frame ≤ (walk ds 0 init).0
    → IsValid (ranged ds)
unfolding set_memory_range
ranged-IsValid ds o h =
    let w = init-Walked ds o in
    record {
      covers = record {
        lines = omega (arith, w.covers.lines, w.small);
        small = omega (arith, w.small);
      };
      ordered = omega arith;
    }

-- A heap of so many frames from `start` on.
abbrev pub heap_at : ℕ → Heap
heap_at start = record {
  program_break = start * bytes_per_frame;
  program_break_end = start * bytes_per_frame + heap_frames * bytes_per_frame;
}

-- Where the heap is: in available memory, above the first frame, and marked; every other frame
-- below the end of available memory is marked exactly if no available descriptor holds it.
pub record Placed (ds : List MemoryDescriptor) (start : ℕ) (m : BitmapMemoryManager) : Type 0 where
  pub above : 1 ≤ start
  pub fits : start + heap_frames ≤ m.range_end
  pub available : (f : ℕ) → start ≤ f → f < start + heap_frames → in_available ds f ≡ true
  pub bits :
      (f : ℕ)
      → f < m.range_end
      → get_bit m f ≡ (if within start heap_frames f then true else not (in_available ds f))

range-ranged :
    (ds : List MemoryDescriptor)
    → ((ranged ds).range_begin ≡ 1) × ((ranged ds).range_end ≡ (walk ds 0 init).0 / bytes_per_frame)
unfolding set_memory_range
range-ranged ds = (refl, refl)

initialize_heap-eq :
    (ds : List MemoryDescriptor) {r : WithError ℕ × BitmapMemoryManager}
    → allocate heap_frames (ranged ds) ≡ some r
    → initialize_memory_manager ds ≡ some (heap_of r)
unfolding initialize_memory_manager initialize_heap
initialize_heap-eq ds e = rw (e, initialize_heap)

Taken-Placed :
    (ds : List MemoryDescriptor) (start : ℕ) (m : BitmapMemoryManager)
    → IsOrdered 0 ds
    → Taken heap_frames (ranged ds) start m
    → Placed ds start m
Taken-Placed ds start m o t =
    let (b, e) = range-ranged ds in
    record {
      above = omega (arith, t.from, b);
      fits = omega (arith, t.upto, t.range);
      available = λ f p q.
          ground (arith, t.was_free f p q, get_bit-ranged ds f o (omega (arith, t.upto, e)));
      bits = λ f p. ground (arith, t.bits f, get_bit-ranged ds f o (omega (arith, p, t.range, e)));
    }

-- With an ordered memory map that has available memory, start-up either places the heap in
-- available memory and leaves a bitmap that marks the heap and what is not available, or finds
-- that every run of that many frames in the range touches memory that is not available.
pub initialize_memory_manager-Placed :
    (ds : List MemoryDescriptor)
    → IsOrdered 0 ds
    → bytes_per_frame ≤ (walk ds 0 init).0
    → ((start : ℕ) × (m : BitmapMemoryManager) × (initialize_memory_manager ds
          ≡ some (success, some (heap_at start), m))
        × Placed ds start m)
      ⊎ ((m : BitmapMemoryManager) × (initialize_memory_manager ds
            ≡ some (no_enough_memory, none, m))
          × ((s : ℕ)
              → 1 ≤ s
              → s + heap_frames ≤ (walk ds 0 init).0 / bytes_per_frame
              → (f : ℕ) × (s ≤ f) × (f < s + heap_frames) × (in_available ds f ≡ false)))
initialize_memory_manager-Placed ds o h =
    let (b, e) = range-ranged ds in
    elim (allocate-Allocates heap_frames (ranged-IsValid ds o h)) [
      | inl (start, m, r, t) ↦ inl (start, m, initialize_heap-eq ds r, Taken-Placed ds start m o t)
      | inr (r, blocked) ↦ inr (
        ranged ds,
        initialize_heap-eq ds r,
        λ s p q.
            let (f, lo, hi, used) = blocked s (omega (arith, b)) (omega (arith, e)) in
            (f, lo, hi, ground (arith, used, get_bit-ranged ds f o (omega arith))),
      )
    ]
