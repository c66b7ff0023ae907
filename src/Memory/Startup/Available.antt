-- ===== src/Memory/Startup/Available.antt =====
-- kernel/memory_manager.cpp: below the end of the available memory, the bitmap built from an ordered
-- memory map marks exactly the frames that no available descriptor holds.
use uhyok_os.Base.{
  ℕ, ◌+◌, ◌-◌, ◌*◌, ◌/◌, ◌%◌, ◌^◌, ◌≤◌, ◌<◌, ◌≡◌, refl, ap, ◌∙◌, inl, inr, Bool, true, false, not,
  ◌&&◌, ◌||◌, List, [], ◌∷◌, arith, ltb, leb, if◌then◌else◌, Bool-cases,
}
use uhyok_os.Memory.{BitmapMemoryManager, bytes_per_frame, get_bit, mark_allocated}
use uhyok_os.Memory.Bitmap.{Covers, within, get_bit-set_bits, set_bits-Covers}
use uhyok_os.Memory.Startup.{
  MemoryDescriptor, is_available, uefi_page_size, physical_end, mark_gap, mark_descriptor, walk,
}

-- The memory that the bitmap can describe.
abbrev pub max_physical_memory : ℕ
max_physical_memory = 2 ^ 37

abbrev pub end_of : MemoryDescriptor → ℕ
end_of d = d.physical_start + d.number_of_pages * uefi_page_size

-- The descriptors lie above the address, in order, apart, at page boundaries and in the bitmap.
abbrev pub IsOrdered : ℕ → List MemoryDescriptor → Type 0
IsOrdered low [] = Unit {0}
IsOrdered low (d ∷ ds) =
    (low ≤ d.physical_start)
    × (d.physical_start % uefi_page_size ≡ 0)
    × (end_of d ≤ max_physical_memory)
    × IsOrdered (end_of d) ds

abbrev pub holds_frame : MemoryDescriptor → ℕ → Bool
holds_frame d f = leb d.physical_start (f * bytes_per_frame) && ltb (f * bytes_per_frame) (end_of d)

-- An available descriptor of the map holds the frame.
abbrev pub in_available : List MemoryDescriptor → ℕ → Bool
in_available [] f = false
in_available (d ∷ ds) f = is_available d.kind && holds_frame d f || in_available ds f

-- No descriptor holds a frame below all of them.
in_available-below :
    (ds : List MemoryDescriptor) (low f : ℕ)
    → IsOrdered low ds
    → f * bytes_per_frame < low
    → in_available ds f ≡ false
in_available-below [] low f o h = refl
in_available-below (d ∷ ds) low f o h =
    ground (arith, in_available-below ds (end_of d) f o.3 (omega arith))

get_bit-mark_allocated :
    (start n bound : ℕ) (m : BitmapMemoryManager) (f : ℕ)
    → Covers bound m
    → start + n ≤ bound
    → get_bit (mark_allocated start n m) f ≡ (if within start n f then true else get_bit m f)
unfolding mark_allocated
get_bit-mark_allocated start n bound m f c h =
    let e : start + 0 ≡ start = omega arith in
    get_bit-set_bits n 0 start bound true m f c (omega arith)
    ∙ ap (λ k. if within k n f then true else get_bit m f) e

mark_allocated-Covers :
    {bound : ℕ} (start n : ℕ) {m : BitmapMemoryManager}
    → Covers bound m
    → Covers bound (mark_allocated start n m)
unfolding mark_allocated
mark_allocated-Covers start n c = set_bits-Covers n 0 start true c

-- `kFrameCount`, a bound on the frames.
abbrev pub frames : ℕ
frames = max_physical_memory / bytes_per_frame

mark_gap-Covers :
    (e : ℕ) (d : MemoryDescriptor) {m : BitmapMemoryManager}
    → Covers frames m
    → Covers frames (mark_gap e d m)
unfolding mark_gap
mark_gap-Covers e d {m} c = elim (Bool-cases (ltb e d.physical_start)) [
  | inl p ↦ rw p (mark_allocated-Covers _ _ c)
  | inr p ↦ rw p c
]

mark_descriptor-Covers :
    (d : MemoryDescriptor) {m : BitmapMemoryManager}
    → Covers frames m
    → Covers frames (mark_descriptor d m)
unfolding mark_descriptor
mark_descriptor-Covers d c = mark_allocated-Covers _ _ c

module _ (e : ℕ) (d : MemoryDescriptor) (m : BitmapMemoryManager) (f : ℕ) (c : Covers frames m)
    (aligned : d.physical_start % uefi_page_size ≡ 0) (small : end_of d ≤ max_physical_memory) where
  get_bit-mark_gap :
      e % uefi_page_size ≡ 0
      → e ≤ d.physical_start
      → get_bit (mark_gap e d m) f ≡ (
          if leb e (f * bytes_per_frame) && ltb (f * bytes_per_frame) d.physical_start
          then true
          else get_bit m f)
  unfolding mark_gap
  get_bit-mark_gap at le = ground (
    arith,
    get_bit-mark_allocated (e / bytes_per_frame) ((d.physical_start - e) / bytes_per_frame) frames m
        f c,
  )

  get_bit-mark_descriptor :
      get_bit (mark_descriptor d m) f ≡ (if holds_frame d f then true else get_bit m f)
  unfolding mark_descriptor
  get_bit-mark_descriptor = ground (
    arith,
    get_bit-mark_allocated (d.physical_start / bytes_per_frame)
        (d.number_of_pages * uefi_page_size % 2 ^ 64 / bytes_per_frame) frames m f c,
  )

abbrev pub ClearFrom : ℕ → BitmapMemoryManager → Type 0
ClearFrom low m = (f : ℕ) → low ≤ f * bytes_per_frame → get_bit m f ≡ false

-- The loop from a point on: what it leaves below `e` is as it was, and above it the frames outside
-- available memory are marked.
pub record Walked (ds : List MemoryDescriptor) (e : ℕ) (m : BitmapMemoryManager)
    (r : ℕ × BitmapMemoryManager) : Type 0 where
  pub up : e ≤ r.0
  pub aligned : r.0 % uefi_page_size ≡ 0
  pub small : r.0 ≤ max_physical_memory
  pub covers : Covers frames r.1
  pub bits :
      (f : ℕ)
      → f * bytes_per_frame < r.0
      → get_bit r.1 f
        ≡ (if ltb (f * bytes_per_frame) e then get_bit m f else not (in_available ds f))

available-Walked :
    (d : MemoryDescriptor) (ds : List MemoryDescriptor) (e : ℕ) (m : BitmapMemoryManager)
    (r : ℕ × BitmapMemoryManager)
    → Covers frames m
    → e % uefi_page_size ≡ 0
    → e ≤ d.physical_start
    → d.physical_start % uefi_page_size ≡ 0
    → end_of d ≤ max_physical_memory
    → IsOrdered (end_of d) ds
    → is_available d.kind ≡ true
    → ClearFrom d.physical_start m
    → Walked ds (end_of d) (mark_gap e d m) r
    → Walked (d ∷ ds) e m r
available-Walked d ds e m r c ae le ad sd o av clear w = record {
  up = omega (arith, w.up);
  aligned = w.aligned;
  small = w.small;
  covers = w.covers;
  bits = λ f h. ground (
    arith,
    w.bits f h,
    get_bit-mark_gap e d m f c ad sd ae le,
    av,
    clear f,
    in_available-below ds (end_of d) f o,
  );
}

unavailable-Walked :
    (d : MemoryDescriptor) (ds : List MemoryDescriptor) (e : ℕ) (m : BitmapMemoryManager)
    (r : ℕ × BitmapMemoryManager)
    → Covers frames m
    → e % uefi_page_size ≡ 0
    → e ≤ d.physical_start
    → d.physical_start % uefi_page_size ≡ 0
    → end_of d ≤ max_physical_memory
    → is_available d.kind ≡ false
    → Walked ds e (mark_descriptor d (mark_gap e d m)) r
    → Walked (d ∷ ds) e m r
unavailable-Walked d ds e m r c ae le ad sd av w = record {
  up = w.up;
  aligned = w.aligned;
  small = w.small;
  covers = w.covers;
  bits = λ f h. ground (
    arith,
    w.bits f h,
    get_bit-mark_descriptor e d (mark_gap e d m) f (mark_gap-Covers e d c) ad sd,
    get_bit-mark_gap e d m f c ad sd ae le,
    av,
  );
}

pub walk-Walked :
    (ds : List MemoryDescriptor) (low e : ℕ) (m : BitmapMemoryManager)
    → Covers frames m
    → IsOrdered low ds
    → e ≤ low
    → e % uefi_page_size ≡ 0
    → e ≤ max_physical_memory
    → ClearFrom low m
    → Walked ds e m (walk ds e m)
unfolding walk
walk-Walked [] low e m c o le ae se clear = record {
  up = omega arith;
  aligned = ae;
  small = se;
  covers = c;
  bits = λ f h. ground arith;
}
walk-Walked (d ∷ ds) low e m c o le ae se clear = elim (Bool-cases (is_available d.kind)) [
  | inl av ↦
      let p : physical_end d ≡ end_of d = omega (arith, o.2) in
      rw (av, p)
        (available-Walked d ds e m _ c ae (omega (arith, o.0)) o.1 o.2 o.3 av
          (λ f h. clear f (omega (arith, o.0)))
          (walk-Walked ds (end_of d) (end_of d) (mark_gap e d m) (mark_gap-Covers e d c) o.3
            (omega arith) (omega (arith, o.1)) o.2
            λ f h. ground (
              arith,
              clear f (omega (arith, o.0)),
              get_bit-mark_gap e d m f c o.1 o.2 ae (omega (arith, o.0)),
            )))
  | inr av ↦ rw av (
      unavailable-Walked d ds e m _ c ae (omega (arith, o.0)) o.1 o.2 av (
        walk-Walked ds (end_of d) e (mark_descriptor d (mark_gap e d m))
          (mark_descriptor-Covers d (mark_gap-Covers e d c)) o.3 (omega (arith, o.0)) ae se
          λ f h. ground (
            arith,
            clear f (omega (arith, o.0)),
            get_bit-mark_descriptor e d (mark_gap e d m) f (mark_gap-Covers e d c) o.1 o.2,
            get_bit-mark_gap e d m f c o.1 o.2 ae (omega (arith, o.0)),
          )))
]
