-- ===== src/Memory/Bitmap.antt =====
-- kernel/memory_manager.cpp: the bitmap as a set of frames.
use uhyok_os.Base.{
  ℕ, zero, suc, ◌+◌, ◌*◌, ◌/◌, ◌%◌, ◌^◌, ◌≤◌, ◌<◌, ◌≡◌, refl, ◌∙◌, Bool, true, false, ◌&&◌, List,
  [], ◌∷◌, arith, add64, ltb, leb, length, length-set, get_or, set, ◌==◌, if◌then◌else◌,
}
use uhyok_os.Bits.{raise_bit, lower_bit, test_bit-raise, test_bit-lower}
use uhyok_os.Memory.{BitmapMemoryManager, bits_per_map_line, get_bit, set_bit, set_bits}

-- The bitmap has a bit for each frame below the number, and no frame number wraps.
pub record Covers (n : ℕ) (m : BitmapMemoryManager) : Type 0 where
  pub lines : n ≤ bits_per_map_line * length m.alloc_map
  pub small : n < 2 ^ 64

get_or-set :
    (xs : List ℕ) (i j v d : ℕ)
    → i < length xs
    → get_or (set xs i v) j d ≡ (if i == j then v else get_or xs j d)
get_or-set [] i j v d h = absurd (omega arith)
get_or-set (x ∷ xs) zero zero v d h = refl
get_or-set (x ∷ xs) zero (suc j) v d h = ground arith
get_or-set (x ∷ xs) (suc i) zero v d h = ground arith
get_or-set (x ∷ xs) (suc i) (suc j) v d h = get_or-set xs i j v d (omega arith) ∙ ground arith

-- A frame is its line and its bit.
same_frame : (f g : ℕ) → f / 64 ≡ g / 64 → f % 64 ≡ g % 64 → f ≡ g
same_frame f g p q = omega arith

-- Writing a frame's bit is seen at that frame only.
pub get_bit-set_bit :
    (m : BitmapMemoryManager) (f g : ℕ) (b : Bool)
    → f < bits_per_map_line * length m.alloc_map
    → get_bit (set_bit m f b) g ≡ (if f == g then b else get_bit m g)
unfolding get_bit set_bit
get_bit-set_bit m f g true h =
    let line = get_or m.alloc_map (f / 64) 0 in
    ground (
      arith,
      get_or-set m.alloc_map (f / 64) (g / 64) (raise_bit line (f % 64)) 0,
      test_bit-raise line (f % 64) (g % 64),
      same_frame f g,
    )
get_bit-set_bit m f g false h =
    let line = get_or m.alloc_map (f / 64) 0 in
    ground (
      arith,
      get_or-set m.alloc_map (f / 64) (g / 64) (lower_bit 64 line (f % 64)) 0,
      test_bit-lower 64 line (f % 64) (g % 64),
      same_frame f g,
    )

pub set_bit-Covers :
    {n : ℕ} {m : BitmapMemoryManager} (f : ℕ) (b : Bool) → Covers n m → Covers n (set_bit m f b)
unfolding set_bit
set_bit-Covers {m = m} f true c = record { lines = rw length-set c.lines; small = c.small }
set_bit-Covers {m = m} f false c = record { lines = rw length-set c.lines; small = c.small }

pub set_bits-Covers :
    {n : ℕ} (rounds i start : ℕ) (b : Bool) {m : BitmapMemoryManager}
    → Covers n m
    → Covers n (set_bits rounds i start b m)
unfolding set_bits
set_bits-Covers zero i start b c = c
set_bits-Covers (suc rounds) i start b c =
    set_bits-Covers rounds (i + 1) start b (set_bit-Covers (add64 start i) b c)

-- Whether a frame lies among `n` frames from `start` on.
abbrev pub within : ℕ → ℕ → ℕ → Bool
within start n f = leb start f && ltb f (start + n)

-- The loop writes exactly the frames from `start + i` on, and the range of the manager stays.
pub get_bit-set_bits :
    (rounds i start n : ℕ) (b : Bool) (m : BitmapMemoryManager) (f : ℕ)
    → Covers n m
    → start + i + rounds ≤ n
    → get_bit (set_bits rounds i start b m) f
      ≡ (if within (start + i) rounds f then b else get_bit m f)
unfolding set_bits
get_bit-set_bits zero i start n b m f c h = ground arith
get_bit-set_bits (suc rounds) i start n b m f c h =
    let e : add64 start i ≡ start + i = omega (arith, c.small) in
    get_bit-set_bits rounds (i + 1) start n b (set_bit m (add64 start i) b) f
      (set_bit-Covers (add64 start i) b c) (omega arith)
    ∙ ground (arith, e, get_bit-set_bit m (add64 start i) f b (omega (arith, e, c.lines)))

pub range-set_bits :
    (rounds i start : ℕ) (b : Bool) (m : BitmapMemoryManager)
    → ((set_bits rounds i start b m).range_begin ≡ m.range_begin)
      × ((set_bits rounds i start b m).range_end ≡ m.range_end)
unfolding set_bits set_bit
range-set_bits zero i start b m = (refl, refl)
range-set_bits (suc rounds) i start b m =
    range-set_bits rounds (i + 1) start b (set_bit m (add64 start i) b)
