-- ===== src/Memory/Allocation.antt =====
-- kernel/memory_manager.cpp: `Allocate` and `Free` against the set of frames in use.
use uhyok_os.Base.{
  ℕ, zero, suc, ◌+◌, ◌-◌, ◌^◌, ◌≤◌, ◌<◌, ◌≡◌, refl, ap, sym, subst, ◌∙◌, ◌⊎◌, inl, inr, true, false,
  Option, some, arith, add64, leb, if◌then◌else◌, dec_le, Bool-cases,
}
use uhyok_os.Errors.{success, no_enough_memory, WithError}
use uhyok_os.Memory.{
  BitmapMemoryManager, null_frame, get_bit, set_bits, mark_allocated, free, Scan, past_end,
  all_free, in_use, scan, search, allocate,
}
use uhyok_os.Memory.Bitmap.{Covers, within, get_bit-set_bits, set_bits-Covers, range-set_bits}

-- The frames of the range are within the bitmap.
pub record IsValid (m : BitmapMemoryManager) : Type 0 where
  pub covers : Covers m.range_end m
  pub ordered : m.range_begin ≤ m.range_end

-- The run of `n` frames from `start` on holds a frame in use.
abbrev pub Blocked : BitmapMemoryManager → ℕ → ℕ → Type 0
Blocked m n start = (f : ℕ) × (start ≤ f) × (f < start + n) × (get_bit m f ≡ true)

-- How a scan of the frames from `start + i` on ends.
abbrev Scanned : ℕ → ℕ → ℕ → BitmapMemoryManager → Scan → Type 0
Scanned rounds i start m past_end = (j : ℕ) × (i ≤ j) × (j < i + rounds) × (m.range_end ≤ start + j)
Scanned rounds i start m (in_use j) =
    (i ≤ j) × (j < i + rounds) × (start + j < m.range_end) × (get_bit m (start + j) ≡ true)
Scanned rounds i start m all_free =
    (start + i + rounds ≤ m.range_end)
    × ((f : ℕ) → start + i ≤ f → f < start + i + rounds → get_bit m f ≡ false)

Scanned-step :
    (rounds i start : ℕ) (m : BitmapMemoryManager) (r : Scan)
    → start + i < m.range_end
    → get_bit m (start + i) ≡ false
    → Scanned rounds (i + 1) start m r
    → Scanned (suc rounds) i start m r
Scanned-step rounds i start m past_end h clear (j, a, b, c) = (j, omega arith, omega arith, c)
Scanned-step rounds i start m (in_use j) h clear (a, b, c, d) = (omega arith, omega arith, c, d)
Scanned-step rounds i start m all_free h clear (a, b) =
    (omega arith, λ f p q. ground (arith, clear, b f))

-- What the scan does with its next frame.
scan_round :
    (rounds i start : ℕ) (m : BitmapMemoryManager)
    → m.range_end < 2 ^ 64
    → start + i ≤ m.range_end
    → scan (suc rounds) i start m ≡ (
        if leb m.range_end (start + i)
        then past_end
        else if get_bit m (start + i)
        then in_use i
        else scan rounds (i + 1) start m)
unfolding scan
scan_round rounds i start m small h =
    let e : add64 start i ≡ start + i = omega arith in
    ap
      (λ k.
        if leb m.range_end k
        then past_end
        else if get_bit m k
        then in_use i
        else scan rounds (i + 1) start m)
      e

scan-Scanned :
    (rounds i start : ℕ) (m : BitmapMemoryManager)
    → m.range_end < 2 ^ 64
    → start + i ≤ m.range_end
    → Scanned rounds i start m (scan rounds i start m)
unfolding scan
scan-Scanned zero i start m small h = (omega arith, λ f p q. absurd (omega arith))
scan-Scanned (suc rounds) i start m small h =
    let Ends = λ (r : Scan). Scanned (suc rounds) i start m r in
    let e = scan_round rounds i start m small h in
    elim (dec_le m.range_end (start + i)) [
      | yes p ↦
          let stop : scan (suc rounds) i start m ≡ past_end = e ∙ ground (arith, p) in
          subst Ends (sym stop) (i, omega arith, omega arith, p)
      | no p ↦ elim (Bool-cases (get_bit m (start + i))) [
        | inl used ↦
            let stop : scan (suc rounds) i start m ≡ in_use i = e ∙ ground (arith, p, used) in
            subst Ends (sym stop) (omega arith, omega arith, omega arith, used)
        | inr clear ↦
            let on : scan (suc rounds) i start m ≡ scan rounds (i + 1) start m =
              e ∙ ground (arith, p, clear) in
            subst Ends (sym on) (
              Scanned-step rounds i start m (scan rounds (i + 1) start m) (omega arith) clear
                (scan-Scanned rounds (i + 1) start m small (omega arith)))
      ]
    ]

-- Every run that starts from `low` on and before `start` is blocked.
abbrev pub AllBlocked : BitmapMemoryManager → ℕ → ℕ → ℕ → Type 0
AllBlocked m n low start = (s : ℕ) → low ≤ s → s < start → Blocked m n s

-- A successful allocation: the lowest run of free frames in the range is now in use, and no other
-- frame changed.
pub record Taken (n : ℕ) (m : BitmapMemoryManager) (start : ℕ) (m' : BitmapMemoryManager)
    : Type 0 where
  pub from : m.range_begin ≤ start
  pub upto : start + n ≤ m.range_end
  pub was_free : (f : ℕ) → start ≤ f → f < start + n → get_bit m f ≡ false
  pub lowest : AllBlocked m n m.range_begin start
  pub bits : (f : ℕ) → get_bit m' f ≡ (if within start n f then true else get_bit m f)
  pub range : m'.range_end ≡ m.range_end
  pub valid : IsValid m'

-- What a call returns: a run taken, or the error with nothing changed where no run of that length
-- in the range is free.
abbrev pub Allocates : ℕ → BitmapMemoryManager → Option (WithError ℕ × BitmapMemoryManager) → Type 0
Allocates n m r =
    ((start : ℕ) × (m' : BitmapMemoryManager) × (r
        ≡ some (record { value = start; error = success }, m'))
      × Taken n m start m')
    ⊎ ((r ≡ some (record { value = null_frame; error = no_enough_memory }, m))
        × ((s : ℕ) → m.range_begin ≤ s → s + n ≤ m.range_end → Blocked m n s))

marked-IsValid :
    {m : BitmapMemoryManager} (start n : ℕ) → IsValid m → IsValid (mark_allocated start n m)
unfolding mark_allocated
marked-IsValid {m} start n v =
    let (b, e) = range-set_bits n 0 start true m in
    record {
      covers =
          subst (λ k. Covers k (set_bits n 0 start true m)) (sym e)
            (set_bits-Covers n 0 start true v.covers);
      ordered = omega (arith, b, e, v.ordered);
    }

takes :
    (n start : ℕ) (m : BitmapMemoryManager)
    → IsValid m
    → m.range_begin ≤ start
    → start + 0 + n ≤ m.range_end
    → ((f : ℕ) → start + 0 ≤ f → f < start + 0 + n → get_bit m f ≡ false)
    → AllBlocked m n m.range_begin start
    → Taken n m start (mark_allocated start n m)
unfolding mark_allocated
takes n start m v h fits clear low =
    let e : start + 0 ≡ start = omega arith in
    record {
      from = h;
      upto = omega arith;
      was_free = λ f p q. clear f (omega arith) (omega arith);
      lowest = low;
      bits = λ f.
          get_bit-set_bits n 0 start m.range_end true m f v.covers fits
          ∙ ap (λ k. if within k n f then true else get_bit m f) e;
      range = (range-set_bits n 0 start true m).1;
      valid = marked-IsValid start n v;
    }

-- A frame in use blocks every run that reaches it.
blocks :
    (n low start j : ℕ) (m : BitmapMemoryManager)
    → j < 0 + n
    → get_bit m (start + j) ≡ true
    → AllBlocked m n low start
    → AllBlocked m n low (start + (j + 1))
blocks n low start j m h used before s p q = elim (dec_le start s) [
  | yes after ↦ (start + j, omega arith, omega arith, used)
  | no earlier ↦ before s p (omega arith)
]

-- One round of the search, by how its scan ends; `next` is the rest of the search.
round-Allocates :
    (fuel n start : ℕ) (m : BitmapMemoryManager) (r : Scan)
    → scan n 0 start m ≡ r
    → Scanned n 0 start m r
    → IsValid m
    → m.range_begin ≤ start
    → start ≤ m.range_end
    → AllBlocked m n m.range_begin start
    → ((k : ℕ)
        → start < k
        → k ≤ m.range_end
        → AllBlocked m n m.range_begin k
        → Allocates n m (search fuel k n m))
    → Allocates n m (search (suc fuel) start n m)
unfolding search
round-Allocates fuel n start m past_end e (j, a, b, c) v lo hi low next = inr (
  rw (e, search),
  λ s p q. elim (dec_le start s) [
    | yes after ↦ absurd (omega arith)
    | no earlier ↦ low s p (omega arith)
  ],
)
round-Allocates fuel n start m all_free e (fits, clear) v lo hi low next =
    inl (start, mark_allocated start n m, rw (e, search), takes n start m v lo fits clear low)
round-Allocates fuel n start m (in_use j) e (a, b, c, used) v lo hi low next =
    let k : add64 start (j + 1) ≡ start + (j + 1) = omega (arith, v.covers.small) in
    let rest =
      next (start + (j + 1)) (omega arith) (omega arith)
        (blocks n m.range_begin start j m b used low) in
    rw (e, search) (subst (λ x. Allocates n m (search fuel x n m)) (sym k) rest)

search-Allocates :
    (fuel n start : ℕ) (m : BitmapMemoryManager)
    → IsValid m
    → m.range_begin ≤ start
    → start ≤ m.range_end
    → m.range_end - start < fuel
    → AllBlocked m n m.range_begin start
    → Allocates n m (search fuel start n m)
search-Allocates zero n start m v lo hi enough low = absurd (omega arith)
search-Allocates (suc fuel) n start m v lo hi enough low =
    round-Allocates fuel n start m (scan n 0 start m) refl
      (scan-Scanned n 0 start m v.covers.small (omega arith)) v lo hi low
      λ k p q below. search-Allocates fuel n k m v (omega arith) q (omega arith) below

-- `Allocate` always returns. If some run of that many free frames lies in the range, it takes the
-- lowest one and changes no other frame; if none does, it reports that memory is short and changes
-- nothing.
pub allocate-Allocates :
    (n : ℕ) {m : BitmapMemoryManager} → IsValid m → Allocates n m (allocate n m)
unfolding allocate
allocate-Allocates n {m} v =
    search-Allocates (suc (m.range_end - m.range_begin)) n m.range_begin m v (omega arith) v.ordered
      (omega arith) (λ s p q. absurd (omega arith))

-- `Free` of frames within the range makes exactly these free, and keeps the manager valid.
pub free-bits :
    (start n : ℕ) {m : BitmapMemoryManager}
    → IsValid m
    → start + n ≤ m.range_end
    → ((f : ℕ) → get_bit (free start n m).1 f ≡ (if within start n f then false else get_bit m f))
      × IsValid (free start n m).1
unfolding free
free-bits start n {m} v h =
    let z : start + 0 ≡ start = omega arith in
    let (b, e) = range-set_bits n 0 start false m in
    (
      λ f.
          get_bit-set_bits n 0 start m.range_end false m f v.covers (omega arith)
          ∙ ap (λ k. if within k n f then false else get_bit m f) z,
      record {
        covers =
            subst (λ k. Covers k (set_bits n 0 start false m)) (sym e)
              (set_bits-Covers n 0 start false v.covers);
        ordered = omega (arith, b, e, v.ordered);
      },
    )

-- Freeing what was just allocated brings every frame back to what it was.
pub free-allocate :
    (n : ℕ) {m m' : BitmapMemoryManager} (start : ℕ)
    → IsValid m
    → allocate n m ≡ some (record { value = start; error = success }, m')
    → (f : ℕ) → get_bit (free start n m').1 f ≡ get_bit m f
free-allocate n {m} {m'} start v e f = elim (allocate-Allocates n v) [
  | inl (s, m'', e', taken) ↦
      let same : start ≡ s = cc in
      let same' : m' ≡ m'' = cc in
      let fits : s + n ≤ m''.range_end = omega (arith, taken.upto, taken.range) in
      ground
        (arith, same, same', (free-bits s n taken.valid fits).0 f, taken.bits f, taken.was_free f)
  | inr (e', _) ↦ cc
]
