-- ===== src/Usb/Ring/Events.antt =====
-- kernel/usb/xhci/ring.cpp: the laps of the event ring.
use uhyok_os.Base.{
  ℕ, zero, suc, ◌+◌, ◌-◌, ◌*◌, ◌/◌, ◌%◌, ◌^◌, ◌≤◌, ◌<◌, ◌≡◌, refl, ap, sym, ◌∙◌, true, false, not,
  ◌==◌, arith, add64,
}
use uhyok_os.Usb.Ring.{EventRing, pop}

-- `Pop`, a number of times.
abbrev pub pops : ℕ → EventRing → EventRing
pops zero r = r
pops (suc n) r = pop (pops n r)

-- A segment as `AllocArray` gives it: aligned, not empty, and inside the address space.
pub record IsSegment (r : EventRing) : Type 0 where
  pub aligned : r.segment_base % 16 ≡ 0
  pub some_room : 1 ≤ r.segment_size
  pub inside : r.segment_base + 16 * r.segment_size < 2 ^ 64

pop-within :
    (k : ℕ) (r : EventRing)
    → IsSegment r
    → k + 1 < r.segment_size
    → r.dequeue ≡ r.segment_base + 16 * k
    → pop r ≡ record r { dequeue = r.segment_base + 16 * (k + 1) }
unfolding pop
pop-within k r seg h at =
    let next : add64 r.dequeue 16 ≡ r.segment_base + 16 * (k + 1) =
      omega (arith, at, h, seg.inside) in
    let inside : (r.segment_base + 16 * (k + 1) == add64 r.segment_base (16 * r.segment_size))
        ≡ false =
      ground (arith, h, seg.inside) in
    let kept : (r.segment_base + 16 * (k + 1)) / 2 ^ 4 * 2 ^ 4 % 2 ^ 64
        ≡ r.segment_base + 16 * (k + 1) =
      omega (arith, seg.aligned, seg.inside, h) in
    rw (next, pop) (rw inside (ap (λ d. record r { dequeue = d }) kept))

pop-end :
    (r : EventRing)
    → IsSegment r
    → r.dequeue + 16 ≡ r.segment_base + 16 * r.segment_size
    → pop r ≡ record r { cycle_bit = not r.cycle_bit; dequeue = r.segment_base }
unfolding pop
pop-end r seg at =
    let next : add64 r.dequeue 16 ≡ add64 r.segment_base (16 * r.segment_size) =
      omega (arith, at, seg.inside) in
    let at_end : (add64 r.segment_base (16 * r.segment_size)
          == add64 r.segment_base (16 * r.segment_size))
        ≡ true =
      ground arith in
    let kept : r.segment_base / 2 ^ 4 * 2 ^ 4 % 2 ^ 64 ≡ r.segment_base =
      omega (arith, seg.aligned, seg.inside) in
    rw (next, pop)
      (rw at_end (ap (λ d. record r { cycle_bit = not r.cycle_bit; dequeue = d }) kept))

pops-within :
    (k : ℕ) (r : EventRing)
    → IsSegment r
    → r.dequeue ≡ r.segment_base
    → k < r.segment_size
    → pops k r ≡ record r { dequeue = r.segment_base + 16 * k }
pops-within zero r seg at h = ap (λ d. record r { dequeue = d }) (at ∙ omega arith)
pops-within (suc k) r seg at h =
    ap pop (pops-within k r seg at (omega arith))
    ∙ pop-within k (record r { dequeue = r.segment_base + 16 * k })
        (record { aligned = seg.aligned; some_room = seg.some_room; inside = seg.inside })
        (omega arith) refl
    ∙ ap (λ d. record r { dequeue = d }) (omega arith)

-- From the start of its segment the event ring visits every block in turn, without leaving the
-- segment, and after as many pops as there are blocks it is at the start again, waiting for the
-- other cycle bit.
pub pops-lap :
    (k : ℕ) (r : EventRing)
    → IsSegment r
    → r.dequeue ≡ r.segment_base
    → k < r.segment_size
    → (pops k r ≡ record r { dequeue = r.segment_base + 16 * k })
      × (pops r.segment_size r ≡ record r { cycle_bit = not r.cycle_bit; dequeue = r.segment_base })
pops-lap k r seg at h =
    let n = r.segment_size - 1 in
    let all : suc n ≡ r.segment_size = omega (arith, seg.some_room) in
    (
      pops-within k r seg at h,
      ap (λ m. pops m r) (sym all)
          ∙ ap pop (pops-within n r seg at (omega (arith, seg.some_room)))
          ∙ pop-end (record r { dequeue = r.segment_base + 16 * n })
              (record { aligned = seg.aligned; some_room = seg.some_room; inside = seg.inside })
              (omega (arith, seg.some_room)),
    )
