-- ===== src/Usb/Ring/Laps.antt =====
-- kernel/usb/xhci/ring.cpp: a lap of a transfer ring.
use uhyok_os.Base.{
  ℕ, zero, suc, ◌+◌, ◌<◌, ◌≡◌, ◌≢◌, refl, ap, subst, ◌∙◌, not, List, [], ◌∷◌, some, ◌==◌, arith,
  if◌then◌else◌, length, get_elem?, ℕ_discrete, List-cases, inl, inr,
}
use uhyok_os.Usb.Ring.{Trb, Ring, push}
use uhyok_os.Usb.Ring.Pushing.{Ready, StandsFor, Pushed, push-Pushed}

abbrev pub push_all : List Trb → Ring → Ring
push_all [] r = r
push_all (t ∷ ts) r = push_all ts (push t r)

-- What pushing blocks up to the end of the ring has done.
pub record Lap (ts : List Trb) (r r' : Ring) : Type 0 where
  pub stored :
      (i : ℕ) (t : Trb)
      → get_elem? ts i ≡ some t
      → (s : Trb) × (get_elem? r'.buf (r.write_index + i) ≡ some s) × StandsFor r.cycle_bit t s
  pub before : (i : ℕ) → i < r.write_index → get_elem? r'.buf i ≡ get_elem? r.buf i
  pub index :
      r'.write_index
      ≡ (if r.write_index + length ts + 1 == r.buf_size then 0 else r.write_index + length ts)
  pub cycle :
      r'.cycle_bit
      ≡ (if r.write_index + length ts + 1 == r.buf_size then not r.cycle_bit else r.cycle_bit)
  pub size : r'.buf_size ≡ r.buf_size
  pub ready : Ready r'

no_push-Lap : (r : Ring) → Ready r → Lap [] r r
no_push-Lap r ready = record {
  stored = λ i t e. ground (arith, e);
  before = λ i h. refl;
  index = ground (arith, ready.index);
  cycle = ground (arith, ready.index);
  size = refl;
  ready = ready;
}

last_push-Lap :
    (t : Trb) (r : Ring) → Ready r → r.write_index + 2 ≡ r.buf_size → Lap (t ∷ []) r (push t r)
last_push-Lap t r ready last =
    let p : Pushed t r (push t r) = push-Pushed t r ready in
    record {
      stored = λ i u e. only i u e p;
      before = λ i h. p.others i (omega (arith, h, last)) (λ z. absurd (omega (arith, z, h)));
      index = p.index ∙ ground (arith, last);
      cycle = p.cycle ∙ ground (arith, last);
      size = p.same.0;
      ready = p.ready;
    }
  where
    only :
        (i : ℕ) (u : Trb)
        → get_elem? (t ∷ []) i ≡ some u
        → Pushed t r (push t r)
        → (s : Trb) × (get_elem? (push t r).buf (r.write_index + i) ≡ some s)
          × StandsFor r.cycle_bit u s
    only zero u e p =
        let same : t ≡ u = ground (arith, e) in
        (
          p.stored,
          ap (get_elem? (push t r).buf) (omega arith) ∙ p.at,
          subst (λ v. StandsFor r.cycle_bit v p.stored) same p.block,
        )
    only (suc i) u e p = ground (arith, e)

more_push-Lap :
    (t : Trb) (ts : List Trb) (r : Ring) {r' : Ring}
    → Pushed t r (push t r)
    → Ready r
    → r.write_index + 2 ≢ r.buf_size
    → Lap ts (push t r) r'
    → Lap (t ∷ ts) r r'
more_push-Lap t ts r {r'} p ready more rest =
    let at : (push t r).write_index ≡ r.write_index + 1 = p.index ∙ ground (arith, more) in
    let bit : (push t r).cycle_bit ≡ r.cycle_bit = p.cycle ∙ ground (arith, more) in
    record {
      stored = λ i u e. each i u e at bit;
      before = λ i h.
          rest.before i (omega (arith, at, h))
          ∙ p.others i (omega (arith, h, ready.index)) (λ z. absurd (omega (arith, z, h)));
      index = rest.index ∙ ground (arith, at, p.same.0);
      cycle = rest.cycle ∙ ground (arith, at, bit, p.same.0);
      size = rest.size ∙ p.same.0;
      ready = rest.ready;
    }
  where
    each :
        (i : ℕ) (u : Trb)
        → get_elem? (t ∷ ts) i ≡ some u
        → (push t r).write_index ≡ r.write_index + 1
        → (push t r).cycle_bit ≡ r.cycle_bit
        → (s : Trb) × (get_elem? r'.buf (r.write_index + i) ≡ some s) × StandsFor r.cycle_bit u s
    each zero u e at bit =
        let same : t ≡ u = ground (arith, e) in
        let place : r.write_index + 0 ≡ r.write_index = omega arith in
        (
          p.stored,
          ap (get_elem? r'.buf) place ∙ rest.before r.write_index (omega (arith, at)) ∙ p.at,
          subst (λ v. StandsFor r.cycle_bit v p.stored) same p.block,
        )
    each (suc i) u e at bit =
        let (s, there, block) = rest.stored i u e in
        let place : r.write_index + suc i ≡ (push t r).write_index + i = omega (arith, at) in
        (s, ap (get_elem? r'.buf) place ∙ there, subst (λ c. StandsFor c u s) bit block)

-- Blocks pushed one after the other, as many as there is room for before the end of the ring, stand
-- there in their order and all with the same cycle bit; what was pushed before them in this lap is
-- as it was. Exactly when the last place is taken, the ring starts again with the bit flipped.
pub push_all-Lap :
    (ts : List Trb) (r : Ring)
    → Ready r
    → r.write_index + length ts < r.buf_size
    → Lap ts r (push_all ts r)
push_all-Lap [] r ready h = no_push-Lap r ready
push_all-Lap (t ∷ ts) r ready h =
    let p : Pushed t r (push t r) = push-Pushed t r ready in
    elim (ℕ_discrete (r.write_index + 2) r.buf_size) [
      | yes last ↦ elim (List-cases ts) [
        | inl e ↦ rw e (last_push-Lap t r ready last)
        | inr (x, xs, e) ↦ absurd (omega (arith, h, last, ap length e))
      ]
      | no more ↦
          let at : (push t r).write_index ≡ r.write_index + 1 = p.index ∙ ground (arith, more) in
          let bit : (push t r).cycle_bit ≡ r.cycle_bit = p.cycle ∙ ground (arith, more) in
          let rest : Lap ts (push t r) (push_all ts (push t r)) =
            push_all-Lap ts (push t r) p.ready (omega (arith, at, p.same.0, h)) in
          more_push-Lap t ts r p ready more rest
    ]
