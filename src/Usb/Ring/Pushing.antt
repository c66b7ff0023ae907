-- ===== src/Usb/Ring/Pushing.antt =====
-- kernel/usb/xhci/ring.cpp: what `Ring::Push` writes, and the state after any number of pushes.
use uhyok_os.Base.{
  ℕ, ◌+◌, ◌-◌, ◌*◌, ◌/◌, ◌%◌, ◌^◌, ◌≤◌, ◌<◌, ◌≡◌, ◌≢◌, refl, ap, sym, ◌∙◌, Bool, true, false, not,
  some, ◌==◌, arith, add64, if◌then◌else◌, length, get_elem?, set, length-set, get_elem?-set_self,
  get_elem?-set_ne, ℕ_discrete,
}
use uhyok_os.Bits.{
  test_bit, test_bit-raise, test_bit-lower, lower_bit, test_bit-digit, digit-bit_or, digit,
  digit-zero,
}
use Prim.Native.Nat.{bit_or}
use uhyok_os.Usb.Ring.{Trb, Ring, with_cycle, link_trb, push}

-- The cycle bit takes the place of bit 0; the other bits are as they were.
with_cycle-test_bit :
    (cycle : Bool) (word j : ℕ)
    → j < 32
    → test_bit (with_cycle cycle word) j ≡ (if 0 == j then cycle else test_bit word j)
with_cycle-test_bit true word j h =
    test_bit-raise (lower_bit 32 word 0) 0 j
    ∙ ground (arith, test_bit-lower 32 word 0 j (omega arith) h)
with_cycle-test_bit false word j h =
    let kept = lower_bit 32 word 0 in
    let same : digit (bit_or kept 0) j ≡ digit kept j =
      digit-bit_or kept 0 j ∙ omega (arith, digit-zero j) in
    test_bit-digit (bit_or kept 0) j
    ∙ ap (λ d. d == 1) same
    ∙ sym (test_bit-digit kept j)
    ∙ test_bit-lower 32 word 0 j (omega arith) h

-- The place before the last is the last that a block is pushed to.
pub record Ready (r : Ring) : Type 0 where
  pub size : length r.buf ≡ r.buf_size
  pub bounded : r.buf_size < 2 ^ 63
  pub long : 2 ≤ r.buf_size
  pub index : r.write_index + 1 < r.buf_size

-- A block as it stands on the ring: its cycle bit is the ring's, all else is the block's.
pub record StandsFor (cycle : Bool) (trb stored : Trb) : Type 0 where
  pub words : (stored.word0 ≡ trb.word0) × (stored.word1 ≡ trb.word1) × (stored.word2 ≡ trb.word2)
  pub bits :
      (j : ℕ) → j < 32 → test_bit stored.word3 j ≡ (if 0 == j then cycle else test_bit trb.word3 j)

-- The last place of the ring as it leads back to the start: a link block, type 6 in bits 10 to 15,
-- that toggles the cycle, bit 1, and has the ring's cycle bit in bit 0. Its target is the ring.
pub record Links (cycle : Bool) (address : ℕ) (l : Trb) : Type 0 where
  pub control : l.word3 ≡ 6 * 2 ^ 10 + 2 + (if cycle then 1 else 0)
  pub target : l.word0 + 2 ^ 32 * l.word1 ≡ address / 2 ^ 4 * 2 ^ 4 % 2 ^ 64
  pub interrupter : l.word2 ≡ 0

-- What a push does.
pub record Pushed (trb : Trb) (r r' : Ring) : Type 0 where
  pub stored : Trb
  pub at : get_elem? r'.buf r.write_index ≡ some stored
  pub form : stored ≡ record trb { word3 = with_cycle r.cycle_bit trb.word3 }
  pub block : StandsFor r.cycle_bit trb stored
  pub others :
      (i : ℕ) → i + 1 < r.buf_size → i ≢ r.write_index → get_elem? r'.buf i ≡ get_elem? r.buf i
  pub link :
      r.write_index + 2 ≡ r.buf_size
      → (l : Trb) × (get_elem? r'.buf (r.buf_size - 1) ≡ some l) × Links r.cycle_bit r.address l
  pub index : r'.write_index ≡ (if r.write_index + 2 == r.buf_size then 0 else r.write_index + 1)
  pub cycle :
      r'.cycle_bit ≡ (if r.write_index + 2 == r.buf_size then not r.cycle_bit else r.cycle_bit)
  pub same : (r'.buf_size ≡ r.buf_size) × (r'.address ≡ r.address)
  pub ready : Ready r'

stored_trb : Bool → Trb → Trb
stored_trb cycle trb = record trb { word3 = with_cycle cycle trb.word3 }

form-stored_trb :
    (cycle : Bool) (trb : Trb)
    → stored_trb cycle trb ≡ record trb { word3 = with_cycle cycle trb.word3 }
unfolding stored_trb
form-stored_trb cycle trb = refl

stored_trb-StandsFor : (cycle : Bool) (trb : Trb) → StandsFor cycle trb (stored_trb cycle trb)
unfolding stored_trb
stored_trb-StandsFor cycle trb = record {
  words = (refl, refl, refl);
  bits = λ j h. with_cycle-test_bit cycle trb.word3 j h;
}

stored_trb-Links :
    (cycle : Bool) (address : ℕ) → Links cycle address (stored_trb cycle (link_trb address))
unfolding stored_trb
stored_trb-Links true address = record { control = refl; target = omega arith; interrupter = refl }
stored_trb-Links false address = record { control = refl; target = omega arith; interrupter = refl }

push-last :
    (trb : Trb) (r : Ring)
    → Ready r
    → r.write_index + 2 ≡ r.buf_size
    → push trb r ≡ record r {
      buf =
          set
            (set r.buf r.write_index (stored_trb r.cycle_bit trb))
            (r.buf_size - 1)
            (stored_trb r.cycle_bit (link_trb r.address));
      cycle_bit = not r.cycle_bit;
      write_index = 0;
    }
unfolding push stored_trb
push-last trb r ready last =
    let next : add64 r.write_index 1 ≡ r.buf_size - 1 = omega (arith, ready.bounded, last) in
    let at_end : (r.buf_size - 1 == r.buf_size - 1) ≡ true = ground arith in
    rw (next, push) (rw at_end refl)

push-more :
    (trb : Trb) (r : Ring)
    → Ready r
    → r.write_index + 2 ≢ r.buf_size
    → push trb r ≡ record r {
      buf = set r.buf r.write_index (stored_trb r.cycle_bit trb);
      write_index = r.write_index + 1;
    }
unfolding push stored_trb
push-more trb r ready more =
    let next : add64 r.write_index 1 ≡ r.write_index + 1 =
      omega (arith, ready.bounded, ready.index) in
    let inside : (r.write_index + 1 == r.buf_size - 1) ≡ false =
      ground (arith, more, ready.index) in
    rw (next, push) (rw inside refl)

-- A push stores the block at the write index with the ring's cycle bit, and moves on. At the last
-- place but one it also stores, at the last, a link block back to the start that toggles the cycle, and
-- starts again with the cycle bit flipped. No other place that blocks are pushed to is written.
pub push-Pushed : (trb : Trb) (r : Ring) → Ready r → Pushed trb r (push trb r)
push-Pushed trb r ready = elim (ℕ_discrete (r.write_index + 2) r.buf_size) [
  | yes last ↦
      let s = stored_trb r.cycle_bit trb in
      let l = stored_trb r.cycle_bit (link_trb r.address) in
      let once = set r.buf r.write_index s in
      let long : length once ≡ r.buf_size = length-set r.buf r.write_index s ∙ ready.size in
      rw (push-last trb r ready last) (record {
        stored = s;
        at =
            get_elem?-set_ne once l (λ e. absurd (omega (arith, e, last)))
            ∙ get_elem?-set_self r.buf r.write_index s (omega (arith, ready.size, ready.index));
        form = form-stored_trb r.cycle_bit trb;
        block = stored_trb-StandsFor r.cycle_bit trb;
        others = λ i h n.
            get_elem?-set_ne once l (λ e. absurd (omega (arith, e, h)))
            ∙ get_elem?-set_ne r.buf s (λ e. n (sym e));
        link = λ e. (
          l,
          get_elem?-set_self once (r.buf_size - 1) l (omega (arith, long, last)),
          stored_trb-Links r.cycle_bit r.address,
        );
        index = ground (arith, last);
        cycle = ground (arith, last);
        same = (refl, refl);
        ready = record {
          size = length-set once (r.buf_size - 1) l ∙ long;
          bounded = ready.bounded;
          long = ready.long;
          index = omega (arith, ready.long);
        };
      })
  | no more ↦
      let s = stored_trb r.cycle_bit trb in
      rw (push-more trb r ready more) (record {
        stored = s;
        at = get_elem?-set_self r.buf r.write_index s (omega (arith, ready.size, ready.index));
        form = form-stored_trb r.cycle_bit trb;
        block = stored_trb-StandsFor r.cycle_bit trb;
        others = λ i h n. get_elem?-set_ne r.buf s (λ e. n (sym e));
        link = λ e. absurd (more e);
        index = ground (arith, more);
        cycle = ground (arith, more);
        same = (refl, refl);
        ready = record {
          size = length-set r.buf r.write_index s ∙ ready.size;
          bounded = ready.bounded;
          long = ready.long;
          index = omega (arith, ready.index, more);
        };
      })
]
