-- ===== src/Usb/Ring.antt =====
-- kernel/usb/xhci/ring.cpp, ring.hpp, trb.hpp: the rings of transfer request blocks. The memory of a
-- ring comes from `AllocArray`, whose result is an argument.
pub mod Pushing
pub mod Laps
pub mod Events
use Prim.Native.Nat.{bit_or}
use uhyok_os.Base.{
  ℕ, ◌+◌, ◌-◌, ◌*◌, ◌/◌, ◌%◌, ◌^◌, Bool, true, false, not, ◌==◌, if◌then◌else◌, List, [], Option,
  none, some, set, replicate, add64,
}
use uhyok_os.Errors.{Code, success, no_enough_memory}
use uhyok_os.Bits.{lower_bit}

-- `TRB::data`.
pub record Trb : Type 0 where
  pub word0 : ℕ
  pub word1 : ℕ
  pub word2 : ℕ
  pub word3 : ℕ

abbrev pub blank : Trb
blank = record { word0 = 0; word1 = 0; word2 = 0; word3 = 0 }

-- `buf_`, the address it stands at, and the members of `Ring`.
pub record Ring : Type 0 where
  pub buf : List Trb
  pub address : ℕ
  pub buf_size : ℕ
  pub cycle_bit : Bool
  pub write_index : ℕ

pub initialize : Option ℕ → ℕ → Ring → Code × Ring
initialize none buf_size r = (
  no_enough_memory,
  record r { buf = []; address = 0; buf_size = buf_size; cycle_bit = true; write_index = 0 },
)
initialize (some at) buf_size r = (
  success,
  record {
    buf = replicate buf_size blank;
    address = at;
    buf_size = buf_size;
    cycle_bit = true;
    write_index = 0;
  },
)

-- The last word with the cycle bit in place of its bit 0.
abbrev pub with_cycle : Bool → ℕ → ℕ
with_cycle cycle word3 = bit_or (lower_bit 32 word3 0) (if cycle then 1 else 0)

abbrev pub copy_to_last : Trb → Ring → Ring
copy_to_last trb r = record r {
  buf = set r.buf r.write_index (record trb { word3 = with_cycle r.cycle_bit trb.word3 });
}

-- `LinkTRB{buf_}` with `toggle_cycle`: type 6, and the address without its low 4 bits.
abbrev pub link_trb : ℕ → Trb
link_trb at = record {
  word0 = at / 2 ^ 4 * 2 ^ 4 % 2 ^ 32;
  word1 = at / 2 ^ 32 % 2 ^ 32;
  word2 = 0;
  word3 = 6 * 2 ^ 10 + 2;
}

pub push : Trb → Ring → Ring
push trb r =
    let copied = copy_to_last trb r in
    let next : Ring = record copied { write_index = add64 r.write_index 1 } in
    if next.write_index == r.buf_size - 1
    then record (copy_to_last (link_trb r.address) next) {
      write_index = 0;
      cycle_bit = not r.cycle_bit;
    }
    else next

-- The members of `EventRing`, the first entry of its segment table, and the dequeue pointer.
pub record EventRing : Type 0 where
  pub segment_base : ℕ
  pub segment_size : ℕ
  pub cycle_bit : Bool
  pub dequeue : ℕ

-- `WriteDequeuePointer`: the register keeps no low bits of an address.
abbrev pub write_dequeue_pointer : ℕ → EventRing → EventRing
write_dequeue_pointer p r = record r { dequeue = p / 2 ^ 4 * 2 ^ 4 % 2 ^ 64 }

-- `HasFront`, with the memory that the dequeue pointer points to.
abbrev pub has_front : (ℕ → Trb) → EventRing → Bool
has_front memory r = (memory r.dequeue).word3 % 2 == (if r.cycle_bit then 1 else 0)

pub pop : EventRing → EventRing
pop r =
    let p = add64 r.dequeue 16 in
    if p == add64 r.segment_base (16 * r.segment_size)
    then write_dequeue_pointer r.segment_base (record r { cycle_bit = not r.cycle_bit })
    else write_dequeue_pointer p r
