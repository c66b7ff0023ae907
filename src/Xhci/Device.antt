-- ===== src/Xhci/Device.antt =====
-- kernel/usb/xhci/device.cpp, device.hpp, trb.hpp: the transfers of a device, and what becomes of the
-- events that say that they completed.
pub mod Blocks
pub mod Transfer
pub mod Keeping
mod Tests
use uhyok_os.Base.{
  ℕ, ◌+◌, ◌-◌, ◌*◌, ◌/◌, ◌%◌, ◌^◌, Bool, true, false, ◌==◌, ◌||◌, not, ltb, if◌then◌else◌, List, [],
  ◌∷◌, ◌++◌, get_elem?, set, Option, none, some,
}
use uhyok_os.Errors.{
  Code, success, invalid_endpoint_number, transfer_ring_not_set, transfer_failed,
  no_corresponding_setup_stage, not_implemented, is_error,
}
use uhyok_os.Usb.ArrayMap.{ArrayMap, get, put, delete}
use uhyok_os.Usb.Ring.{Trb, Ring, push}
use uhyok_os.Usb.Descriptor.{Bytes, Run, done, undefined, SetupData, number}
use uhyok_os.Usb.Device.{Device, Transfers, wait_for}
use uhyok_os.Usb.Hid.{Kind}
use uhyok_os.Usb.Device.Handlers.{on_control_completed, on_interrupt_completed}

-- The members of `xhci::Device` that the transfers use; `doorbells` are the rings of the doorbell.
pub record Slot : Type 0 where
  pub transfer_rings : List (Option Ring)
  pub setup_stage_map : ArrayMap ℕ ℕ
  pub doorbells : List ℕ

-- `bits.trb_type`.
abbrev pub trb_type : Trb → ℕ
trb_type trb = trb.word3 / 2 ^ 10 % 2 ^ 6

abbrev pub low_word : ℕ → ℕ
low_word p = p % 2 ^ 32

abbrev pub high_word : ℕ → ℕ
high_word p = p / 2 ^ 32 % 2 ^ 32

abbrev pub bit : Bool → ℕ
bit b = if b then 1 else 0

-- `NormalTRB` as `InterruptIn` fills it: both interrupts are on.
abbrev pub normal_trb : ℕ → ℕ → Trb
normal_trb buf len = record {
  word0 = low_word buf;
  word1 = high_word buf;
  word2 = len % 2 ^ 17;
  word3 = 2 ^ 2 + 2 ^ 5 + 1 * 2 ^ 10;
}

-- The fields of `SetupStageTRB`, with its constructor: immediate data of 8 bytes.
abbrev pub setup_stage_trb : ℕ → ℕ → ℕ → ℕ → ℕ → ℕ → Trb
setup_stage_trb request_type request value index length transfer_type = record {
  word0 = request_type % 2 ^ 8 + request % 2 ^ 8 * 2 ^ 8 + value % 2 ^ 16 * 2 ^ 16;
  word1 = index % 2 ^ 16 + length % 2 ^ 16 * 2 ^ 16;
  word2 = 8;
  word3 = 2 ^ 6 + 2 * 2 ^ 10 + transfer_type % 2 ^ 2 * 2 ^ 16;
}

-- `MakeSetupStageTRB`.
abbrev pub make_setup_stage_trb : SetupData → ℕ → Trb
make_setup_stage_trb setup_data transfer_type =
    setup_stage_trb setup_data.request_type setup_data.request setup_data.value setup_data.index
      setup_data.length transfer_type

abbrev pub no_data_stage : ℕ
no_data_stage = 0

abbrev pub out_data_stage : ℕ
out_data_stage = 2

abbrev pub in_data_stage : ℕ
in_data_stage = 3

-- The fields of `DataStageTRB` that are set.
abbrev pub data_stage_trb : ℕ → ℕ → ℕ → Bool → Bool → Trb
data_stage_trb data_buffer_pointer trb_transfer_length td_size direction interrupt_on_completion =
    record {
      word0 = low_word data_buffer_pointer;
      word1 = high_word data_buffer_pointer;
      word2 = trb_transfer_length % 2 ^ 17 + td_size % 2 ^ 5 * 2 ^ 17;
      word3 = bit interrupt_on_completion * 2 ^ 5 + 3 * 2 ^ 10 + bit direction * 2 ^ 16;
    }

-- `MakeDataStageTRB`, with `interrupt_on_completion`, which both callers set.
abbrev pub make_data_stage_trb : ℕ → ℕ → Bool → Trb
make_data_stage_trb buf len dir_in = data_stage_trb buf len 0 dir_in true

-- `StatusStageTRB`.
abbrev pub status_stage_trb : Bool → Bool → Trb
status_stage_trb direction interrupt_on_completion = record {
  word0 = 0;
  word1 = 0;
  word2 = 0;
  word3 = bit interrupt_on_completion * 2 ^ 5 + 4 * 2 ^ 10 + bit direction * 2 ^ 16;
}

-- `Pointer` of a block, and the fields of a transfer event.
abbrev pub pointer : Trb → ℕ
pointer trb = trb.word0 + trb.word1 * 2 ^ 32

abbrev pub transfer_length : Trb → ℕ
transfer_length trb = trb.word2 % 2 ^ 17

-- A residue longer than the transfer, which makes the source's `int` negative, counts as nothing
-- transferred: the lengths bound the descriptor reader and `std::copy_n`, for which a negative length
-- and 0 are the same.
abbrev pub residual_length : Trb → ℕ
residual_length event = event.word2 % 2 ^ 24

abbrev pub completion_code : Trb → ℕ
completion_code event = event.word2 / 2 ^ 24 % 2 ^ 8

abbrev pub event_endpoint : Trb → ℕ
event_endpoint event = event.word3 / 2 ^ 16 % 2 ^ 5

-- The setup data that a setup stage holds.
abbrev pub setup_data_of : Trb → SetupData
setup_data_of trb = record {
  request_type = trb.word0 % 2 ^ 8;
  request = trb.word0 / 2 ^ 8 % 2 ^ 8;
  value = trb.word0 / 2 ^ 16 % 2 ^ 16;
  index = trb.word1 % 2 ^ 16;
  length = trb.word1 / 2 ^ 16 % 2 ^ 16;
}

-- Where `Push` writes.
abbrev pub position : Ring → ℕ
position r = r.address + 16 * r.write_index

abbrev pub same_pointer : ℕ → ℕ → Bool
same_pointer a b = a == b

-- The blocks of a control transfer, with a buffer or without, and the entry of the map: the setup
-- stage by the block whose completion raises the event.
unfoldable pub push_stages : Option ℕ → ℕ → Bool → Ring → SetupData → Slot → Ring × Slot
push_stages (some buf) len dir_in r setup_data s =
    let setup =
      make_setup_stage_trb setup_data (if dir_in then in_data_stage else out_data_stage) in
    let first = push setup r in
    let second = push (make_data_stage_trb buf len dir_in) first in
    (
      push (status_stage_trb (not dir_in) false) second,
      record s {
        setup_stage_map = put same_pointer (position first) (position r) s.setup_stage_map;
      },
    )
push_stages none len dir_in r setup_data s =
    let first = push (make_setup_stage_trb setup_data no_data_stage) r in
    (
      push (status_stage_trb true true) first,
      record s {
        setup_stage_map = put same_pointer (position first) (position r) s.setup_stage_map;
      },
    )

-- `transfer_rings_[dci.value - 1]`; index 0 has no ring in front of it.
abbrev pub ring_of : ℕ → Slot → Option (Option Ring)
ring_of dci s = if dci == 0 then none else get_elem? s.transfer_rings (dci - 1)

-- `ControlIn` and `ControlOut`.
unfoldable pub control :
    Bool → ℕ → SetupData → Option ℕ → ℕ → Option ℕ → Device Slot → Run (Code × Device Slot)
control dir_in ep_id setup_data buf len issuer d =
    let waiting = wait_for setup_data issuer d in
    if is_error waiting.0
    then done waiting
    else if ltb 15 (number ep_id)
    then done (invalid_endpoint_number, waiting.1)
    else elim (ring_of ep_id d.derived) [
      | none ↦ undefined
      | some none ↦ done (transfer_ring_not_set, waiting.1)
      | some (some r) ↦
          let pushed = push_stages buf len dir_in r setup_data d.derived in
          done (
            success,
            record waiting.1 {
              derived = record pushed.1 {
                transfer_rings = set d.derived.transfer_rings (ep_id - 1) (some pushed.0);
                doorbells = d.derived.doorbells ++ ep_id ∷ [];
              };
            },
          )
    ]

-- `InterruptIn`.
unfoldable pub interrupt_in : ℕ → ℕ → ℕ → Device Slot → Run (Code × Device Slot)
interrupt_in ep_id buf len d = elim (ring_of ep_id d.derived) [
  | none ↦ undefined
  | some none ↦ done (transfer_ring_not_set, d)
  | some (some r) ↦ done (
    success,
    record d {
      derived = record d.derived {
        transfer_rings =
            set d.derived.transfer_rings (ep_id - 1) (some (push (normal_trb buf len) r));
        doorbells = d.derived.doorbells ++ ep_id ∷ [];
      };
    },
  )
]

-- The transfers of this class.
abbrev pub transfers : Transfers Slot
transfers = record {
  control_in = control true;
  control_out = control false;
  interrupt_in = interrupt_in;
}

-- `OnTransferEventReceived` for an event of a control transfer, over what the device makes of it.
unfoldable pub on_control_event :
    (ℕ → Trb)
    → (SetupData → Option ℕ → ℕ → Device Slot → Run (Code × Device Slot))
    → Trb
    → Device Slot
    → Run (Code × Device Slot)
on_control_event blocks completed event d =
    let issuer = pointer event in
    elim (get same_pointer issuer d.derived.setup_stage_map) [
      | none ↦ done (no_corresponding_setup_stage, d)
      | some setup_stage ↦
          let found : Device Slot = record d {
            derived = record d.derived {
              setup_stage_map = delete same_pointer issuer d.derived.setup_stage_map;
            };
          } in
          let setup_data = setup_data_of (blocks setup_stage) in
          if trb_type (blocks issuer) == 3
          then completed setup_data
              (if pointer (blocks issuer) == 0 then none else some (pointer (blocks issuer)))
              (transfer_length (blocks issuer) - residual_length event) found
          else if trb_type (blocks issuer) == 4
          then completed setup_data none 0 found
          else done (not_implemented, found)
    ]

-- `OnTransferEventReceived`: `blocks` is the memory of the transfer request blocks.
unfoldable pub on_transfer_event_received :
    (ℕ → Trb) → ℕ → (ℕ → ℕ) → (Kind → Bool) → Bytes → Trb → Device Slot → Run (Code × Device Slot)
on_transfer_event_received blocks fuel place has_observer memory event d =
    if not ((completion_code event == 1) || (completion_code event == 13))
    then done (transfer_failed, d)
    else if trb_type (blocks (pointer event)) == 1
    then on_interrupt_completed transfers memory (event_endpoint event)
        (transfer_length (blocks (pointer event)) - residual_length event) d
    else on_control_event blocks (on_control_completed transfers fuel place has_observer memory)
        event d
