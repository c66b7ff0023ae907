-- ===== src/Xhci/Device/Transfer.antt =====
-- kernel/usb/xhci/device.cpp: a control transfer, from the request to the event that it completed.
use uhyok_os.Base.{
  ℕ, suc, ◌+◌, ◌-◌, ◌*◌, ◌^◌, ◌≤◌, ◌<◌, ◌≡◌, ◌≢◌, ◌⊎◌, inl, inr, refl, sym, ap, ap₂, ◌∙◌, Bool,
  true, false, not, Option, none, some, [], ◌∷◌, ◌++◌, get_elem?, set, arith, if◌then◌else◌, ==_iff,
}
use uhyok_os.Errors.{Code, success, no_corresponding_setup_stage}
use uhyok_os.Usb.ArrayMap.{ArrayMap, get, put, delete}
use uhyok_os.Usb.ArrayMap.Entries.{IsEquality, room, get-put, get-delete, copies-put}
use uhyok_os.Usb.Ring.{Trb, Ring, push}
use uhyok_os.Usb.Ring.Pushing.{Ready, push-Pushed}
use uhyok_os.Usb.Descriptor.{Bytes, Run, done, SetupData}
use uhyok_os.Usb.Hid.{Kind}
use uhyok_os.Usb.Device.{Device}
use uhyok_os.Usb.Device.Handlers.{on_control_completed}
use uhyok_os.Xhci.Device.{
  Slot, trb_type, make_setup_stage_trb, make_data_stage_trb, status_stage_trb, setup_data_of,
  pointer, transfer_length, residual_length, completion_code, position, same_pointer, push_stages,
  control, transfers, on_control_event, on_transfer_event_received, no_data_stage, in_data_stage,
  out_data_stage,
}
use uhyok_os.Xhci.Device.Blocks.{
  stored, push-push, push-push-push, push-stored, IsRequest, setup_data_of-make_setup_stage_trb,
  trb_type-make_data_stage_trb, trb_type-status_stage_trb, pointer-make_data_stage_trb,
  transfer_length-make_data_stage_trb,
}

-- The setup stage of a transfer, the ring after it, and the device after the request.
abbrev pub setup_stage : Bool → Option ℕ → SetupData → Trb
setup_stage dir_in none s = make_setup_stage_trb s no_data_stage
setup_stage dir_in (some buf) s =
    make_setup_stage_trb s (if dir_in then in_data_stage else out_data_stage)

abbrev pub awaited : Bool → Option ℕ → SetupData → Ring → ℕ
awaited dir_in buf s r = position (push (setup_stage dir_in buf s) r)

abbrev pub staged : Bool → Option ℕ → ℕ → SetupData → Ring → Device Slot → Ring × Slot
staged dir_in buf len s r d = push_stages buf len dir_in r s d.derived

abbrev pub sent : Bool → ℕ → Option ℕ → ℕ → SetupData → Ring → Device Slot → Device Slot
sent dir_in ep_id buf len s r d = record d {
  derived = record (staged dir_in buf len s r d).1 {
    transfer_rings =
        set d.derived.transfer_rings (ep_id - 1) (some (staged dir_in buf len s r d).0);
    doorbells = d.derived.doorbells ++ ep_id ∷ [];
  };
}

-- The device that no longer waits for a block.
abbrev pub forget : ℕ → Device Slot → Device Slot
forget at d = record d {
  derived = record d.derived { setup_stage_map = delete same_pointer at d.derived.setup_stage_map };
}

-- How much has been transferred.
abbrev pub transferred : Option ℕ → ℕ → Trb → ℕ
transferred none len event = 0
transferred (some buf) len event = len - residual_length event

abbrev pub IsBuffer : Option ℕ → Type 0
IsBuffer none = Unit
IsBuffer (some buf) = (1 ≤ buf) × (buf < 2 ^ 64)

-- A request that can be sent: its endpoint has a ring with room for the blocks, and the map has room
-- for it and does not wait for the same block already.
pub record Sends (dir_in : Bool) (ep_id : ℕ) (buf : Option ℕ) (len : ℕ) (s : SetupData) (r : Ring)
    (d : Device Slot) : Type 0 where
  pub request : IsRequest s
  pub buffer : IsBuffer buf
  pub fits : len < 2 ^ 17
  pub endpoint : (1 ≤ ep_id) × (ep_id < 32)
  pub ring : get_elem? d.derived.transfer_rings (ep_id - 1) ≡ some (some r)
  pub ready : Ready r
  pub long : 4 ≤ r.buf_size
  pub fresh : get same_pointer (awaited dir_in buf s r) d.derived.setup_stage_map ≡ none
  pub room : 1 ≤ room same_pointer d.derived.setup_stage_map

-- The memory of the blocks is as a ring has it.
abbrev pub Holds : (ℕ → Trb) → Ring → Type 0
Holds blocks r =
    (i : ℕ) (trb : Trb) → get_elem? r.buf i ≡ some trb → blocks (r.address + 16 * i) ≡ trb

control-sent :
    (dir_in : Bool) (ep_id : ℕ) (buf : Option ℕ) (len : ℕ) (s : SetupData) (r : Ring)
    (d : Device Slot)
    → Sends dir_in ep_id buf len s r d
    → control dir_in ep_id s buf len none d ≡ done (success, sent dir_in ep_id buf len s r d)
unfolding control
control-sent dir_in ep_id buf len s r d h = ground (arith, h.endpoint.0, h.endpoint.1, h.ring)

same_pointer-IsEquality : IsEquality same_pointer
same_pointer-IsEquality = record { sound = λ a b e. (==_iff a b).0 e; complete = λ a. ground arith }

-- The map finds the setup stage of the block that is awaited.
found_stage :
    (at value : ℕ) (table : ArrayMap ℕ ℕ)
    → get same_pointer at table ≡ none
    → 1 ≤ room same_pointer table
    → get same_pointer at (put same_pointer at value table) ≡ some value
found_stage at value table fresh space =
    (get-put same_pointer at (suc at) value table same_pointer-IsEquality fresh space
      (λ e. absurd (omega (arith, e)))).0

module _ (blocks : ℕ → Trb)
    (completed : SetupData → Option ℕ → ℕ → Device Slot → Run (Code × Device Slot)) where
  data_stage-completed :
      (event : Trb) (stage buf : ℕ) (d : Device Slot)
      → get same_pointer (pointer event) d.derived.setup_stage_map ≡ some stage
      → trb_type (blocks (pointer event)) ≡ 3
      → pointer (blocks (pointer event)) ≡ buf
      → 1 ≤ buf
      → on_control_event blocks completed event d
        ≡ completed
            (setup_data_of (blocks stage))
            (some buf)
            (transfer_length (blocks (pointer event)) - residual_length event)
            (forget (pointer event) d)
  unfolding on_control_event
  data_stage-completed event stage buf d found is_data p h = ground (arith, found, is_data, p, h)

  status_stage-completed :
      (event : Trb) (stage : ℕ) (d : Device Slot)
      → get same_pointer (pointer event) d.derived.setup_stage_map ≡ some stage
      → trb_type (blocks (pointer event)) ≡ 4
      → on_control_event blocks completed event d
        ≡ completed (setup_data_of (blocks stage)) none 0 (forget (pointer event) d)
  unfolding on_control_event
  status_stage-completed event stage d found is_status = ground (arith, found, is_status)

-- The memory at the place of a ring that has moved on.
at_place :
    (blocks : ℕ → Trb) (r r' : Ring) (i : ℕ) (trb : Trb)
    → Holds blocks r'
    → r'.address ≡ r.address
    → get_elem? r'.buf i ≡ some trb
    → blocks (r.address + 16 * i) ≡ trb
at_place blocks r r' i trb holds same at = ap (λ a. blocks (a + 16 * i)) (sym same) ∙ holds i trb at

-- A transfer event that is no error, for a block of a control transfer.
received :
    (blocks : ℕ → Trb) (fuel : ℕ) (place : ℕ → ℕ) (has_observer : Kind → Bool) (memory : Bytes)
    (event : Trb) (d : Device Slot)
    → (completion_code event ≡ 1) ⊎ (completion_code event ≡ 13)
    → trb_type (blocks (pointer event)) ≢ 1
    → on_transfer_event_received blocks fuel place has_observer memory event d
      ≡ on_control_event blocks
          (on_control_completed transfers fuel place has_observer memory)
          event
          d
unfolding on_transfer_event_received
received blocks fuel place has_observer memory event d (inl e) ne = ground (arith, e, ne)
received blocks fuel place has_observer memory event d (inr e) ne = ground (arith, e, ne)

abbrev completed_by :
    ℕ
    → (ℕ → ℕ)
    → (Kind → Bool)
    → Bytes
    → SetupData
    → Option ℕ
    → ℕ
    → Device Slot
    → Run (Code × Device Slot)
completed_by = on_control_completed transfers

same_call :
    (completed : SetupData → Option ℕ → ℕ → Device Slot → Run (Code × Device Slot)) (buf : Option ℕ)
    (d : Device Slot) {s s' : SetupData} {n n' at at' : ℕ}
    → s ≡ s'
    → n ≡ n'
    → at ≡ at'
    → completed s buf n (forget at d) ≡ completed s' buf n' (forget at' d)
same_call completed buf d {s' = s'} {n = n} {n' = n'} {at = at} e f g =
    ap (λ x. completed x buf n (forget at d)) e ∙ ap₂ (λ k a. completed s' buf k (forget a d)) f g

-- A control transfer for no driver, on a ring with room for its blocks and with room in the map of
-- setup stages, is sent, and the event that its block completed, with success or with a short
-- packet, gives the device the same setup data and buffer back, with the length that was
-- transferred; the device then no longer waits for the block.
pub control-Completed :
    (dir_in : Bool) (ep_id : ℕ) (buf : Option ℕ) (len : ℕ) (s : SetupData) (r : Ring)
    (d : Device Slot) (blocks : ℕ → Trb) (fuel : ℕ) (place : ℕ → ℕ) (has_observer : Kind → Bool)
    (memory : Bytes) (event : Trb)
    → Sends dir_in ep_id buf len s r d
    → Holds blocks (staged dir_in buf len s r d).0
    → pointer event ≡ awaited dir_in buf s r
    → (completion_code event ≡ 1) ⊎ (completion_code event ≡ 13)
    → let d' = sent dir_in ep_id buf len s r d in
      (control dir_in ep_id s buf len none d ≡ done (success, d'))
      × (on_transfer_event_received blocks fuel place has_observer memory event d'
          ≡ on_control_completed transfers fuel place has_observer memory s buf
              (transferred buf len event)
              (forget (awaited dir_in buf s r) d'))
unfolding push_stages
control-Completed dir_in ep_id none len s r d blocks fuel place has_observer memory event h holds at
      ok =
    let setup = setup_stage dir_in none s in
    let d' = sent dir_in ep_id none len s r d in
    let status = status_stage_trb true true in
    let p = push-Pushed setup r h.ready in
    let last = push-Pushed status (push setup r) p.ready in
    let at_setup =
      at_place blocks r (staged dir_in none len s r d).0 r.write_index (stored r.cycle_bit setup)
        holds (last.same.1 ∙ p.same.1) (push-push setup status r h.ready (omega (arith, h.long))) in
    let at_status =
      at_place blocks (push setup r) (staged dir_in none len s r d).0 (push setup r).write_index
        (stored (push setup r).cycle_bit status) holds last.same.1
        (push-stored status (push setup r) p.ready) in
    let is_status =
      ap trb_type (ap blocks at ∙ at_status) ∙ trb_type-status_stage_trb (push setup r).cycle_bit in
    let found =
      ap (λ a. get same_pointer a d'.derived.setup_stage_map) at
      ∙ found_stage (awaited dir_in none s r) (position r) d.derived.setup_stage_map h.fresh
          h.room in
    (
      control-sent dir_in ep_id none len s r d h,
      received blocks fuel place has_observer memory event d' ok
            (λ e. absurd (omega (arith, e, is_status)))
          ∙ status_stage-completed blocks (completed_by fuel place has_observer memory) event
              (position r) d' found is_status
          ∙ same_call (completed_by fuel place has_observer memory) none d'
              (ap setup_data_of at_setup
                ∙ setup_data_of-make_setup_stage_trb r.cycle_bit s no_data_stage h.request)
              refl at,
    )
control-Completed dir_in ep_id (some buf) len s r d blocks fuel place has_observer memory event h
      holds at ok =
    let setup = setup_stage dir_in (some buf) s in
    let data_block = make_data_stage_trb buf len dir_in in
    let d' = sent dir_in ep_id (some buf) len s r d in
    let status = status_stage_trb (not dir_in) false in
    let p = push-Pushed setup r h.ready in
    let q = push-Pushed data_block (push setup r) p.ready in
    let last = push-Pushed status (push data_block (push setup r)) q.ready in
    let (first, second) = push-push-push setup data_block status r h.ready h.long in
    let at_setup =
      at_place blocks r (staged dir_in (some buf) len s r d).0 r.write_index
        (stored r.cycle_bit setup) holds (last.same.1 ∙ q.same.1 ∙ p.same.1) first in
    let at_data =
      at_place blocks (push setup r) (staged dir_in (some buf) len s r d).0
        (push setup r).write_index (stored (push setup r).cycle_bit data_block) holds
        (last.same.1 ∙ q.same.1) second in
    let block = ap blocks at ∙ at_data in
    let is_data =
      ap trb_type block ∙ trb_type-make_data_stage_trb (push setup r).cycle_bit buf len dir_in in
    let found =
      ap (λ a. get same_pointer a d'.derived.setup_stage_map) at
      ∙ found_stage (awaited dir_in (some buf) s r) (position r) d.derived.setup_stage_map h.fresh
          h.room in
    (
      control-sent dir_in ep_id (some buf) len s r d h,
      received blocks fuel place has_observer memory event d' ok
            (λ e. absurd (omega (arith, e, is_data)))
          ∙ data_stage-completed blocks (completed_by fuel place has_observer memory) event
              (position r) buf d' found is_data
              (ap pointer block
                ∙ pointer-make_data_stage_trb (push setup r).cycle_bit buf len dir_in h.buffer.1)
              h.buffer.0
          ∙ same_call (completed_by fuel place has_observer memory) (some buf) d'
              (ap setup_data_of at_setup
                ∙ setup_data_of-make_setup_stage_trb r.cycle_bit s
                    (if dir_in then in_data_stage else out_data_stage) h.request)
              (ap (λ b. transfer_length b - residual_length event) block
                ∙ ap (λ n. n - residual_length event)
                    (transfer_length-make_data_stage_trb (push setup r).cycle_bit buf len dir_in
                      h.fits))
              at,
    )

-- A block that is no longer waited for.
forgotten :
    (at value : ℕ) (table : ArrayMap ℕ ℕ)
    → get same_pointer at table ≡ none
    → get same_pointer at (delete same_pointer at (put same_pointer at value table)) ≡ none
forgotten at value table fresh =
    (get-delete same_pointer at (suc at) (put same_pointer at value table) same_pointer-IsEquality
      (copies-put same_pointer at value table fresh) (λ e. absurd (omega (arith, e)))).0

forgotten_sent :
    (dir_in : Bool) (ep_id : ℕ) (buf : Option ℕ) (len : ℕ) (s : SetupData) (r : Ring)
    (d : Device Slot)
    → Sends dir_in ep_id buf len s r d
    → get same_pointer
        (awaited dir_in buf s r)
        (forget (awaited dir_in buf s r) (sent dir_in ep_id buf len s r d)).derived.setup_stage_map
      ≡ none
unfolding push_stages
forgotten_sent dir_in ep_id none len s r d h =
    forgotten (awaited dir_in none s r) (position r) d.derived.setup_stage_map h.fresh
forgotten_sent dir_in ep_id (some buf) len s r d h =
    forgotten (awaited dir_in (some buf) s r) (position r) d.derived.setup_stage_map h.fresh

unknown_block :
    (blocks : ℕ → Trb) (fuel : ℕ) (place : ℕ → ℕ) (has_observer : Kind → Bool) (memory : Bytes)
    (event : Trb) (d : Device Slot)
    → get same_pointer (pointer event) d.derived.setup_stage_map ≡ none
    → on_control_event blocks (completed_by fuel place has_observer memory) event d
      ≡ done (no_corresponding_setup_stage, d)
unfolding on_control_event
unknown_block blocks fuel place has_observer memory event d e = ground (arith, e)

-- A control transfer that was sent is completed by the event for its block. When the device sends no
-- other control transfer in answer, a second event for the block is an error that changes nothing,
-- whatever the memory of the blocks then holds, as long as it is no normal transfer.
pub on_transfer_event_received-Repeated :
    (dir_in : Bool) (ep_id : ℕ) (buf : Option ℕ) (len : ℕ) (s : SetupData) (r : Ring)
    (d : Device Slot) (blocks blocks' : ℕ → Trb) (fuel : ℕ) (place : ℕ → ℕ)
    (has_observer : Kind → Bool) (memory : Bytes) (event : Trb) (code : Code) (after : Device Slot)
    → Sends dir_in ep_id buf len s r d
    → Holds blocks (staged dir_in buf len s r d).0
    → pointer event ≡ awaited dir_in buf s r
    → (completion_code event ≡ 1) ⊎ (completion_code event ≡ 13)
    → on_control_completed transfers fuel place has_observer memory s buf
        (transferred buf len event)
        (forget (awaited dir_in buf s r) (sent dir_in ep_id buf len s r d))
      ≡ done (code, after)
    → after.derived.setup_stage_map
      ≡ (forget (awaited dir_in buf s r) (sent dir_in ep_id buf len s r d)).derived.setup_stage_map
    → trb_type (blocks' (pointer event)) ≢ 1
    → (on_transfer_event_received blocks fuel place has_observer memory event
          (sent dir_in ep_id buf len s r d)
        ≡ done (code, after))
      × (on_transfer_event_received blocks' fuel place has_observer memory event after
          ≡ done (no_corresponding_setup_stage, after))
on_transfer_event_received-Repeated dir_in ep_id buf len s r d blocks blocks' fuel place
      has_observer memory event code after h holds at ok answer quiet other =
    (
      (control-Completed dir_in ep_id buf len s r d blocks fuel place has_observer memory event h
            holds at ok).1
          ∙ answer,
      received blocks' fuel place has_observer memory event after ok other
          ∙ unknown_block blocks' fuel place has_observer memory event after (
              ap₂ (λ a table. get same_pointer a table) at quiet
              ∙ forgotten_sent dir_in ep_id buf len s r d h),
    )
