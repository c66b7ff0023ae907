-- ===== src/Xhci/Device/Tests.antt =====
-- kernel/usb/device.cpp, xhci/device.cpp, classdriver: a keyboard at concrete values, and the
-- theorems there.
use uhyok_os.Base.{
  ℕ, ◌+◌, ◌≤◌, ◌<◌, ◌≡◌, ◌≢◌, refl, Bool, true, false, not, ◌&&◌, ◌==◌, List, [], ◌∷◌, ◌++◌, none,
  some, arith, subst, sym, ap, ◌∙◌, ◌⊎◌, ◌*◌, ◌/◌, ◌-◌, ◌^◌, get_elem?, drop, get_or, replicate,
  inl, inr,
}
use uhyok_os.Errors.{success, no_waiter, no_corresponding_setup_stage}
use uhyok_os.Usb.ArrayMap.{init, get}
use uhyok_os.Usb.Ring.{Trb, Ring, blank}
use uhyok_os.Usb.Ring.Pushing.{Ready, push-Pushed}
use uhyok_os.Usb.Hid.{Driver, Kind, keyboard, new, contains}
use uhyok_os.Usb.Hid.Reports.{after_report, pushes, keys_in, on_data_received-KeyPush}
use uhyok_os.Usb.Descriptor.{
  EndpointType, Bytes, done, SetupData, InterfaceDescriptor, ConfigurationDescriptor,
  EndpointConfig, as_interface, as_endpoint,
}
use uhyok_os.Usb.Device.{Device, read_interfaces}
use uhyok_os.Usb.Device.Chain.{
  Chain, Starts, at_first, at_next, ends, follows, reader, supported_in,
}
use uhyok_os.Usb.Device.Interfaces.{reads, Fits}
use uhyok_os.Usb.Device.Halting.{Chain-unique, read_interfaces-reads}
use uhyok_os.Usb.Device.Handlers.{on_control_completed, descriptor_setup}
use uhyok_os.Xhci.Device.{Slot, transfers, pointer, control, on_transfer_event_received}
use uhyok_os.Xhci.Device.Transfer.{
  Sends, setup_stage, sent, staged, awaited, forget, transferred, Holds, control-Completed,
  on_transfer_event_received-Repeated,
}

-- A configuration with one interface, a keyboard's, its HID descriptor and one endpoint.
abbrev description : Bytes
description p =
    get_or
      (9 ∷ 2 ∷ 34 ∷ 0 ∷ 1 ∷ 1 ∷ 0 ∷ 160 ∷ 50 ∷ 9 ∷ 4 ∷ 0 ∷ 0 ∷ 1 ∷ 3 ∷ 1 ∷ 1 ∷ 0 ∷ 9 ∷ 33 ∷ 17 ∷ 1
        ∷ 0 ∷ 1 ∷ 34 ∷ 63 ∷ 0 ∷ 7 ∷ 5 ∷ 129 ∷ 3 ∷ 8 ∷ 0 ∷ 10 ∷ [])
      p 0

abbrev places : List ℕ
places = 9 ∷ 18 ∷ 27 ∷ []

places-Chain : Chain description 34 0 places
places-Chain =
    follows (omega arith) (follows (omega arith) (follows (omega arith) (ends (omega arith))))

abbrev keyboard_interface : InterfaceDescriptor
keyboard_interface = record {
  length = 9;
  descriptor_type = 4;
  interface_number = 0;
  alternate_setting = 0;
  num_endpoints = 1;
  interface_class = 3;
  interface_sub_class = 1;
  interface_protocol = 1;
  interface_id = 0;
}

abbrev configuration : ConfigurationDescriptor
configuration = record {
  length = 9;
  descriptor_type = 2;
  total_length = 34;
  num_interfaces = 1;
  configuration_value = 1;
  configuration_id = 0;
  attributes = 160;
  max_power = 50;
}

abbrev ring : Ring
ring = record {
  buf = replicate 8 blank;
  address = 0x1000;
  buf_size = 8;
  cycle_bit = true;
  write_index = 6;
}

abbrev slot : Slot
slot = record {
  transfer_rings = some ring ∷ replicate 30 none;
  setup_stage_map = init 16 0;
  doorbells = [];
}

abbrev blank_config : EndpointConfig
blank_config = record {
  ep_id = 0;
  ep_type = EndpointType.control;
  max_packet_size = 0;
  interval = 0;
}

abbrev no_request : SetupData
no_request = descriptor_setup 0 0 0

abbrev device : Device Slot
device = record {
  derived = slot;
  drivers = [];
  class_drivers = replicate 16 none;
  buf = 0x3000;
  num_configurations = 1;
  config_index = 0;
  is_initialized = false;
  initialize_phase = 2;
  ep_configs = replicate 16 blank_config;
  num_ep_configs = 0;
  event_waiters = init 4 0;
}

abbrev place : ℕ → ℕ
place n = 0x4000 + n

abbrev has_observer : Kind → Bool
has_observer kind = true

-- Where the reader finds the descriptors, by what it read before.
start_of : (p : ℕ) → Starts description 34 0 p → (p ≡ 0) ⊎ ((p ≡ 9) ⊎ ((p ≡ 18) ⊎ (p ≡ 27)))
start_of p at_first = inl refl
start_of p (at_next {p = q} s l) = elim (start_of q s) [
  | inl e ↦ inr (inl (ap (λ x. x + description x) e))
  | inr (inl e) ↦ inr (inr (inl (ap (λ x. x + description x) e)))
  | inr (inr (inl e)) ↦ inr (inr (inr (ap (λ x. x + description x) e)))
  | inr (inr (inr e)) ↦ absurd (past (subst (λ x. x + description x < 34) e l))
]
  where
    past : 27 + description 27 < 34 → ⊥
    past h = omega arith

Starts-long : (p : ℕ) → Starts description 34 0 p → 1 ≤ description p
Starts-long p s = elim (start_of p s) [
  | inl e ↦ subst (λ q. 1 ≤ description q) (sym e) (omega arith)
  | inr (inl e) ↦ subst (λ q. 1 ≤ description q) (sym e) (omega arith)
  | inr (inr (inl e)) ↦ subst (λ q. 1 ≤ description q) (sym e) (omega arith)
  | inr (inr (inr e)) ↦ subst (λ q. 1 ≤ description q) (sym e) (omega arith)
]

description-Fits :
    (ds : List ℕ)
    → Chain description 34 0 ds
    → Fits place has_observer description device (supported_in description ds)
unfolding as_interface as_endpoint
description-Fits ds c =
    subst (λ es. Fits place has_observer description device (supported_in description es))
      (Chain-unique places-Chain c) (omega arith, omega arith)

read_interfaces-reads_example :
    (ds : List ℕ) × Chain description 34 0 ds
    × (read_interfaces 35 place has_observer description (reader description 0 34 0) device
        ≡ done (reads place has_observer description device (supported_in description ds)))
read_interfaces-reads_example =
    read_interfaces-reads place has_observer description 0 34 device Starts-long description-Fits

-- The device asks for 256 bytes at 0x3000, and gets 34 of them.
abbrev request : SetupData
request = descriptor_setup 2 0 256

ring-Ready : Ready ring
ring-Ready = record { size = refl; bounded = omega arith; long = omega arith; index = omega arith }

request-Sends : Sends true 1 (some 0x3000) 256 request ring device
unfolding get
request-Sends = record {
  request = record {
    request_type = omega arith;
    request = omega arith;
    value = omega arith;
    index = omega arith;
    length = omega arith;
  };
  buffer = (omega arith, omega arith);
  fits = omega arith;
  endpoint = (omega arith, omega arith);
  ring = refl;
  ready = ring-Ready;
  long = omega arith;
  fresh = refl;
  room = omega arith;
}

-- The memory where the ring stands.
abbrev memory_of : Ring → ℕ → Trb
memory_of r p = elim (get_elem? r.buf ((p - r.address) / 16)) [ none ↦ blank | some trb ↦ trb ]

memory_of-Holds : (r : Ring) → Holds (memory_of r) r
memory_of-Holds r i trb e =
    let place : (r.address + 16 * i - r.address) / 16 ≡ i = omega arith in
    ap (λ k. elim (get_elem? r.buf k) [ none ↦ blank | some trb' ↦ trb' ]) place
    ∙ ap (λ o. elim o [ none ↦ blank | some trb' ↦ trb' ]) e

abbrev event : Trb
event = record { word0 = 0x1000; word1 = 0; word2 = 2 ^ 24 + 222; word3 = 32 * 2 ^ 10 + 2 ^ 16 }

event-awaited : pointer event ≡ awaited true (some 0x3000) request ring
event-awaited = omega (
  arith,
  (push-Pushed (setup_stage true (some 0x3000) request) ring ring-Ready).index,
  (push-Pushed (setup_stage true (some 0x3000) request) ring ring-Ready).same.1,
)

abbrev blocks : ℕ → Trb
blocks = memory_of (staged true (some 0x3000) 256 request ring device).0

control-Completed_example :
    let d' = sent true 1 (some 0x3000) 256 request ring device in
    (control true 1 request (some 0x3000) 256 none device ≡ done (success, d'))
    × (on_transfer_event_received blocks 4 place has_observer description event d'
        ≡ on_control_completed transfers 4 place has_observer description request
            (some 0x3000)
            (transferred (some 0x3000) 256 event)
            (forget (awaited true (some 0x3000) request ring) d'))
control-Completed_example =
    control-Completed true 1 (some 0x3000) 256 request ring device blocks 4 place has_observer
      description event request-Sends
      (memory_of-Holds (staged true (some 0x3000) 256 request ring device).0) event-awaited
      (inl refl)

-- The device is initialized and no driver waits for what it asked.
abbrev ready : Device Slot
ready = record device { is_initialized = true }

ready-Sends : Sends true 1 (some 0x3000) 256 request ring ready
ready-Sends = record {
  request = request-Sends.request;
  buffer = request-Sends.buffer;
  fits = request-Sends.fits;
  endpoint = request-Sends.endpoint;
  ring = request-Sends.ring;
  ready = request-Sends.ready;
  long = request-Sends.long;
  fresh = request-Sends.fresh;
  room = request-Sends.room;
}

abbrev answered : Device Slot
answered =
    forget (awaited true (some 0x3000) request ring)
      (sent true 1 (some 0x3000) 256 request ring ready)

ready-no_waiter :
    on_control_completed transfers 4 place has_observer description request
      (some 0x3000)
      (transferred (some 0x3000) 256 event)
      answered
    ≡ done (no_waiter, answered)
unfolding on_control_completed get
ready-no_waiter = refl

on_transfer_event_received-Repeated_example :
    let sent_device = sent true 1 (some 0x3000) 256 request ring ready in
    (on_transfer_event_received blocks 4 place has_observer description event sent_device
      ≡ done (no_waiter, answered))
    × (on_transfer_event_received (λ p. blank) 4 place has_observer description event answered
        ≡ done (no_corresponding_setup_stage, answered))
on_transfer_event_received-Repeated_example =
    on_transfer_event_received-Repeated true 1 (some 0x3000) 256 request ring ready blocks
      (λ p. blank) 4 place has_observer description event no_waiter answered ready-Sends
      (memory_of-Holds (staged true (some 0x3000) 256 request ring ready).0) event-awaited
      (inl refl) ready-no_waiter refl (λ e. absurd (omega (arith, e)))

-- The key `a`, and then `a` and `b`.
abbrev first_report : Bytes
first_report p = get_or (0 ∷ 0 ∷ 4 ∷ 0 ∷ 0 ∷ 0 ∷ 0 ∷ 0 ∷ []) p 0

abbrev second_report : Bytes
second_report p = get_or (2 ∷ 0 ∷ 4 ∷ 5 ∷ 0 ∷ 0 ∷ 0 ∷ 0 ∷ []) p 0

abbrev driver : Driver
driver = record (new keyboard 0 0 true) { previous_buf = replicate 16 0 }

quiet : (k : ℕ) → k ≢ 0 → contains k (drop 8 driver.previous_buf) ≡ false
quiet k ne = ground (arith, ne)

on_data_received-KeyPush_example :
    (keys : List ℕ) × ((after_report second_report (after_report first_report driver)).notices
      ≡ (after_report first_report driver).notices ++ pushes 1 2 keys)
    × ((k : ℕ)
        → contains k keys ≡ (
            not (k == 0)
            && (contains k (keys_in second_report driver)
                && not (contains k (keys_in first_report driver)))))
on_data_received-KeyPush_example =
    on_data_received-KeyPush first_report second_report driver refl quiet
