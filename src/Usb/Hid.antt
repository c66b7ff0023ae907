-- ===== src/Usb/Hid.antt =====
-- kernel/usb/classdriver/hid.cpp, keyboard.cpp, mouse.cpp: the state of the drivers of keyboards and
-- mice, and what they tell their observers. Their requests to the device are in Usb.Device.
pub mod Reports
use uhyok_os.Base.{
  ℕ, zero, suc, ◌+◌, ◌-◌, Bool, true, false, ◌&&◌, ◌==◌, ltb, not, if◌then◌else◌, List, [], ◌∷◌,
  ◌++◌, drop, take, replicate, length, Option, none, some,
}
use uhyok_os.Base.Int.{ℤ, pos, negsuc}
use uhyok_os.Usb.Descriptor.{
  Bytes, EndpointConfig, EndpointType, control, isochronous, bulk, interrupt, is_in,
}

pub data Kind : Type 0 where
  keyboard mouse : Kind

-- A call of an observer.
pub data Notice : Type 0 where
  key_push : (modifier keycode : ℕ) → Notice
  mouse_move : (buttons : ℕ) (displacement_x displacement_y : ℤ) → Notice

-- A driver: its class, the members of `HIDBaseDriver`, where its `buf_` stands, and what its
-- observers have been told.
pub record Driver : Type 0 where
  pub kind : Kind
  pub interface_index : ℕ
  pub in_packet_size : ℕ
  pub ep_interrupt_in : ℕ
  pub ep_interrupt_out : ℕ
  pub initialize_phase : ℕ
  pub buf : ℕ
  pub previous_buf : List ℕ
  pub num_observers : ℕ
  pub notices : List Notice

abbrev pub buffer_size : ℕ
buffer_size = 1024

-- The constructors of the two classes: `buf` is where the object's memory is, and an observer is
-- subscribed when there is a default one.
abbrev pub new : Kind → ℕ → ℕ → Bool → Driver
new kind interface_index buf has_observer = record {
  kind = kind;
  interface_index = interface_index;
  in_packet_size = elim kind [ keyboard ↦ 8 | mouse ↦ 3 ];
  ep_interrupt_in = 0;
  ep_interrupt_out = 0;
  initialize_phase = 0;
  buf = buf;
  previous_buf = replicate buffer_size 0;
  num_observers = if has_observer then 1 else 0;
  notices = [];
}

abbrev pub is_interrupt : EndpointType → Bool
is_interrupt interrupt = true
is_interrupt _ = false

-- `SetEndpoint`.
pub set_endpoint : EndpointConfig → Driver → Driver
set_endpoint config d =
    if is_interrupt config.ep_type && is_in config.ep_id
    then record d { ep_interrupt_in = config.ep_id }
    else if is_interrupt config.ep_type && not (is_in config.ep_id)
    then record d { ep_interrupt_out = config.ep_id }
    else d

-- The loops over the observers.
abbrev pub notify : Notice → Driver → Driver
notify notice d = record d { notices = d.notices ++ replicate d.num_observers notice }

-- `std::find` over a buffer.
abbrev pub contains : ℕ → List ℕ → Bool
contains key [] = false
contains key (b ∷ bs) = if b == key then true else contains key bs

-- `HIDKeyboardDriver::OnDataReceived`, with `n` of its 6 rounds left.
unfoldable pub push_keys : Bytes → ℕ → Driver → Driver
push_keys memory zero d = d
push_keys memory (suc n) d =
    let key = memory (d.buf + (8 - suc n)) in
    push_keys memory n (
      if key == 0
      then d
      else if contains key (drop 2 d.previous_buf)
      then d
      else notify (key_push (memory d.buf) key) d)

-- The conversion of a byte to `int8_t`.
abbrev pub to_int8 : ℕ → ℤ
to_int8 b = if ltb b 128 then pos b else negsuc (255 - b)

-- `OnDataReceived` of the two classes.
unfoldable pub on_data_received : Bytes → Driver → Driver
on_data_received memory d = elim d.kind [
  | keyboard ↦ push_keys memory 6 d
  | mouse ↦
      notify
        (mouse_move (memory d.buf) (to_int8 (memory (d.buf + 1))) (to_int8 (memory (d.buf + 2)))) d
]

-- The first `n` bytes from an address.
abbrev pub bytes_at : Bytes → ℕ → ℕ → List ℕ
bytes_at memory p zero = []
bytes_at memory p (suc n) = memory p ∷ bytes_at memory (p + 1) n

-- `std::copy_n` of the buffer into `previous_buf_`.
abbrev pub keep_buffer : Bytes → ℕ → Driver → Driver
keep_buffer memory len d = record d {
  previous_buf = bytes_at memory d.buf len ++ drop len d.previous_buf;
}
