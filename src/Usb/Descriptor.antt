-- ===== src/Usb/Descriptor.antt =====
-- kernel/usb/descriptor.hpp, endpoint.hpp, setupdata.hpp, and the reader of device.cpp: what a device
-- says of itself in bytes of memory, and the requests to it.
use uhyok_os.Base.{
  ℕ, zero, suc, ◌+◌, ◌*◌, ◌/◌, ◌%◌, ◌^◌, Bool, true, ◌&&◌, ◌==◌, ltb, if◌then◌else◌, Option, none,
  some,
}

-- Where a byte stands, and what it is.
abbrev pub Bytes : Type 0
Bytes = ℕ → ℕ

abbrev pub read16 : Bytes → ℕ → ℕ
read16 memory p = memory p + memory (p + 1) * 2 ^ 8

pub record DeviceDescriptor : Type 0 where
  pub length : ℕ
  pub descriptor_type : ℕ
  pub usb_release : ℕ
  pub device_class : ℕ
  pub device_sub_class : ℕ
  pub device_protocol : ℕ
  pub max_packet_size : ℕ
  pub vendor_id : ℕ
  pub product_id : ℕ
  pub device_release : ℕ
  pub manufacturer : ℕ
  pub product : ℕ
  pub serial_number : ℕ
  pub num_configurations : ℕ

pub record ConfigurationDescriptor : Type 0 where
  pub length : ℕ
  pub descriptor_type : ℕ
  pub total_length : ℕ
  pub num_interfaces : ℕ
  pub configuration_value : ℕ
  pub configuration_id : ℕ
  pub attributes : ℕ
  pub max_power : ℕ

pub record InterfaceDescriptor : Type 0 where
  pub length : ℕ
  pub descriptor_type : ℕ
  pub interface_number : ℕ
  pub alternate_setting : ℕ
  pub num_endpoints : ℕ
  pub interface_class : ℕ
  pub interface_sub_class : ℕ
  pub interface_protocol : ℕ
  pub interface_id : ℕ

pub record EndpointDescriptor : Type 0 where
  pub length : ℕ
  pub descriptor_type : ℕ
  pub endpoint_address : ℕ
  pub attributes : ℕ
  pub max_packet_size : ℕ
  pub interval : ℕ

-- `DescriptorDynamicCast`, for each of the types it is used at.
unfoldable pub as_device : Bytes → ℕ → Option DeviceDescriptor
as_device memory p =
    if memory (p + 1) == 1
    then some (record {
      length = memory p;
      descriptor_type = memory (p + 1);
      usb_release = read16 memory (p + 2);
      device_class = memory (p + 4);
      device_sub_class = memory (p + 5);
      device_protocol = memory (p + 6);
      max_packet_size = memory (p + 7);
      vendor_id = read16 memory (p + 8);
      product_id = read16 memory (p + 10);
      device_release = read16 memory (p + 12);
      manufacturer = memory (p + 14);
      product = memory (p + 15);
      serial_number = memory (p + 16);
      num_configurations = memory (p + 17);
    })
    else none

unfoldable pub as_configuration : Bytes → ℕ → Option ConfigurationDescriptor
as_configuration memory p =
    if memory (p + 1) == 2
    then some (record {
      length = memory p;
      descriptor_type = memory (p + 1);
      total_length = read16 memory (p + 2);
      num_interfaces = memory (p + 4);
      configuration_value = memory (p + 5);
      configuration_id = memory (p + 6);
      attributes = memory (p + 7);
      max_power = memory (p + 8);
    })
    else none

unfoldable pub as_interface : Bytes → ℕ → Option InterfaceDescriptor
as_interface memory p =
    if memory (p + 1) == 4
    then some (record {
      length = memory p;
      descriptor_type = memory (p + 1);
      interface_number = memory (p + 2);
      alternate_setting = memory (p + 3);
      num_endpoints = memory (p + 4);
      interface_class = memory (p + 5);
      interface_sub_class = memory (p + 6);
      interface_protocol = memory (p + 7);
      interface_id = memory (p + 8);
    })
    else none

unfoldable pub as_endpoint : Bytes → ℕ → Option EndpointDescriptor
as_endpoint memory p =
    if memory (p + 1) == 5
    then some (record {
      length = memory p;
      descriptor_type = memory (p + 1);
      endpoint_address = memory (p + 2);
      attributes = memory (p + 3);
      max_packet_size = read16 memory (p + 4);
      interval = memory (p + 6);
    })
    else none

pub data EndpointType : Type 0 where
  control isochronous bulk interrupt : EndpointType

-- The cast of a field of two bits.
abbrev pub endpoint_type : ℕ → EndpointType
endpoint_type zero = control
endpoint_type (suc zero) = isochronous
endpoint_type (suc (suc zero)) = bulk
endpoint_type _ = interrupt

-- `EndpointID`, as its address.
abbrev pub endpoint_id : ℕ → Bool → ℕ
endpoint_id ep_num dir_in = ep_num * 2 + (if dir_in then 1 else 0)

abbrev pub number : ℕ → ℕ
number ep_id = ep_id / 2

abbrev pub is_in : ℕ → Bool
is_in ep_id = ep_id % 2 == 1

abbrev pub default_control_pipe : ℕ
default_control_pipe = endpoint_id 0 true

pub record EndpointConfig : Type 0 where
  pub ep_id : ℕ
  pub ep_type : EndpointType
  pub max_packet_size : ℕ
  pub interval : ℕ

-- `MakeEPConfig`, with the bit fields of the address and of the attributes.
abbrev pub make_ep_config : EndpointDescriptor → EndpointConfig
make_ep_config d = record {
  ep_id = endpoint_id (d.endpoint_address % 2 ^ 4) (d.endpoint_address / 2 ^ 7 % 2 == 1);
  ep_type = endpoint_type (d.attributes % 2 ^ 2);
  max_packet_size = d.max_packet_size;
  interval = d.interval;
}

-- `SetupData`, with `request_type.data`.
pub record SetupData : Type 0 where
  pub request_type : ℕ
  pub request : ℕ
  pub value : ℕ
  pub index : ℕ
  pub length : ℕ

-- `request_type.bits`: 5 bits of a recipient, 2 of a type and the direction.
abbrev pub request_bits : ℕ → ℕ → ℕ → ℕ
request_bits direction type recipient =
    recipient % 2 ^ 5 + type % 2 ^ 2 * 2 ^ 5 + direction % 2 * 2 ^ 7

-- `operator==`.
pub same_setup : SetupData → SetupData → Bool
same_setup lhs rhs =
    (lhs.request_type == rhs.request_type)
    && ((lhs.request == rhs.request)
        && ((lhs.value == rhs.value) && ((lhs.index == rhs.index) && (lhs.length == rhs.length))))

-- The members of `ConfigurationDescriptorReader`.
pub record Reader : Type 0 where
  pub desc_buf : ℕ
  pub desc_buf_len : ℕ
  pub p : ℕ

-- `Next`.
abbrev pub next : Bytes → Reader → Option ℕ × Reader
next memory r =
    let p = r.p + memory r.p in
    (if ltb p (r.desc_buf + r.desc_buf_len) then some p else none, record r { p = p })

-- What a run of code comes to: a result, something the language leaves undefined, or no more fuel.
pub data Run {ℓ} (A : Type ℓ) : Type ℓ where
  done : A → Run A
  undefined : Run A
  unfinished : Run A

-- `Next<InterfaceDescriptor>`, on fuel for its loop.
unfoldable pub next_interface : ℕ → Bytes → Reader → Run (Option InterfaceDescriptor × Reader)
next_interface zero memory r = unfinished
next_interface (suc fuel) memory r =
    let rest = next_interface fuel memory (next memory r).1 in
    elim (next memory r).0 [
      | none ↦ done (none, (next memory r).1)
      | some n ↦ elim (as_interface memory n) [
        | some d ↦ done (some d, (next memory r).1)
        | none ↦ rest
      ]
    ]
