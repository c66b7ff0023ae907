-- ===== src/Pci/Tests.antt =====
-- kernel/pci.cpp: the search and the interrupt set-up at concrete configuration spaces.
use uhyok_os.Base.{
  ◌%◌, ◌^◌, ℕ, ◌≡◌, refl, [], ◌∷◌, Option, some, none, arith, ◌==◌, if◌then◌else◌, replicate,
}
use uhyok_os.Errors.{Code}
use uhyok_os.Pci.{
  Device, make_address, read_vendor_id, read_header_type, read_class_code, read_bus_numbers,
  read_conf_reg,
}
use uhyok_os.Pci.Scan.{
  Found, add_device, unless_error, device_at, scan_function, scan_functions, scan_device,
  scan_devices, scan_bus, scan_all_bus,
}
use uhyok_os.Pci.Scan.Listing.{scan_all_bus-Returned}
use uhyok_os.Pci.Scan.Extending.{Returned}
use uhyok_os.Pci.Msi.{field, configure_msi}
use uhyok_os.Pci.Msi.Capabilities.{Chain, link, stop, Configured, configure_msi-Configured}

-- A device at 0:0.0, a bridge to bus 1 at 0:2.0, and a device at 1:5.0.
abbrev two_buses : ℕ → ℕ
two_buses a =
    if a == make_address 0 0 0 0
    then 0x12348086
    else if a == make_address 0 2 0 0
    then 0x56788086
    else if a == make_address 0 2 0 0x08
    then 0x06040000
    else if a == make_address 0 2 0 0x18
    then 0x00010100
    else if a == make_address 1 5 0 0
    then 0x1b211b21
    else if a == make_address 1 5 0 0x08
    then 0x0c033000
    else if a == make_address 0 0 0 0x08
    then 0x06000000
    else if a == make_address 0 0 0 0x0c
    then 0
    else if a == make_address 0 2 0 0x0c
    then 0x00010000
    else if a == make_address 1 5 0 0x0c
    then 0
    else 0xffffffff

abbrev no_device : Device
no_device = record {
  bus = 0;
  device = 0;
  function = 0;
  header_type = 0;
  class_code = record { base = 0; sub = 0; interface_code = 0 };
}

abbrev no_devices : Found
no_devices = record { devices = replicate 32 no_device; num_device = 0 }

abbrev listed : Option (Code × Found) → ℕ
listed none = 0
listed (some (c, s)) = s.num_device

two_buses_found : listed (scan_all_bus two_buses 33 no_devices) ≡ 3
unfolding scan_all_bus scan_bus scan_devices scan_device scan_functions scan_function unless_error
    add_device device_at read_vendor_id read_header_type read_class_code read_bus_numbers
two_buses_found = refl

scan_all_bus-Returned_example :
    Returned two_buses (record no_devices { num_device = 0 }) (scan_all_bus two_buses 33 no_devices)
scan_all_bus-Returned_example = scan_all_bus-Returned two_buses 33 no_devices (omega arith)

-- A device with an MSI capability at 0x50 and an MSI-X capability at 0x90.
abbrev usb_controller : Device
usb_controller = record no_device { bus = 1; device = 5 }

abbrev msi_config : ℕ → ℕ
msi_config a =
    if a == make_address 1 5 0 0x34
    then 0x50
    else if a == make_address 1 5 0 0x50
    then 0x00869005
    else if a == make_address 1 5 0 0x90
    then 0x00000011
    else 0

msi-Chain :
    Chain msi_config usb_controller
      (read_conf_reg msi_config usb_controller 0x34 % 2 ^ 8)
      (0x50 ∷ 0x90 ∷ [])
unfolding read_conf_reg field
msi-Chain = link 0x4f (link 0x8f stop)

configure_msi-Configured_example :
    Configured msi_config usb_controller
      (0x50 ∷ 0x90 ∷ [])
      0xfee00000
      0xc040
      0
      (configure_msi msi_config usb_controller 2 0xfee00000 0xc040 0)
configure_msi-Configured_example =
    configure_msi-Configured msi_config usb_controller 2 0xfee00000 0xc040 0 (0x50 ∷ 0x90 ∷ [])
      msi-Chain (omega arith)
