-- ===== src/Pci/Scan.antt =====
-- kernel/pci.cpp: the search for devices, `ScanAllBus` and the functions it calls.
pub mod Extending
pub mod Listing
use uhyok_os.Base.{
  ℕ, zero, suc, ◌+◌, ◌-◌, ◌/◌, ◌%◌, ◌^◌, Bool, true, false, List, Option, none, some, ◌==◌, set,
  length,
}
use uhyok_os.Errors.{Code, success, full, is_error}
use uhyok_os.Pci.{
  Device, match_class, read_vendor_id, read_header_type, read_class_code, read_bus_numbers,
  is_single_function_device,
}

-- `devices` and `num_device`. The array keeps what an earlier search left above `num_device`.
pub record Found : Type 0 where
  pub devices : List Device
  pub num_device : ℕ

unfoldable pub add_device : Device → Found → Code × Found
add_device device s = elim (s.num_device == length s.devices) [
  | true ↦ (full, s)
  | false ↦ (
    success,
    record { devices = set s.devices s.num_device device; num_device = s.num_device + 1 },
  )
]

-- `if (auto err = …) return err;` in front of what follows. `none` is a search out of fuel.
unfoldable pub unless_error :
    Option (Code × Found) → (Found → Option (Code × Found)) → Option (Code × Found)
unless_error none k = none
unless_error (some (c, s)) k = elim (is_error c) [ true ↦ some (c, s) | false ↦ k s ]

abbrev pub absent : ℕ
absent = 0xffff

module _ (config : ℕ → ℕ) where
  -- What the registers of a function say of it.
  unfoldable pub device_at : ℕ → ℕ → ℕ → Device
  device_at bus device function = record {
    bus = bus;
    device = device;
    function = function;
    header_type = read_header_type config bus device function;
    class_code = read_class_code config bus device function;
  }

  -- `ScanFunction`, over the `ScanBus` it calls for a bridge.
  unfoldable pub scan_function :
      (ℕ → Found → Option (Code × Found)) → ℕ → ℕ → ℕ → Found → Option (Code × Found)
  scan_function scan_bus bus device function s =
      unless_error (some (add_device (device_at bus device function) s)) (λ s'.
        elim (match_class (read_class_code config bus device function) 0x06 0x04) [
          | true ↦ scan_bus (read_bus_numbers config bus device function / 2 ^ 8 % 2 ^ 8) s'
          | false ↦ some (success, s')
        ])

  -- The loop over functions, with `n` of 8 left.
  unfoldable pub scan_functions :
      (ℕ → Found → Option (Code × Found)) → ℕ → ℕ → ℕ → Found → Option (Code × Found)
  scan_functions scan_bus bus device zero s = some (success, s)
  scan_functions scan_bus bus device (suc n) s =
      elim (read_vendor_id config bus device (7 - n) == absent) [
        | true ↦ scan_functions scan_bus bus device n s
        | false ↦
            unless_error (scan_function scan_bus bus device (7 - n) s)
              (scan_functions scan_bus bus device n)
      ]

  unfoldable pub scan_device :
      (ℕ → Found → Option (Code × Found)) → ℕ → ℕ → Found → Option (Code × Found)
  scan_device scan_bus bus device s = unless_error (scan_function scan_bus bus device 0 s) (λ s'.
      elim (is_single_function_device (read_header_type config bus device 0)) [
        | true ↦ some (success, s')
        | false ↦ scan_functions scan_bus bus device 7 s'
      ])

  -- The loop over devices, with `n` of 32 left.
  unfoldable pub scan_devices :
      (ℕ → Found → Option (Code × Found)) → ℕ → ℕ → Found → Option (Code × Found)
  scan_devices scan_bus bus zero s = some (success, s)
  scan_devices scan_bus bus (suc n) s = elim (read_vendor_id config bus (31 - n) 0 == absent) [
    | true ↦ scan_devices scan_bus bus n s
    | false ↦ unless_error (scan_device scan_bus bus (31 - n) s) (scan_devices scan_bus bus n)
  ]

  -- `ScanBus`, on fuel for the depth of bridges.
  unfoldable pub scan_bus : ℕ → ℕ → Found → Option (Code × Found)
  scan_bus zero bus s = none
  scan_bus (suc fuel) bus s = scan_devices (scan_bus fuel) bus 32 s

  -- The loop of `ScanAllBus` over the functions of the host bridge, with `n` of 8 left.
  pub scan_hosts : ℕ → ℕ → Found → Option (Code × Found)
  scan_hosts fuel zero s = some (success, s)
  scan_hosts fuel (suc n) s = elim (read_vendor_id config 0 0 (7 - n) == absent) [
    | true ↦ scan_hosts fuel n s
    | false ↦ unless_error (scan_bus fuel (7 - n) s) (scan_hosts fuel n)
  ]

  unfoldable pub scan_all_bus : ℕ → Found → Option (Code × Found)
  scan_all_bus fuel s =
      let s0 = record s { num_device = 0 } in
      elim (is_single_function_device (read_header_type config 0 0 0)) [
        | true ↦ scan_bus fuel 0 s0
        | false ↦ scan_hosts fuel 8 s0
      ]
