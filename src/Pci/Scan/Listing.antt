-- ===== src/Pci/Scan/Listing.antt =====
-- kernel/pci.cpp: the search for devices returns, and lists devices that are there.
use uhyok_os.Base.{
  ℕ, zero, suc, ◌+◌, ◌-◌, ◌/◌, ◌%◌, ◌^◌, ◌<◌, ◌≡◌, ◌≢◌, true, false, Option, some, arith, ◌==◌,
  length, inl, inr, Bool-cases, ℕ_discrete,
}
use uhyok_os.Errors.{Code, success}
use uhyok_os.Pci.{
  match_class, read_vendor_id, read_header_type, read_bus_numbers, read_class_code,
  is_single_function_device,
}
use uhyok_os.Pci.Scan.{
  Found, add_device, absent, device_at, scan_function, scan_functions, scan_device, scan_devices,
  scan_bus, scan_hosts, scan_all_bus,
}
use uhyok_os.Pci.Scan.Extending.{
  WithinArray, Returned, device_at-IsPresent, success-Returned, add_device-Returned,
  num_device-add_device, unless_error-Returned,
}

module _ (config : ℕ → ℕ) where
  module _ (scan : ℕ → Found → Option (Code × Found)) (room : ℕ) where
    -- A search of a bus that returns when fewer than `room` places are left.
    abbrev pub ReturnsWithin : Type 0
    ReturnsWithin =
        (bus : ℕ) (s : Found)
        → WithinArray s
        → length s.devices < s.num_device + room
        → Returned config s (scan bus s)

    -- A bridge is added before the bus behind it is searched, so a place less is left there.
    scan_function-Returned :
        ReturnsWithin
        → (bus device function : ℕ) (s : Found) → WithinArray s
        → length s.devices < s.num_device + suc room
        → read_vendor_id config bus device function ≢ absent
        → Returned config s (scan_function config scan bus device function s)
    unfolding scan_function
    scan_function-Returned sub bus device function s w left there =
        unless_error-Returned config s (some (add_device (device_at config bus device function) s))
          (λ s'. elim (match_class (read_class_code config bus device function) 0x06 0x04) [
            | true ↦ scan (read_bus_numbers config bus device function / 2 ^ 8 % 2 ^ 8) s'
            | false ↦ some (success, s')
          ])
          (add_device-Returned config (device_at config bus device function) s w
            (device_at-IsPresent config bus device function there))
          (λ c s' e fine a.
            elim (Bool-cases (match_class (read_class_code config bus device function) 0x06 0x04)) [
              | inl bridge ↦ rw bridge (
                  sub (read_bus_numbers config bus device function / 2 ^ 8 % 2 ^ 8) s' a.within (
                    omega (
                      arith,
                      a.size,
                      num_device-add_device config (device_at config bus device function) c s s' e
                          fine,
                    )))
              | inr plain ↦ rw plain (success-Returned config s' a.within)
            ])

    scan_functions-Returned :
        ReturnsWithin
        → (bus device n : ℕ) (s : Found) → WithinArray s
        → length s.devices < s.num_device + suc room
        → Returned config s (scan_functions config scan bus device n s)
    unfolding scan_functions
    scan_functions-Returned sub bus device zero s w left = success-Returned config s w
    scan_functions-Returned sub bus device (suc n) s w left =
        elim (ℕ_discrete (read_vendor_id config bus device (7 - n)) absent) [
          | yes none_there ↦
              rw (none_there, scan_functions) (scan_functions-Returned sub bus device n s w left)
          | no there ↦
              let differs : (read_vendor_id config bus device (7 - n) == absent) ≡ false =
                ground (arith, there) in
              rw (differs, scan_functions)
                (unless_error-Returned config s (scan_function config scan bus device (7 - n) s)
                  (scan_functions config scan bus device n)
                  (scan_function-Returned sub bus device (7 - n) s w left there)
                  (λ c s' e fine a.
                    scan_functions-Returned sub bus device n s' a.within
                      (omega (arith, a.size, a.grows, left))))
        ]

    scan_device-Returned :
        ReturnsWithin
        → (bus device : ℕ) (s : Found) → WithinArray s
        → length s.devices < s.num_device + suc room
        → read_vendor_id config bus device 0 ≢ absent
        → Returned config s (scan_device config scan bus device s)
    unfolding scan_device
    scan_device-Returned sub bus device s w left there =
        unless_error-Returned config s (scan_function config scan bus device 0 s)
          (λ s'. elim (is_single_function_device (read_header_type config bus device 0)) [
            | true ↦ some (success, s')
            | false ↦ scan_functions config scan bus device 7 s'
          ])
          (scan_function-Returned sub bus device 0 s w left there)
          (λ c s' e fine a.
            elim (Bool-cases (is_single_function_device (read_header_type config bus device 0))) [
              | inl single ↦ rw single (success-Returned config s' a.within)
              | inr many ↦ rw many (
                  scan_functions-Returned sub bus device 7 s' a.within
                    (omega (arith, a.size, a.grows, left)))
            ])

    scan_devices-Returned :
        ReturnsWithin
        → (bus n : ℕ) (s : Found) → WithinArray s
        → length s.devices < s.num_device + suc room
        → Returned config s (scan_devices config scan bus n s)
    unfolding scan_devices
    scan_devices-Returned sub bus zero s w left = success-Returned config s w
    scan_devices-Returned sub bus (suc n) s w left =
        elim (ℕ_discrete (read_vendor_id config bus (31 - n) 0) absent) [
          | yes none_there ↦
              rw (none_there, scan_devices) (scan_devices-Returned sub bus n s w left)
          | no there ↦
              let differs : (read_vendor_id config bus (31 - n) 0 == absent) ≡ false =
                ground (arith, there) in
              rw (differs, scan_devices)
                (unless_error-Returned config s (scan_device config scan bus (31 - n) s)
                  (scan_devices config scan bus n)
                  (scan_device-Returned sub bus (31 - n) s w left there)
                  (λ c s' e fine a.
                    scan_devices-Returned sub bus n s' a.within
                      (omega (arith, a.size, a.grows, left))))
        ]

  -- A level of bridges takes a place, so the depth is bounded by the places that are left.
  scan_bus-Returned : (fuel : ℕ) → ReturnsWithin (scan_bus config fuel) fuel
  unfolding scan_bus
  scan_bus-Returned zero bus s w left = absurd (omega arith)
  scan_bus-Returned (suc fuel) bus s w left =
      scan_devices-Returned (scan_bus config fuel) fuel (scan_bus-Returned fuel) bus 32 s w left

  scan_hosts-Returned :
      (fuel n : ℕ) (s : Found)
      → WithinArray s
      → length s.devices < s.num_device + fuel
      → Returned config s (scan_hosts config fuel n s)
  unfolding scan_hosts
  scan_hosts-Returned fuel zero s w left = success-Returned config s w
  scan_hosts-Returned fuel (suc n) s w left =
      elim (ℕ_discrete (read_vendor_id config 0 0 (7 - n)) absent) [
        | yes none_there ↦ rw (none_there, scan_hosts) (scan_hosts-Returned fuel n s w left)
        | no there ↦
            let differs : (read_vendor_id config 0 0 (7 - n) == absent) ≡ false =
              ground (arith, there) in
            rw (differs, scan_hosts)
              (unless_error-Returned config s (scan_bus config fuel (7 - n) s)
                (scan_hosts config fuel n) (scan_bus-Returned fuel (7 - n) s w left)
                (λ c s' e fine a.
                  scan_hosts-Returned fuel n s' a.within (omega (arith, a.size, a.grows, left))))
      ]

  -- The search of every bus returns with any fuel above the length of the array, whatever the
  -- bridges of the configuration space say. It starts the list anew; every device it lists answers
  -- at its address and is listed with what its registers say; the list fits in the array; and it
  -- fails only with `kFull`, when the array is full.
  pub scan_all_bus-Returned :
      (fuel : ℕ) (s : Found)
      → length s.devices < fuel
      → Returned config (record s { num_device = 0 }) (scan_all_bus config fuel s)
  unfolding scan_all_bus
  scan_all_bus-Returned fuel s enough =
      elim (Bool-cases (is_single_function_device (read_header_type config 0 0 0))) [
        | inl single ↦
            rw (single, scan_all_bus)
              (scan_bus-Returned fuel 0 (record s { num_device = 0 }) (omega arith)
                (omega (arith, enough)))
        | inr many ↦
            rw (many, scan_all_bus)
              (scan_hosts-Returned fuel 8 (record s { num_device = 0 }) (omega arith)
                (omega (arith, enough)))
      ]
