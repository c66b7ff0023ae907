-- ===== src/Usb/Device/Handlers.antt =====
-- kernel/usb/device.cpp, classdriver/hid.cpp: the phases of a device's initialization, and what
-- becomes of the transfers that complete.
use uhyok_os.Base.{
  ℕ, ◌+◌, ◌*◌, ◌%◌, ◌^◌, Bool, true, false, ◌==◌, leb, if◌then◌else◌, List, [], ◌∷◌, take,
  get_elem?, Option, none, some,
}
use uhyok_os.Errors.{Code, success, invalid_phase, not_implemented, no_waiter, is_error}
use uhyok_os.Usb.ArrayMap.{get}
use uhyok_os.Usb.Hid.{Kind, on_data_received, keep_buffer, buffer_size}
use uhyok_os.Usb.Descriptor.{
  Bytes, Run, done, undefined, unfinished, SetupData, as_device, as_configuration, number, is_in,
  request_bits, same_setup, default_control_pipe,
}
use uhyok_os.Usb.Device.{Device, Transfers, put_driver, read_interfaces, set_endpoints}

abbrev pub get_descriptor_request : ℕ
get_descriptor_request = 6

abbrev pub set_configuration_request : ℕ
set_configuration_request = 9

-- The setup data of `GetDescriptor`, `SetConfiguration` and `HIDBaseDriver::OnEndpointsConfigured`.
abbrev pub descriptor_setup : ℕ → ℕ → ℕ → SetupData
descriptor_setup desc_type desc_index len = record {
  request_type = request_bits 1 0 0;
  request = get_descriptor_request;
  value = desc_type * 2 ^ 8 + desc_index;
  index = 0;
  length = len % 2 ^ 16;
}

abbrev pub configuration_setup : ℕ → SetupData
configuration_setup config_value = record {
  request_type = request_bits 0 0 0;
  request = set_configuration_request;
  value = config_value;
  index = 0;
  length = 0;
}

abbrev pub boot_protocol_setup : ℕ → SetupData
boot_protocol_setup interface_index = record {
  request_type = request_bits 0 1 1;
  request = 11;
  value = 0;
  index = interface_index % 2 ^ 16;
  length = 0;
}

module _ {S : Type 0} (transfers : Transfers S) where
  -- `GetDescriptor` and `SetConfiguration` on the default pipe, as the phases call them.
  abbrev pub request_descriptor : ℕ → ℕ → Device S → Run (Code × Device S)
  request_descriptor desc_type desc_index d =
      transfers.control_in default_control_pipe (descriptor_setup desc_type desc_index 256)
        (some d.buf) 256 none d

  abbrev pub request_configuration : ℕ → Device S → Run (Code × Device S)
  request_configuration config_value d =
      transfers.control_out default_control_pipe (configuration_setup config_value) none 0 none d

  unfoldable pub start_initialize : Device S → Run (Code × Device S)
  start_initialize d =
      request_descriptor 1 0 (record d { is_initialized = false; initialize_phase = 1 })

  abbrev pub initialize_phase1 : ℕ → Device S → Run (Code × Device S)
  initialize_phase1 num_configurations d =
      request_descriptor 2 0 (record d {
        num_configurations = num_configurations;
        config_index = 0;
        initialize_phase = 2;
      })

  -- `InitializePhase2` after its loop.
  abbrev pub after_interfaces : ℕ → Bool × Device S → Run (Code × Device S)
  after_interfaces config_value (false, d) = done (success, d)
  after_interfaces config_value (true, d) =
      request_configuration config_value (record d { initialize_phase = 3 })

  abbrev pub initialize_phase2 :
      ℕ → (ℕ → ℕ) → (Kind → Bool) → Bytes → ℕ → ℕ → ℕ → Device S → Run (Code × Device S)
  initialize_phase2 fuel place has_observer memory buf len config_value d =
      elim (read_interfaces fuel place has_observer memory
        (record { desc_buf = buf; desc_buf_len = len; p = buf }) d) [
          | undefined ↦ undefined
          | unfinished ↦ unfinished
          | done found ↦ after_interfaces config_value found
        ]

  abbrev pub initialize_phase3 : Device S → Run (Code × Device S)
  initialize_phase3 d = elim (set_endpoints (take d.num_ep_configs d.ep_configs) d) [
    | undefined ↦ undefined
    | unfinished ↦ unfinished
    | done d' ↦ done (success, record d' { initialize_phase = 4; is_initialized = true })
  ]

  -- `HIDBaseDriver::OnControlCompleted` and `OnInterruptCompleted` of the driver at a place. A
  -- length that the source has below 0 is 0 here: nothing is copied. More than the buffer holds
  -- would be written behind it.
  unfoldable pub hid_on_control_completed : ℕ → Device S → Run (Code × Device S)
  hid_on_control_completed w d = elim (get_elem? d.drivers w) [
    | none ↦ undefined
    | some driver ↦
        if driver.initialize_phase == 1
        then (transfers.interrupt_in driver.ep_interrupt_in driver.buf driver.in_packet_size
            (put_driver w (record driver { initialize_phase = 2 }) d))
        else done (not_implemented, d)
  ]

  unfoldable pub hid_on_interrupt_completed : Bytes → ℕ → ℕ → ℕ → Device S → Run (Code × Device S)
  hid_on_interrupt_completed memory w ep_id len d = elim (get_elem? d.drivers w) [
    | none ↦ undefined
    | some driver ↦
        if is_in ep_id
        then if leb len buffer_size
          then (transfers.interrupt_in driver.ep_interrupt_in driver.buf driver.in_packet_size
              (put_driver w (keep_buffer memory len (on_data_received memory driver)) d))
          else undefined
        else done (not_implemented, d)
  ]

  -- `HIDBaseDriver::OnEndpointsConfigured`.
  unfoldable pub hid_on_endpoints_configured : ℕ → Device S → Run (Code × Device S)
  hid_on_endpoints_configured w d = elim (get_elem? d.drivers w) [
    | none ↦ undefined
    | some driver ↦
        (transfers.control_out default_control_pipe (boot_protocol_setup driver.interface_index)
          none 0 (some w) (put_driver w (record driver { initialize_phase = 1 }) d))
  ]

  -- `Device::OnEndpointsConfigured`, over the places of `class_drivers_`.
  unfoldable pub on_endpoints_configured : List (Option ℕ) → Device S → Run (Code × Device S)
  on_endpoints_configured [] d = done (success, d)
  on_endpoints_configured (none ∷ ws) d = on_endpoints_configured ws d
  on_endpoints_configured (some w ∷ ws) d = elim (hid_on_endpoints_configured w d) [
    | undefined ↦ undefined
    | unfinished ↦ unfinished
    | done result ↦ elim (is_error result.0) [
      | true ↦ done result
      | false ↦ on_endpoints_configured ws result.1
    ]
  ]

  unfoldable pub on_interrupt_completed : Bytes → ℕ → ℕ → Device S → Run (Code × Device S)
  on_interrupt_completed memory ep_id len d = elim (get_elem? d.class_drivers (number ep_id)) [
    | none ↦ undefined
    | some none ↦ done (no_waiter, d)
    | some (some w) ↦ hid_on_interrupt_completed memory w ep_id len d
  ]

  -- `OnControlCompleted` before the device is initialized, by the phase. The pointer is read for
  -- its type once the request fits, with no test.
  abbrev pub on_initializing :
      ℕ
      → (ℕ → ℕ)
      → (Kind → Bool)
      → Bytes
      → SetupData
      → Option ℕ
      → ℕ
      → Device S
      → Run (Code × Device S)
  on_initializing fuel place has_observer memory setup_data buf len d =
      if d.initialize_phase == 1
      then if setup_data.request == get_descriptor_request
        then elim buf [
          | none ↦ undefined
          | some p ↦ elim (as_device memory p) [
            | none ↦ done (invalid_phase, d)
            | some device_desc ↦ initialize_phase1 device_desc.num_configurations d
          ]
        ]
        else done (invalid_phase, d)
      else if d.initialize_phase == 2
      then if setup_data.request == get_descriptor_request
        then elim buf [
          | none ↦ undefined
          | some p ↦ elim (as_configuration memory p) [
            | none ↦ done (invalid_phase, d)
            | some conf_desc ↦
                initialize_phase2 fuel place has_observer memory p len conf_desc.configuration_value
                  d
          ]
        ]
        else done (invalid_phase, d)
      else if d.initialize_phase == 3
      then if setup_data.request == set_configuration_request
        then initialize_phase3 d
        else done (invalid_phase, d)
      else done (not_implemented, d)

  unfoldable pub on_control_completed :
      ℕ
      → (ℕ → ℕ)
      → (Kind → Bool)
      → Bytes
      → SetupData
      → Option ℕ
      → ℕ
      → Device S
      → Run (Code × Device S)
  on_control_completed fuel place has_observer memory setup_data buf len d =
      if d.is_initialized
      then elim (get same_setup setup_data d.event_waiters) [
        | none ↦ done (no_waiter, d)
        | some w ↦ hid_on_control_completed w d
      ]
      else on_initializing fuel place has_observer memory setup_data buf len d
