-- ===== src/Usb/Device.antt =====
-- kernel/usb/device.cpp, device.hpp, and the requests of classdriver/hid.cpp: a device while it is
-- initialized, and the drivers of its endpoints.
pub mod Handlers
pub mod Chain
pub mod Endpoints
pub mod Interfaces
pub mod Recording
pub mod Phases
pub mod Halting
pub mod Initialization
use uhyok_os.Base.{
  ℕ, zero, suc, ◌+◌, ◌*◌, ◌%◌, ◌^◌, Bool, true, false, ◌&&◌, ◌==◌, ltb, leb, if◌then◌else◌, List,
  [], ◌∷◌, ◌++◌, length, get_elem?, set, Option, none, some,
}
use uhyok_os.Errors.{
  Code, success, invalid_phase, not_implemented, no_waiter, invalid_descriptor, is_error,
}
use uhyok_os.Usb.ArrayMap.{ArrayMap, get, put}
use uhyok_os.Usb.Hid.{
  Driver, Kind, keyboard, mouse, new, set_endpoint, on_data_received, keep_buffer, buffer_size,
}
use uhyok_os.Usb.Descriptor.{
  Bytes, Run, done, undefined, unfinished, Reader, InterfaceDescriptor, ConfigurationDescriptor,
  EndpointConfig, SetupData, as_device, as_configuration, as_endpoint, next, next_interface, number,
  is_in, make_ep_config, request_bits, same_setup, default_control_pipe,
}

-- The members of `Device`; `drivers` holds the class drivers that were made, and a pointer to one
-- is its place. `derived` is the state of the class that overrides the transfers, and `buf` is where
-- `buf_` stands.
pub record Device (S : Type 0) : Type 0 where
  pub derived : S
  pub drivers : List Driver
  pub class_drivers : List (Option ℕ)
  pub buf : ℕ
  pub num_configurations : ℕ
  pub config_index : ℕ
  pub is_initialized : Bool
  pub initialize_phase : ℕ
  pub ep_configs : List EndpointConfig
  pub num_ep_configs : ℕ
  pub event_waiters : ArrayMap SetupData ℕ

-- The virtual transfers: an endpoint, a request, a buffer with its length, and the driver that asks.
pub record Transfers (S : Type 0) : Type 0 where
  pub control_in : ℕ → SetupData → Option ℕ → ℕ → Option ℕ → Device S → Run (Code × Device S)
  pub control_out : ℕ → SetupData → Option ℕ → ℕ → Option ℕ → Device S → Run (Code × Device S)
  pub interrupt_in : ℕ → ℕ → ℕ → Device S → Run (Code × Device S)

-- A call of something that may be undefined, and what follows it.
abbrev pub on_done {ℓ κ} : {A : Type ℓ} {B : Type κ} → Run A → (A → Run B) → Run B
on_done (done a) k = k a
on_done undefined k = undefined
on_done unfinished k = unfinished

module _ {S : Type 0} where
  -- `Device::ControlIn` and `ControlOut`, which the derived class calls first.
  abbrev pub wait_for : SetupData → Option ℕ → Device S → Code × Device S
  wait_for setup_data none d = (success, d)
  wait_for setup_data (some issuer) d =
      (success, record d { event_waiters = put same_setup setup_data issuer d.event_waiters })

  -- The driver at a place, and a change of it.
  abbrev pub driver_at : Option ℕ → Device S → Option Driver
  driver_at none d = none
  driver_at (some w) d = get_elem? d.drivers w

  abbrev pub put_driver : ℕ → Driver → Device S → Device S
  put_driver w driver d = record d { drivers = set d.drivers w driver }

  -- `NewClassDriver`: where the object is placed, and which classes have a default observer, are
  -- arguments.
  unfoldable pub new_class_driver :
      (ℕ → ℕ) → (Kind → Bool) → InterfaceDescriptor → Device S → Option ℕ × Device S
  new_class_driver place has_observer i d =
      if (i.interface_class == 3) && (i.interface_sub_class == 1)
      then if i.interface_protocol == 1
        then (
          some (length d.drivers),
          record d {
            drivers =
                d.drivers
                ++ (new keyboard i.interface_number (place (length d.drivers))
                      (has_observer keyboard)
                    ∷ []);
          },
        )
        else if i.interface_protocol == 2
        then (
          some (length d.drivers),
          record d {
            drivers =
                d.drivers
                ++ (new mouse i.interface_number (place (length d.drivers)) (has_observer mouse)
                    ∷ []);
          },
        )
        else (none, d)
      else (none, d)

  -- What the loop over the endpoints does with an endpoint; the array has 16 places.
  abbrev pub record_endpoint : ℕ → EndpointConfig → Device S → Device S
  record_endpoint driver conf d = record d {
    ep_configs = set d.ep_configs d.num_ep_configs conf;
    num_ep_configs = d.num_ep_configs + 1;
    class_drivers = set d.class_drivers (number conf.ep_id) (some driver);
  }

  -- `while (num_ep_configs_ < if_desc->num_endpoints)`, on fuel. The pointer that `Next` returns is
  -- read with no test, and so is the index of the array.
  unfoldable pub read_endpoints : ℕ → Bytes → ℕ → ℕ → Reader → Device S → Run (Device S)
  read_endpoints zero memory driver num_endpoints r d = unfinished
  read_endpoints (suc fuel) memory driver num_endpoints r d =
      elim (ltb d.num_ep_configs num_endpoints) [
        | false ↦ done d
        | true ↦ elim (next memory r).0 [
          | none ↦ undefined
          | some desc ↦ elim (as_endpoint memory desc) [
            | none ↦ read_endpoints fuel memory driver num_endpoints (next memory r).1 d
            | some ep_desc ↦ elim (ltb d.num_ep_configs (length d.ep_configs)) [
              | false ↦ undefined
              | true ↦
                  read_endpoints fuel memory driver num_endpoints (next memory r).1
                    (record_endpoint driver (make_ep_config ep_desc) d)
            ]
          ]
        ]
      ]

  -- The loop over the interfaces, up to its `break`: whether a driver was made, and the device.
  unfoldable pub read_interfaces :
      ℕ → (ℕ → ℕ) → (Kind → Bool) → Bytes → Reader → Device S → Run (Bool × Device S)
  read_interfaces zero place has_observer memory r d = unfinished
  read_interfaces (suc fuel) place has_observer memory r d =
      elim (next_interface (suc fuel) memory r) [
        | undefined ↦ undefined
        | unfinished ↦ unfinished
        | done found ↦ elim found.0 [
          | none ↦ done (false, d)
          | some i ↦
              let made = new_class_driver place has_observer i d in
              elim made.0 [
                | none ↦ read_interfaces fuel place has_observer memory found.1 made.1
                | some w ↦
                    on_done
                      (read_endpoints (suc fuel) memory w i.num_endpoints found.1
                        (record made.1 { num_ep_configs = 0 }))
                      (λ d'. done (true, d'))
              ]
        ]
      ]

  -- `class_drivers_[n]->SetEndpoint` for the configurations of `InitializePhase3`, from `i` on.
  unfoldable pub set_endpoints : List EndpointConfig → Device S → Run (Device S)
  set_endpoints [] d = done d
  set_endpoints (conf ∷ configs) d = elim (get_elem? d.class_drivers (number conf.ep_id)) [
    | none ↦ undefined
    | some none ↦ undefined
    | some (some w) ↦ elim (get_elem? d.drivers w) [
      | none ↦ undefined
      | some driver ↦ set_endpoints configs (put_driver w (set_endpoint conf driver) d)
    ]
  ]
