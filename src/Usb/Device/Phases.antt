-- ===== src/Usb/Device/Phases.antt =====
-- kernel/usb/device.cpp: the phases of initialization, each by what it leaves.
use uhyok_os.Base.{
  ℕ, ◌+◌, ◌≤◌, ◌<◌, ◌≡◌, sym, ap, ◌∙◌, subst, Bool, true, false, List, [], ◌∷◌, map, length,
  get_elem?, take, Option, none, some, arith, All, length-take, length-map,
}
use uhyok_os.Errors.{Code, success}
use uhyok_os.Usb.Hid.{Kind}
use uhyok_os.Usb.Descriptor.{
  Bytes, done, SetupData, InterfaceDescriptor, ConfigurationDescriptor, EndpointDescriptor,
  EndpointConfig, number, make_ep_config, as_configuration, default_control_pipe,
}
use uhyok_os.Usb.Device.{Device, Transfers, read_interfaces, set_endpoints}
use uhyok_os.Usb.Device.Chain.{Chain, supported_in, endpoints_in}
use uhyok_os.Usb.Device.Interfaces.{recorded, reads, Fits, driver_for, read_interfaces-Chain}
use uhyok_os.Usb.Device.Recording.{IsBound, set_all, number-make_ep_config}
use uhyok_os.Usb.Device.Handlers.{
  get_descriptor_request, set_configuration_request, request_configuration, on_control_completed,
}

module _ {S : Type 0} where
  -- A request for no driver on the default pipe returns, when the derived class is set up for it, and
  -- changes only what that class keeps.
  pub record KeepsDevice (IsSetUp : S → Type 0) (transfers : Transfers S) : Type 0 where
    pub control_out :
        (setup_data : SetupData) (buf : Option ℕ) (len : ℕ) (d : Device S)
        → IsSetUp d.derived
        → (code : Code) × (s : S) × (transfers.control_out default_control_pipe setup_data buf len
              none d
            ≡ done (code, record d { derived = s }))

  pub record HasTables (d : Device S) : Type 0 where
    pub configs : length d.ep_configs ≡ 16
    pub pointers : length d.class_drivers ≡ 16

-- The endpoints that a driver gets.
abbrev pub configs_of : Bytes → InterfaceDescriptor → List ℕ → List EndpointConfig
configs_of memory i behind = map make_ep_config (take i.num_endpoints (endpoints_in memory behind))

pub numbers-configs_of :
    (es : List EndpointDescriptor) → All (λ conf. number conf.ep_id < 16) (map make_ep_config es)
numbers-configs_of [] = tt
numbers-configs_of (e ∷ es) = (number-make_ep_config e, numbers-configs_of es)

pub few :
    (memory : Bytes) (i : InterfaceDescriptor) (behind : List ℕ)
    → i.num_endpoints ≤ 16
    → length (configs_of memory i behind) ≤ 16
few memory i behind h =
    let es = endpoints_in memory behind in
    omega
      (arith, length-map (take i.num_endpoints es) make_ep_config, length-take i.num_endpoints es)

-- A buffer with a configuration descriptor, whose descriptors `ds` have an interface that is
-- supported, with its endpoints `behind` it.
pub record Describes (memory : Bytes) (buf len : ℕ) (conf : ConfigurationDescriptor)
    (i : InterfaceDescriptor) (behind ds : List ℕ) : Type 0 where
  pub configuration : as_configuration memory buf ≡ some conf
  pub chain : Chain memory (buf + len) buf ds
  pub at : ℕ
  pub supported : supported_in memory ds ≡ some (i, at, behind)
  pub room : i.num_endpoints ≤ 16
  pub endpoints : i.num_endpoints ≤ length (endpoints_in memory behind)

module _ {S : Type 0} (transfers : Transfers S) (place : ℕ → ℕ) (has_observer : Kind → Bool) where
  -- The device when `SetConfiguration` is sent, and when that is done.
  abbrev pub asking : Bytes → InterfaceDescriptor → List ℕ → Device S → Device S
  asking memory i behind d = record (recorded place has_observer memory d i behind) {
    initialize_phase = 3;
  }

  pub record Initialized (d ready : Device S) (i : InterfaceDescriptor)
      (confs : List EndpointConfig) : Type 0 where
    pub initialized : ready.is_initialized ≡ true
    pub configs : take ready.num_ep_configs ready.ep_configs ≡ confs
    pub bound : All (IsBound ready (length d.drivers)) confs
    pub driver :
        get_elem? ready.drivers (length d.drivers)
        ≡ some (set_all confs (driver_for place has_observer i d))

  read_supported :
      (fuel : ℕ) (memory : Bytes) (buf len : ℕ) {conf : ConfigurationDescriptor}
      (i : InterfaceDescriptor) (behind ds : List ℕ) (d : Device S)
      → Describes memory buf len conf i behind ds
      → length ds < fuel
      → length d.ep_configs ≡ 16
      → read_interfaces fuel place has_observer memory
          (record { desc_buf = buf; desc_buf_len = len; p = buf })
          d
        ≡ done (true, recorded place has_observer memory d i behind)
  read_supported fuel memory buf len i behind ds d described enough size =
      read_interfaces-Chain place has_observer memory buf len d fuel buf ds described.chain enough (
        subst (Fits place has_observer memory d) (sym described.supported)
          (subst (λ n. i.num_endpoints ≤ n) (sym size) described.room, described.endpoints))
      ∙ ap (λ o. done (reads place has_observer memory d o)) described.supported

  pub second_phase :
      (fuel : ℕ) (memory : Bytes) (buf len : ℕ) {conf : ConfigurationDescriptor}
      (i : InterfaceDescriptor) (behind ds : List ℕ) (setup_data : SetupData) (d : Device S)
      → Describes memory buf len conf i behind ds
      → length ds < fuel
      → length d.ep_configs ≡ 16
      → d.is_initialized ≡ false
      → d.initialize_phase ≡ 2
      → setup_data.request ≡ get_descriptor_request
      → on_control_completed transfers fuel place has_observer memory setup_data (some buf) len d
        ≡ request_configuration transfers conf.configuration_value (asking memory i behind d)
  unfolding on_control_completed
  second_phase fuel memory buf len i behind ds setup_data d described enough size fresh phase
        request =
      let found = read_supported fuel memory buf len i behind ds d described enough size in
      ground (arith, fresh, phase, request, described.configuration, found)

  pub third_phase :
      (fuel : ℕ) (memory : Bytes) (buf : Option ℕ) (len : ℕ) (setup_data : SetupData)
      (d d' : Device S)
      → d.is_initialized ≡ false
      → d.initialize_phase ≡ 3
      → setup_data.request ≡ set_configuration_request
      → set_endpoints (take d.num_ep_configs d.ep_configs) d ≡ done d'
      → on_control_completed transfers fuel place has_observer memory setup_data buf len d
        ≡ done (success, record d' { initialize_phase = 4; is_initialized = true })
  unfolding on_control_completed
  third_phase fuel memory buf len setup_data d d' fresh phase request all_set =
      ground (arith, fresh, phase, request, all_set)
