-- ===== src/Xhci.antt =====
-- kernel/usb/xhci/xhci.cpp, devmgr.cpp: how the ports of the root hub are configured, event by
-- event. The controller's registers, contexts and rings are not modelled: what the handlers read of
-- the hardware is a record, and what they ask of it is a list of actions.
pub mod Ports
pub mod Addressing
pub mod Events
pub mod History
pub mod Handover
pub mod Device
mod Tests
use uhyok_os.Base.{ℕ, Bool, ◌==◌, List}
use uhyok_os.Errors.{Code}

-- `ConfigPhase`.
pub data ConfigPhase : Type 0 where
  not_connected waiting_addressed resetting_port enabling_slot : ConfigPhase
  addressing_device initializing_device configuring_endpoints configured : ConfigPhase

-- The value of the enumeration, which the tests compare.
abbrev pub phase_value : ConfigPhase → ℕ
phase_value not_connected = 0
phase_value waiting_addressed = 1
phase_value resetting_port = 2
phase_value enabling_slot = 3
phase_value addressing_device = 4
phase_value initializing_device = 5
phase_value configuring_endpoints = 6
phase_value configured = 7

abbrev pub same_phase : ConfigPhase → ConfigPhase → Bool
same_phase a b = phase_value a == phase_value b

-- `port_config_phase`, by port number, `addressing_port`, and which of the device manager's slots
-- hold a device.
pub record Controller : Type 0 where
  pub port_config_phase : ℕ → ConfigPhase
  pub addressing_port : ℕ
  pub has_device : ℕ → Bool
  pub max_slots : ℕ

-- What the registers of the ports, and the contexts of the devices that the controller fills in,
-- say while an event is handled.
pub record Hardware : Type 0 where
  pub is_connected : ℕ → Bool
  pub is_enabled : ℕ → Bool
  pub is_port_reset_changed : ℕ → Bool
  pub speed : ℕ → ℕ
  pub root_hub_port_num : ℕ → ℕ

-- What is asked of the hardware and of the devices, by port or by slot.
pub data Action : Type 0 where
  reset_port clear_port_reset_change : (port : ℕ) → Action
  enable_slot_command : Action
  address_device_command start_initialize : (slot : ℕ) → Action
  on_endpoints_configured configure_endpoint_command : (slot : ℕ) → Action

-- The result of a handler.
pub record Outcome : Type 0 where
  pub code : Code
  pub controller : Controller
  pub actions : List Action

-- The kind of the command that a completion event is about.
pub data Issuer : Type 0 where
  enable_slot address_device configure_endpoint other_command : Issuer

-- A transfer event comes with what the device made of it: an error, and whether it is initialized.
pub data Event : Type 0 where
  port_status_change : (port_id : ℕ) → Event
  transfer : (slot_id : ℕ) (received : Code) (is_initialized : Bool) → Event
  command_completion : (issuer : Issuer) (slot_id : ℕ) → Event
  other_event : Event
