-- ===== src/Xhci/Ports.antt =====
-- kernel/usb/xhci/xhci.cpp: the handlers of events.
use uhyok_os.Base.{
  ℕ, zero, suc, ◌-◌, Bool, not, ◌&&◌, ◌||◌, List, [], ◌∷◌, ◌++◌, Option, none, some, ◌==◌, ltb,
  if◌then◌else◌,
}
use uhyok_os.Errors.{
  Code, success, invalid_phase, invalid_slot_id, not_implemented, unknown_xhci_speed_id,
  already_allocated, is_error,
}
use uhyok_os.Xhci.{
  ConfigPhase, not_connected, waiting_addressed, resetting_port, enabling_slot, addressing_device,
  initializing_device, configuring_endpoints, configured, same_phase, Controller, Hardware, Action,
  reset_port, clear_port_reset_change, enable_slot_command, address_device_command,
  start_initialize, on_endpoints_configured, configure_endpoint_command, Outcome, Issuer, Event,
}

abbrev pub set_phase : ℕ → ConfigPhase → Controller → Controller
set_phase port phase c = record c {
  port_config_phase = λ p. if p == port then phase else c.port_config_phase p;
}

abbrev result : Code → Controller → List Action → Outcome
result code c actions = record { code = code; controller = c; actions = actions }

-- `DeviceManager::FindBySlot` finds a device.
abbrev pub finds_by_slot : ℕ → Controller → Bool
finds_by_slot slot_id c = not (ltb c.max_slots slot_id) && c.has_device slot_id

-- `DeviceManager::AllocDevice`. The pool of memory for devices is taken to have room.
unfoldable pub alloc_device : ℕ → Controller → Code × Controller
alloc_device slot_id c =
    if ltb c.max_slots slot_id
    then (invalid_slot_id, c)
    else if c.has_device slot_id
    then (already_allocated, c)
    else (success, record c { has_device = λ s. (s == slot_id) || c.has_device s })

-- The loop over the 256 ports, with `n` left: the first that waits to be addressed.
unfoldable pub first_waiting : ℕ → Controller → Option ℕ
first_waiting zero c = none
first_waiting (suc n) c =
    if same_phase (c.port_config_phase (255 - n)) waiting_addressed
    then some (255 - n)
    else first_waiting n c

-- `if (auto err = …) return err;` in front of a handler. The actions are those of both.
abbrev pub unless_error : Outcome → (Controller → Outcome) → Outcome
unless_error o next =
    let o' = next o.controller in
    if is_error o.code then o else record o' { actions = o.actions ++ o'.actions }

module _ (hw : Hardware) where
  unfoldable pub reset_port_of : ℕ → Controller → Outcome
  reset_port_of port c =
      if not (hw.is_connected port)
      then result success c []
      else if not (c.addressing_port == 0)
      then result success (set_phase port waiting_addressed c) []
      else if not (same_phase (c.port_config_phase port) not_connected)
          && not (same_phase (c.port_config_phase port) waiting_addressed)
      then result invalid_phase c []
      else result success (set_phase port resetting_port (record c { addressing_port = port }))
          (reset_port port ∷ [])

  unfoldable pub enable_slot : ℕ → Controller → Outcome
  enable_slot port c =
      if hw.is_enabled port && hw.is_port_reset_changed port
      then result success (set_phase port enabling_slot c)
          (clear_port_reset_change port ∷ enable_slot_command ∷ [])
      else result success c []

  -- The code of `AllocDevice` is not looked at.
  unfoldable pub address_device : ℕ → ℕ → Controller → Outcome
  address_device port_id slot_id c =
      let c' = (alloc_device slot_id c).1 in
      if not (finds_by_slot slot_id c')
      then result invalid_slot_id c' []
      else result success (set_phase port_id addressing_device c')
          (address_device_command slot_id ∷ [])

  unfoldable pub initialize_device : ℕ → ℕ → Controller → Outcome
  initialize_device port_id slot_id c =
      if not (finds_by_slot slot_id c)
      then result invalid_slot_id c []
      else result success (set_phase port_id initializing_device c) (start_initialize slot_id ∷ [])

  unfoldable pub complete_configuration : ℕ → ℕ → Controller → Outcome
  complete_configuration port_id slot_id c =
      if not (finds_by_slot slot_id c)
      then result invalid_slot_id c []
      else result success (set_phase port_id configured c) (on_endpoints_configured slot_id ∷ [])

  -- `ConfigureEndpoints`, without the endpoint contexts that it fills in; 5 is `kSuperSpeedPlus`.
  unfoldable pub configure_endpoints : ℕ → Controller → Outcome
  configure_endpoints slot_id c =
      let port_id = hw.root_hub_port_num slot_id in
      if hw.speed port_id == 0 || ltb 5 (hw.speed port_id)
      then result unknown_xhci_speed_id c []
      else result success (set_phase port_id configuring_endpoints c)
          (configure_endpoint_command slot_id ∷ [])

  unfoldable pub configure_port : ℕ → Controller → Outcome
  configure_port port c =
      if same_phase (c.port_config_phase port) not_connected
      then reset_port_of port c
      else result success c []

  unfoldable pub on_port_status_change : ℕ → Controller → Outcome
  on_port_status_change port_id c =
      if same_phase (c.port_config_phase port_id) not_connected
      then reset_port_of port_id c
      else if same_phase (c.port_config_phase port_id) resetting_port
      then enable_slot port_id c
      else result invalid_phase c []

  unfoldable pub on_transfer : ℕ → Code → Bool → Controller → Outcome
  on_transfer slot_id received is_initialized c =
      if not (finds_by_slot slot_id c)
      then result invalid_slot_id c []
      else if is_error received
      then result received c []
      else if is_initialized
          && same_phase (c.port_config_phase (hw.root_hub_port_num slot_id)) initializing_device
      then configure_endpoints slot_id c
      else result success c []

  -- The port that is done makes way for the first that waits.
  unfoldable pub start_waiting : Controller → Outcome
  start_waiting c = elim (first_waiting 256 c) [
    | none ↦ result success c []
    | some port ↦ reset_port_of port c
  ]

  unfoldable pub on_addressed : ℕ → Controller → Outcome
  on_addressed slot_id c =
      let port_id = hw.root_hub_port_num slot_id in
      if not (finds_by_slot slot_id c)
      then result invalid_slot_id c []
      else if not (port_id == c.addressing_port)
      then result invalid_phase c []
      else if not (same_phase (c.port_config_phase port_id) addressing_device)
      then result invalid_phase c []
      else unless_error (start_waiting (record c { addressing_port = 0 }))
          (initialize_device port_id slot_id)

  unfoldable pub on_endpoint_configured : ℕ → Controller → Outcome
  on_endpoint_configured slot_id c =
      let port_id = hw.root_hub_port_num slot_id in
      if not (finds_by_slot slot_id c)
      then result invalid_slot_id c []
      else if not (same_phase (c.port_config_phase port_id) configuring_endpoints)
      then result invalid_phase c []
      else complete_configuration port_id slot_id c

  unfoldable pub on_command_completion : Issuer → ℕ → Controller → Outcome
  on_command_completion Issuer.enable_slot slot_id c =
      if not (same_phase (c.port_config_phase c.addressing_port) enabling_slot)
      then result invalid_phase c []
      else address_device c.addressing_port slot_id c
  on_command_completion Issuer.address_device slot_id c = on_addressed slot_id c
  on_command_completion Issuer.configure_endpoint slot_id c = on_endpoint_configured slot_id c
  on_command_completion Issuer.other_command slot_id c = result invalid_phase c []

  -- The dispatch of `ProcessEvent`.
  unfoldable pub process_event : Event → Controller → Outcome
  process_event (Event.port_status_change port_id) c = on_port_status_change port_id c
  process_event (Event.transfer slot_id received is_initialized) c =
      on_transfer slot_id received is_initialized c
  process_event (Event.command_completion issuer slot_id) c = on_command_completion issuer slot_id c
  process_event Event.other_event c = result not_implemented c []
