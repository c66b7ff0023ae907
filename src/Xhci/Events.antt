-- ===== src/Xhci/Events.antt =====
-- kernel/usb/xhci/xhci.cpp: every event keeps one port at a time in addressing.
use uhyok_os.Base.{
  ℕ, zero, suc, ◌≤◌, ◌≡◌, ◌≢◌, refl, ap, sym, ◌∙◌, Bool, true, false, ◌&&◌, ◌||◌, ◌==◌, ltb, arith,
  Bool-cases, inl, inr, ℕ_discrete,
}
use uhyok_os.Errors.{Code, is_error}
use uhyok_os.Xhci.{
  not_connected, resetting_port, enabling_slot, addressing_device, initializing_device,
  configuring_endpoints, configured, phase_value, same_phase, Controller, Hardware, Outcome, Issuer,
  Event,
}
use uhyok_os.Xhci.Ports.{
  finds_by_slot, alloc_device, enable_slot, address_device, initialize_device,
  complete_configuration, configure_endpoints, on_port_status_change, on_transfer, start_waiting,
  on_addressed, on_endpoint_configured, on_command_completion, process_event, unless_error,
}
use uhyok_os.Xhci.Addressing.{
  is_addressing, Exclusive, HandedOver, set_phase-Exclusive, advance-Exclusive,
  reset_port_of-Exclusive, start_waiting-HandedOver, set_phase-HandedOver, alloc_device-same,
  finds_by_slot-start_waiting,
}

-- A port status change names a port; ports are numbered from 1.
abbrev pub IsPortEvent : Event → Type 0
IsPortEvent (Event.port_status_change port) = 1 ≤ port
IsPortEvent (Event.transfer slot received is_initialized) = Unit
IsPortEvent (Event.command_completion issuer slot) = Unit
IsPortEvent Event.other_event = Unit

-- A port with a phase of its own is a port; one outside of the addressing is not the current one.
is_port_of :
    (port : ℕ) {c : Controller}
    → Exclusive c
    → 1 ≤ phase_value (c.port_config_phase port)
    → 1 ≤ port
is_port_of zero x h = absurd (omega (arith, x.no_port))
is_port_of (suc p) x h = omega arith

not_current :
    (port : ℕ) {c : Controller}
    → Exclusive c
    → 1 ≤ port
    → is_addressing (c.port_config_phase port) ≡ false
    → port ≢ c.addressing_port
not_current port {c} x is_port out e =
    absurd (ground (arith, x.current, out, e, ap c.port_config_phase e))

pub is_current :
    (port : ℕ) {c : Controller}
    → Exclusive c
    → is_addressing (c.port_config_phase port) ≡ true
    → port ≡ c.addressing_port
is_current port {c} x within = elim (ℕ_discrete port c.addressing_port) [
  | yes e ↦ e
  | no ne ↦ absurd (ground (arith, x.others port ne, within))
]

enable_slot-Exclusive :
    (hw : Hardware) (port : ℕ) {c : Controller}
    → Exclusive c
    → 1 ≤ port
    → port ≡ c.addressing_port
    → Exclusive (enable_slot hw port c).controller
unfolding enable_slot
enable_slot-Exclusive hw port {c} x is_port e =
    elim (Bool-cases (hw.is_enabled port && hw.is_port_reset_changed port)) [
      | inl ready ↦ rw (ready, enable_slot) (advance-Exclusive port enabling_slot x is_port e refl)
      | inr waits ↦ rw (waits, enable_slot) x
    ]

on_port_status_change-Exclusive :
    (hw : Hardware) (port : ℕ) {c : Controller}
    → Exclusive c
    → 1 ≤ port
    → Exclusive (on_port_status_change hw port c).controller
unfolding on_port_status_change
on_port_status_change-Exclusive hw port {c} x is_port =
    elim (Bool-cases (same_phase (c.port_config_phase port) not_connected)) [
      | inl fresh ↦
          rw (fresh, on_port_status_change)
            (reset_port_of-Exclusive hw port x is_port (ground (arith, fresh)))
      | inr known ↦ elim (Bool-cases (same_phase (c.port_config_phase port) resetting_port)) [
        | inl resetting ↦
            rw (known, resetting, on_port_status_change)
              (enable_slot-Exclusive hw port x is_port
                (is_current port x (ground (arith, resetting))))
        | inr other ↦ rw (known, other, on_port_status_change) x
      ]
    ]

address_device-Exclusive :
    (port slot : ℕ) {c : Controller}
    → (hw : Hardware) → Exclusive c
    → 1 ≤ port
    → port ≡ c.addressing_port
    → Exclusive (address_device hw port slot c).controller
unfolding address_device
address_device-Exclusive port slot {c} hw x is_port e =
    let (phases, addressing) = alloc_device-same slot c in
    let c' = (alloc_device slot c).1 in
    let x' : Exclusive c' = record {
      current = rw (phases, addressing) x.current;
      others = rw (phases, addressing) x.others;
      no_port = rw phases x.no_port;
    } in
    elim (Bool-cases (finds_by_slot slot c')) [
      | inl found ↦
          rw (found, address_device)
            (advance-Exclusive port addressing_device x' is_port (e ∙ sym addressing) refl)
      | inr missing ↦ rw (missing, address_device) x'
    ]

configure_endpoints-Exclusive :
    (hw : Hardware) (slot : ℕ) {c : Controller}
    → Exclusive c
    → same_phase (c.port_config_phase (hw.root_hub_port_num slot)) initializing_device ≡ true
    → Exclusive (configure_endpoints hw slot c).controller
unfolding configure_endpoints
configure_endpoints-Exclusive hw slot {c} x waits =
    let port = hw.root_hub_port_num slot in
    let is_port = is_port_of port x (ground (arith, waits)) in
    elim (Bool-cases (hw.speed port == 0 || ltb 5 (hw.speed port))) [
      | inl unknown ↦ rw (unknown, configure_endpoints) x
      | inr known ↦
          rw (known, configure_endpoints)
            (set_phase-Exclusive port configuring_endpoints x is_port
              (not_current port x is_port (ground (arith, waits))) refl)
    ]

-- A device that takes its configuration is of a port outside of the addressing.
on_transfer-Exclusive :
    (hw : Hardware) (slot : ℕ) (received : Code) (is_initialized : Bool) {c : Controller}
    → Exclusive c
    → Exclusive (on_transfer hw slot received is_initialized c).controller
unfolding on_transfer configure_endpoints
on_transfer-Exclusive hw slot received is_initialized {c} x =
    let port = hw.root_hub_port_num slot in
    elim (Bool-cases (finds_by_slot slot c)) [
      | inr missing ↦ rw (missing, on_transfer) x
      | inl found ↦ elim (Bool-cases (is_error received)) [
        | inl bad ↦ rw (found, bad, on_transfer) x
        | inr fine ↦
            elim (Bool-cases
              (is_initialized && same_phase (c.port_config_phase port) initializing_device)) [
                | inr later ↦ rw (found, fine, later, on_transfer) x
                | inl ready ↦
                    rw (found, fine, ready, on_transfer)
                      (configure_endpoints-Exclusive hw slot x (ground (arith, ready)))
              ]
      ]
    ]

on_endpoint_configured-Exclusive :
    (hw : Hardware) (slot : ℕ) {c : Controller}
    → Exclusive c
    → Exclusive (on_endpoint_configured hw slot c).controller
unfolding on_endpoint_configured complete_configuration
on_endpoint_configured-Exclusive hw slot {c} x =
    let port = hw.root_hub_port_num slot in
    elim (Bool-cases (finds_by_slot slot c)) [
      | inr missing ↦ rw (missing, on_endpoint_configured) x
      | inl found ↦
          elim (Bool-cases (same_phase (c.port_config_phase port) configuring_endpoints)) [
            | inr other ↦ rw (found, other, on_endpoint_configured) x
            | inl waits ↦
                let is_port = is_port_of port x (ground (arith, waits)) in
                rw (found, waits, on_endpoint_configured, complete_configuration)
                  (set_phase-Exclusive port configured x is_port
                    (not_current port x is_port (ground (arith, waits))) refl)
          ]
    ]

unless_error-fine :
    (o : Outcome) (next : Controller → Outcome)
    → is_error o.code ≡ false
    → (unless_error o next).controller ≡ (next o.controller).controller
unless_error-fine o next fine = ground (arith, fine)

handover :
    (hw : Hardware) (port slot : ℕ) {c : Controller}
    → Exclusive c
    → port ≡ c.addressing_port
    → same_phase (c.port_config_phase port) addressing_device ≡ true
    → finds_by_slot slot c ≡ true
    → Exclusive
        (unless_error
          (start_waiting hw (record c { addressing_port = 0 }))
          (initialize_device hw port slot)).controller
unfolding initialize_device
handover hw port slot {c} x e right found =
    let is_port = is_port_of port x (ground (arith, right)) in
    let c0 : Controller = record c { addressing_port = 0 } in
    let before : HandedOver port c0 = record {
      current = λ n. absurd (n refl);
      others = λ p h k. x.others p (λ z. k (z ∙ sym e));
      no_port = x.no_port;
      apart = λ z. absurd (omega (arith, z, is_port));
      is_port = is_port;
    } in
    let (over, fine) = start_waiting-HandedOver hw port before (ground (arith, right)) in
    let found' = finds_by_slot-start_waiting hw slot c0 ∙ found in
    rw (unless_error-fine (start_waiting hw c0) (initialize_device hw port slot) fine)
      (rw (found', initialize_device) (set_phase-HandedOver port initializing_device over refl))

-- The port that has its address makes way, and is initialized.
on_addressed-Exclusive :
    (hw : Hardware) (slot : ℕ) {c : Controller}
    → Exclusive c
    → Exclusive (on_addressed hw slot c).controller
unfolding on_addressed
on_addressed-Exclusive hw slot {c} x =
    let port = hw.root_hub_port_num slot in
    elim (Bool-cases (finds_by_slot slot c)) [
      | inr missing ↦ rw (missing, on_addressed) x
      | inl found ↦ elim (Bool-cases (port == c.addressing_port)) [
        | inr other ↦ rw (found, other, on_addressed) x
        | inl same ↦ elim (Bool-cases (same_phase (c.port_config_phase port) addressing_device)) [
          | inr wrong ↦ rw (found, same, wrong, on_addressed) x
          | inl right ↦
              rw (found, same, right, on_addressed)
                (handover hw port slot x (ground (arith, same)) right found)
        ]
      ]
    ]

-- Every event that `ProcessEvent` handles.
pub process_event-Exclusive :
    (hw : Hardware) (event : Event) {c : Controller}
    → Exclusive c
    → IsPortEvent event
    → Exclusive (process_event hw event c).controller
unfolding process_event on_command_completion
process_event-Exclusive hw (Event.port_status_change port) x p =
    on_port_status_change-Exclusive hw port x p
process_event-Exclusive hw (Event.transfer slot received is_initialized) x p =
    on_transfer-Exclusive hw slot received is_initialized x
process_event-Exclusive hw (Event.command_completion Issuer.enable_slot slot) {c} x p =
    elim (Bool-cases (same_phase (c.port_config_phase c.addressing_port) enabling_slot)) [
      | inr other ↦ rw (other, process_event, on_command_completion) x
      | inl waits ↦
          let is_port = is_port_of c.addressing_port x (ground (arith, waits)) in
          rw (waits, process_event, on_command_completion)
            (address_device-Exclusive c.addressing_port slot hw x is_port refl)
    ]
process_event-Exclusive hw (Event.command_completion Issuer.address_device slot) x p =
    on_addressed-Exclusive hw slot x
process_event-Exclusive hw (Event.command_completion Issuer.configure_endpoint slot) x p =
    on_endpoint_configured-Exclusive hw slot x
process_event-Exclusive hw (Event.command_completion Issuer.other_command slot) x p = x
process_event-Exclusive hw Event.other_event x p = x
