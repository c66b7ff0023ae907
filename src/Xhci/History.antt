-- ===== src/Xhci/History.antt =====
-- kernel/usb/xhci/xhci.cpp: one port at a time is addressed, through every history of events.
use uhyok_os.Base.{ℕ, ◌≤◌, ◌≡◌, ◌≢◌, ◌↔◌, refl, ap, ◌∙◌, true, false, arith, Bool-cases, inl, inr}
use uhyok_os.Xhci.{not_connected, same_phase, Controller, Hardware, Event}
use uhyok_os.Xhci.Ports.{configure_port, process_event}
use uhyok_os.Xhci.Addressing.{is_addressing, Exclusive, reset_port_of-Exclusive}
use uhyok_os.Xhci.Events.{IsPortEvent, process_event-Exclusive, is_current}

-- At boot no port is connected and no slot has a device.
abbrev pub initial : ℕ → Controller
initial slots = record {
  port_config_phase = λ p. not_connected;
  addressing_port = 0;
  has_device = λ s. false;
  max_slots = slots;
}

-- `ConfigurePort`, at start-up.
configure_port-Exclusive :
    (hw : Hardware) (port : ℕ) {c : Controller}
    → Exclusive c
    → 1 ≤ port
    → Exclusive (configure_port hw port c).controller
unfolding configure_port
configure_port-Exclusive hw port {c} x is_port =
    elim (Bool-cases (same_phase (c.port_config_phase port) not_connected)) [
      | inl fresh ↦
          rw (fresh, configure_port)
            (reset_port_of-Exclusive hw port x is_port (ground (arith, fresh)))
      | inr known ↦ rw (known, configure_port) x
    ]

-- Controllers that come about by configuring ports and by events, each with the hardware in any
-- state.
pub data Reachable : Controller → Type 0 where
  boot : (slots : ℕ) → Reachable (initial slots)
  configures :
      {c : Controller} (hw : Hardware) (port : ℕ)
      → 1 ≤ port
      → Reachable c
      → Reachable (configure_port hw port c).controller
  handles :
      {c : Controller} (hw : Hardware) (event : Event)
      → IsPortEvent event
      → Reachable c
      → Reachable (process_event hw event c).controller

Reachable-Exclusive : {c : Controller} → Reachable c → Exclusive c
Reachable-Exclusive (boot slots) = record {
  current = λ n. absurd (n refl);
  others = λ p h. refl;
  no_port = refl;
}
Reachable-Exclusive (configures hw port p r) =
    configure_port-Exclusive hw port (Reachable-Exclusive r) p
Reachable-Exclusive (handles hw event p r) =
    process_event-Exclusive hw event (Reachable-Exclusive r) p

-- Whatever ports are configured and whatever events come, in whatever order and with the hardware
-- in whatever state, a port is between its reset and its address exactly if it is not 0 and
-- `addressing_port` names it. So at most one port is, and `addressing_port` is 0 or that port.
-- Ports are numbered from 1.
pub addressing_IsUnique :
    {c : Controller} (p : ℕ)
    → Reachable c
    → (is_addressing (c.port_config_phase p) ≡ true) ↔ ((p ≡ c.addressing_port) × (p ≢ 0))
addressing_IsUnique {c} p r =
    let x = Reachable-Exclusive r in
    (
      λ at. (
        is_current p x at,
        λ z. absurd (ground (arith, at, x.no_port, ap c.port_config_phase z)),
      ),
      λ h. ap (λ q. is_addressing (c.port_config_phase q)) h.0 ∙ x.current (λ z. h.1 (h.0 ∙ z)),
    )
