-- ===== src/Xhci/Tests.antt =====
-- kernel/usb/xhci/xhci.cpp: two ports connected at once, and the theorems there.
use uhyok_os.Base.{ℕ, ◌<◌, ◌≡◌, ◌≢◌, ◌↔◌, refl, ap, true, some, arith, ◌==◌, ◌||◌, if◌then◌else◌}
use uhyok_os.Xhci.{
  phase_value, not_connected, waiting_addressed, addressing_device, Controller, Hardware,
}
use uhyok_os.Xhci.Ports.{configure_port, reset_port_of, on_addressed}
use uhyok_os.Xhci.Addressing.{is_addressing}
use uhyok_os.Xhci.History.{initial, Reachable, boot, configures, addressing_IsUnique}
use uhyok_os.Xhci.Handover.{Succeeded, lowest, on_addressed-Succeeded}

-- Devices on ports 3 and 5; the reset of each port completes at once.
abbrev ports : Hardware
ports = record {
  is_connected = λ p. (p == 3) || (p == 5);
  is_enabled = λ p. true;
  is_port_reset_changed = λ p. true;
  speed = λ p. 3;
  root_hub_port_num = λ s. if s == 1 then 3 else 5;
}

abbrev two_configured : Controller
two_configured = (configure_port ports 5 (configure_port ports 3 (initial 8)).controller).controller

two_configured-Reachable : Reachable two_configured
two_configured-Reachable =
    configures ports 5 (omega arith) (configures ports 3 (omega arith) (boot 8))

first_is_reset : is_addressing (two_configured.port_config_phase 3) ≡ true
unfolding configure_port reset_port_of
first_is_reset = refl

second_waits : two_configured.port_config_phase 5 ≡ waiting_addressed
unfolding configure_port reset_port_of
second_waits = refl

addressing_IsUnique_example :
    (is_addressing (two_configured.port_config_phase 3) ≡ true)
    ↔ ((3 ≡ two_configured.addressing_port) × ((◌≢◌ {A = ℕ} 3 0)))
addressing_IsUnique_example = addressing_IsUnique 3 two_configured-Reachable

abbrev addressed : Controller
addressed = record {
  port_config_phase = λ p.
      if p == 3 then addressing_device else if p == 5 then waiting_addressed else not_connected;
  addressing_port = 3;
  has_device = λ s. s == 1;
  max_slots = 8;
}

none_before : (p : ℕ) → p < 5 → addressed.port_config_phase p ≢ waiting_addressed
none_before p h e = absurd (ground (arith, h, ap phase_value e))

on_addressed-Succeeded_example :
    Succeeded ports 3 (some 5) 1 addressed (on_addressed ports 1 addressed)
on_addressed-Succeeded_example =
    on_addressed-Succeeded ports 1 addressed refl refl refl
      (lowest 5 (omega arith) refl none_before)
