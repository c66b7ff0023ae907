-- ===== src/Xhci/Device/Keeping.antt =====
-- kernel/usb/xhci/device.cpp: the requests that `usb::Device` makes while it is initialized.
use uhyok_os.Base.{ℕ, ◌≡◌, false, Option, none, some, get_elem?, arith}
use uhyok_os.Errors.{Code, success, transfer_ring_not_set}
use uhyok_os.Usb.Ring.{Ring}
use uhyok_os.Usb.Descriptor.{done, SetupData, default_control_pipe}
use uhyok_os.Usb.Device.{Device}
use uhyok_os.Usb.Device.Phases.{KeepsDevice}
use uhyok_os.Xhci.Device.{Slot, control, transfers}
use uhyok_os.Xhci.Device.Transfer.{sent}

-- The array of rings is not empty.
abbrev pub HasRings : Slot → Type 0
HasRings s = (r : Option Ring) × (get_elem? s.transfer_rings 0 ≡ some r)

no_ring :
    (s : SetupData) (buf : Option ℕ) (len : ℕ) (d : Device Slot)
    → get_elem? d.derived.transfer_rings 0 ≡ some none
    → control false default_control_pipe s buf len none d ≡ done (transfer_ring_not_set, d)
unfolding control
no_ring s buf len d e = ground (arith, e)

a_ring :
    (s : SetupData) (buf : Option ℕ) (len : ℕ) (d : Device Slot) (r : Ring)
    → get_elem? d.derived.transfer_rings 0 ≡ some (some r)
    → control false default_control_pipe s buf len none d
      ≡ done (success, sent false default_control_pipe buf len s r d)
unfolding control
a_ring s buf len d r e = ground (arith, e)

-- The transfers are as the device relies on.
pub transfers-KeepsDevice : KeepsDevice HasRings transfers
transfers-KeepsDevice = record { control_out = λ s buf len d set_up. sends s buf len d set_up }
  where
    sends :
        (s : SetupData) (buf : Option ℕ) (len : ℕ) (d : Device Slot)
        → HasRings d.derived
        → (code : Code) × (derived : Slot) × (control false default_control_pipe s buf len none d
            ≡ done (code, record d { derived = derived }))
    sends s buf len d (none, e) = (transfer_ring_not_set, d.derived, no_ring s buf len d e)
    sends s buf len d (some r, e) =
        (success, (sent false default_control_pipe buf len s r d).derived, a_ring s buf len d r e)
