-- ===== src/Usb/Device/Halting.antt =====
-- kernel/usb/device.cpp: the loops over the descriptors come to an end.
use uhyok_os.Base.{ℕ, suc, ◌+◌, ◌≤◌, ◌≡◌, refl, ap, Bool, List, ◌∷◌, arith}
use uhyok_os.Usb.Hid.{Kind}
use uhyok_os.Usb.Descriptor.{Bytes, done}
use uhyok_os.Usb.Device.{Device, read_interfaces}
use uhyok_os.Usb.Device.Chain.{Chain, Starts, ends, follows, reader, supported_in, descriptors}
use uhyok_os.Usb.Device.Interfaces.{reads, Fits, read_interfaces-Chain}

-- The bytes determine the descriptors.
pub Chain-unique :
    {memory : Bytes} {end p : ℕ} {ds es : List ℕ}
    → Chain memory end p ds
    → Chain memory end p es
    → ds ≡ es
Chain-unique {memory} (ends l) (ends m) = refl
Chain-unique {memory} (ends l) (follows m c) = absurd (omega arith)
Chain-unique {memory} (follows l c) (ends m) = absurd (omega arith)
Chain-unique {memory} (follows {p = p} l c) (follows m d) =
    ap (λ rest. (p + memory p) ∷ rest) (Chain-unique c d)

module _ {S : Type 0} (place : ℕ → ℕ) (has_observer : Kind → Bool) (memory : Bytes) (buf len : ℕ)
    (d : Device S) where
  -- When no descriptor of a buffer has length 0, and the first interface with a driver, if there is
  -- one, has as many endpoints behind it as it says and no more than the device has room for, the
  -- loops over the interfaces and over the endpoints come to an end, in no more rounds than the
  -- buffer has bytes and one. They return the device with that interface's driver and endpoints
  -- recorded, or `false` and the device as it was.
  pub read_interfaces-reads :
      ((p : ℕ) → Starts memory (buf + len) buf p → 1 ≤ memory p)
      → ((ds : List ℕ)
          → Chain memory (buf + len) buf ds
          → Fits place has_observer memory d (supported_in memory ds))
      → (ds : List ℕ) × Chain memory (buf + len) buf ds
        × (read_interfaces (suc len) place has_observer memory (reader memory buf len buf) d
            ≡ done (reads place has_observer memory d (supported_in memory ds)))
  read_interfaces-reads long fits =
      let (ds, c, short) = descriptors memory buf len long in
      (
        ds,
        c,
        read_interfaces-Chain place has_observer memory buf len d (suc len) buf ds c (omega arith)
            (fits ds c),
      )
