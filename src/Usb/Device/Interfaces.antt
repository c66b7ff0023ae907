-- ===== src/Usb/Device/Interfaces.antt =====
-- kernel/usb/device.cpp: the search for an interface that has a driver.
use uhyok_os.Base.{
  ℕ, zero, suc, ◌+◌, ◌≤◌, ◌<◌, ◌≡◌, refl, sym, ap, ◌∙◌, subst, Bool, true, false, List, [], ◌∷◌,
  ◌++◌, map, length, take, Option, none, some, arith, ◌==◌, if◌then◌else◌, Bool-cases, inl, inr,
}
use uhyok_os.Usb.Hid.{Driver, Kind, keyboard, mouse, new}
use uhyok_os.Usb.Descriptor.{
  Bytes, Run, done, Reader, InterfaceDescriptor, next_interface, make_ep_config,
}
use uhyok_os.Usb.Device.{Device, new_class_driver, read_endpoints, read_interfaces}
use uhyok_os.Usb.Device.Chain.{
  Chain, is_supported, supported_in, endpoints_in, reader, Searched, no_interface, an_interface,
  next_interface-Searched,
}
use uhyok_os.Usb.Device.Endpoints.{record_endpoints, read_endpoints-Chain}

module _ {S : Type 0} (place : ℕ → ℕ) (has_observer : Kind → Bool) where
  -- The driver that is made for an interface, and the device with it.
  abbrev pub driver_for : InterfaceDescriptor → Device S → Driver
  driver_for i d =
      let kind = if i.interface_protocol == 1 then keyboard else mouse in
      new kind i.interface_number (place (length d.drivers)) (has_observer kind)

  abbrev pub with_driver : InterfaceDescriptor → Device S → Device S
  with_driver i d = record d { drivers = d.drivers ++ driver_for i d ∷ [] }

  pub new_class_driver-supported :
      (i : InterfaceDescriptor) (d : Device S)
      → is_supported i ≡ true
      → new_class_driver place has_observer i d ≡ (some (length d.drivers), with_driver i d)
  unfolding new_class_driver
  new_class_driver-supported i d h = ground (arith, h)

  pub new_class_driver-refused :
      (i : InterfaceDescriptor) (d : Device S)
      → is_supported i ≡ false
      → new_class_driver place has_observer i d ≡ (none, d)
  unfolding new_class_driver
  new_class_driver-refused i d h = ground (arith, h)

  -- One step of the loop.
  pub stops :
      (fuel : ℕ) (memory : Bytes) (r r' : Reader) (d : Device S)
      → next_interface (suc fuel) memory r ≡ done (none, r')
      → read_interfaces (suc fuel) place has_observer memory r d ≡ done (false, d)
  unfolding read_interfaces
  stops fuel memory r r' d e = ground (arith, e)

  pub continues :
      (fuel : ℕ) (memory : Bytes) (r r' : Reader) (d : Device S) (i : InterfaceDescriptor)
      → next_interface (suc fuel) memory r ≡ done (some i, r')
      → is_supported i ≡ false
      → read_interfaces (suc fuel) place has_observer memory r d
        ≡ read_interfaces fuel place has_observer memory r' d
  unfolding read_interfaces
  continues fuel memory r r' d i e u = ground (arith, e, new_class_driver-refused i d u)

  takes :
      (fuel : ℕ) (memory : Bytes) (r r' : Reader) (d d' : Device S) (i : InterfaceDescriptor)
      → next_interface (suc fuel) memory r ≡ done (some i, r')
      → is_supported i ≡ true
      → read_endpoints
          (suc fuel)
          memory
          (length d.drivers)
          i.num_endpoints
          r'
          (record (with_driver i d) { num_ep_configs = 0 })
        ≡ done d'
      → read_interfaces (suc fuel) place has_observer memory r d ≡ done (true, d')
  unfolding read_interfaces
  takes fuel memory r r' d d' i e u q = ground (arith, e, new_class_driver-supported i d u, q)

module _ {S : Type 0} (place : ℕ → ℕ) (has_observer : Kind → Bool) (memory : Bytes)
    (d : Device S) where
  -- The device with the driver of an interface and the endpoints that it asks for.
  abbrev pub recorded : InterfaceDescriptor → List ℕ → Device S
  recorded i behind =
      record_endpoints (length d.drivers)
        (map make_ep_config (take i.num_endpoints (endpoints_in memory behind)))
        (record (with_driver place has_observer i d) { num_ep_configs = 0 })

  abbrev pub reads : Option (InterfaceDescriptor × ℕ × List ℕ) → Bool × Device S
  reads none = (false, d)
  reads (some (i, at, behind)) = (true, recorded i behind)

  -- The interface has its endpoints behind it, and no more than there is room for.
  abbrev pub Fits : Option (InterfaceDescriptor × ℕ × List ℕ) → Type 0
  Fits none = Unit
  Fits (some (i, at, behind)) =
      (i.num_endpoints ≤ length d.ep_configs)
      × (i.num_endpoints ≤ length (endpoints_in memory behind))

module _ {S : Type 0} (place : ℕ → ℕ) (has_observer : Kind → Bool) (memory : Bytes) (buf len : ℕ)
    (d : Device S) where
  abbrev ReadsAll : ℕ → ℕ → List ℕ → Type 0
  ReadsAll fuel p ds =
      read_interfaces fuel place has_observer memory (reader memory buf len p) d
      ≡ done (reads place has_observer memory d (supported_in memory ds))

  after_search :
      (fuel p : ℕ) {ds : List ℕ} {result : Run (Option InterfaceDescriptor × Reader)}
      → ((q : ℕ) (behind : List ℕ)
          → Chain memory (buf + len) q behind
          → length behind < fuel
          → Fits place has_observer memory d (supported_in memory behind)
          → ReadsAll fuel q behind)
      → length ds ≤ fuel
      → Fits place has_observer memory d (supported_in memory ds)
      → next_interface (suc fuel) memory (reader memory buf len p) ≡ result
      → Searched memory buf len ds result
      → ReadsAll (suc fuel) p ds
  after_search fuel p rest h fits e (no_interface {r = r} none_in) =
      rw none_in (stops place has_observer fuel memory (reader memory buf len p) r d e)
  after_search fuel p rest h fits e
        (an_interface {i = i} {p = q} {behind = behind} found c shorter) =
      elim (Bool-cases (is_supported i)) [
        | inl t ↦
            let same =
              found ∙ ap (λ b. if b then some (i, q, behind) else supported_in memory behind) t in
            let (room, enough) = subst (Fits place has_observer memory d) same fits in
            takes place has_observer fuel memory (reader memory buf len p) (reader memory buf len q)
              d (recorded place has_observer memory d i behind) i e t
              (read_endpoints-Chain memory buf len (length d.drivers) i.num_endpoints (suc fuel)
                i.num_endpoints (record (with_driver place has_observer i d) { num_ep_configs = 0 })
                c (omega arith) (omega arith) room enough)
            ∙ ap (λ o. done (reads place has_observer memory d o)) (sym same)
        | inr f ↦
            let same =
              found ∙ ap (λ b. if b then some (i, q, behind) else supported_in memory behind) f in
            continues place has_observer fuel memory (reader memory buf len p)
              (reader memory buf len q) d i e f
            ∙ rest q behind c (omega arith) (subst (Fits place has_observer memory d) same fits)
            ∙ ap (λ o. done (reads place has_observer memory d o)) (sym same)
      ]

  -- The loop takes the first interface that is supported, and its endpoints.
  pub read_interfaces-Chain :
      (fuel p : ℕ) (ds : List ℕ)
      → Chain memory (buf + len) p ds
      → length ds < fuel
      → Fits place has_observer memory d (supported_in memory ds)
      → ReadsAll fuel p ds
  read_interfaces-Chain zero p ds c h fits = absurd (omega arith)
  read_interfaces-Chain (suc fuel) p ds c h fits =
      after_search fuel p (read_interfaces-Chain fuel) (omega arith) fits refl
        (next_interface-Searched memory buf len (suc fuel) c h)
