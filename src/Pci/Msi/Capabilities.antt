-- ===== src/Pci/Msi/Capabilities.antt =====
-- kernel/pci.cpp: the walk of `ConfigureMSI` over the capabilities, and what it configures.
use uhyok_os.Base.{
  ℕ, zero, suc, ◌/◌, ◌%◌, ◌^◌, ◌≤◌, ◌≡◌, ◌≢◌, refl, ap, ◌∙◌, List, [], ◌∷◌, Option, some, arith,
  ◌==◌, if◌then◌else◌, length, get_elem?,
}
use uhyok_os.Errors.{Code, success, not_implemented, no_pci_msi}
use uhyok_os.Pci.{Device, read_conf_reg, add8}
use uhyok_os.Pci.Msi.{
  cap_id, field, next_ptr, capability_msi, capability_msix, msg_data_addr, enable_header,
  read_msi_capability, configure_msi_register, configure_msix_register, find_capabilities,
  configure_found, configure_msi, MsiCapability,
}
use uhyok_os.Pci.Msi.Register.{
  Enabled, enable_header-Enabled, msg_data_addr-enable_header, get_elem?-write_header,
  get_elem?-write_address, get_elem?-write_msi_capability,
}

module _ (config : ℕ → ℕ) (dev : Device) where
  -- The capabilities in the order of the chain of pointers, which ends at 0.
  pub data Chain : ℕ → List ℕ → Type 0 where
    stop : Chain 0 []
    link :
        {l : List ℕ} (c : ℕ)
        → Chain (next_ptr (read_conf_reg config dev (suc c))) l
        → Chain (suc c) (suc c ∷ l)

  -- The last capability of a kind, or `d` when there is none.
  abbrev pub last_of : ℕ → List ℕ → ℕ → ℕ
  last_of id [] d = d
  last_of id (c ∷ l) d = last_of id l (if cap_id (read_conf_reg config dev c) == id then c else d)

  kinds_differ :
      (id c d : ℕ)
      → (if id == capability_msi then d else if id == capability_msix then c else d)
        ≡ (if id == capability_msix then c else d)
  kinds_differ id c d = ground arith

  -- The walk ends with fuel for the chain, at the last capability of each kind.
  find_capabilities-Chain :
      (fuel : ℕ) {c : ℕ} {l : List ℕ} (msi msix : ℕ)
      → Chain c l
      → length l ≤ fuel
      → find_capabilities config dev fuel c msi msix
        ≡ some (last_of capability_msi l msi, last_of capability_msix l msix)
  unfolding find_capabilities
  find_capabilities-Chain zero msi msix stop h = refl
  find_capabilities-Chain (suc fuel) msi msix stop h = refl
  find_capabilities-Chain zero msi msix (link c r) h = absurd (omega arith)
  find_capabilities-Chain (suc fuel) msi msix (link {l = l} c r) h =
      find_capabilities-Chain fuel
        (if cap_id (read_conf_reg config dev (suc c)) == capability_msi then suc c else msi)
        (if cap_id (read_conf_reg config dev (suc c)) == capability_msi
          then msix
          else if cap_id (read_conf_reg config dev (suc c)) == capability_msix
          then suc c
          else msix)
        r (omega arith)
      ∙ ap
          (λ d. some (
            last_of capability_msi l (
                if cap_id (read_conf_reg config dev (suc c)) == capability_msi then suc c else msi),
            last_of capability_msix l d,
          ))
          (kinds_differ (cap_id (read_conf_reg config dev (suc c))) (suc c) msix)

  -- Bit 23 of the header says that addresses have 64 bits, and then the upper half of the message
  -- address stands before the data.
  msg_data_addr-wide :
      (header c : ℕ)
      → msg_data_addr header c ≡ (if header / 2 ^ 23 % 2 == 1 then add8 c 12 else add8 c 8)
  unfolding msg_data_addr field
  msg_data_addr-wide header c = ground arith

  -- What is written for the capability at `c`.
  pub record Written (c msg_addr msg_data exponent : ℕ) (ws : List (ℕ × ℕ)) : Type 0 where
    pub header : ℕ
    pub enables : Enabled exponent (read_conf_reg config dev c) header
    pub to_header : get_elem? ws 0 ≡ some (c, header)
    pub to_address : get_elem? ws 1 ≡ some (add8 c 4, msg_addr)
    pub data_at : ℕ
    pub to_data :
        get_elem? ws data_at
        ≡ some
            (if read_conf_reg config dev c / 2 ^ 23 % 2 == 1 then add8 c 12 else add8 c 8, msg_data)

  register_writes : ℕ → ℕ → ℕ → ℕ → List (ℕ × ℕ)
  register_writes c msg_addr msg_data exponent =
      (configure_msi_register config dev c msg_addr msg_data exponent).1

  register_writes-Written :
      (c msg_addr msg_data exponent : ℕ)
      → (configure_msi_register config dev c msg_addr msg_data exponent
          ≡ (success, register_writes c msg_addr msg_data exponent))
        × Written c msg_addr msg_data exponent (register_writes c msg_addr msg_data exponent)
  unfolding register_writes configure_msi_register read_msi_capability
  register_writes-Written c msg_addr msg_data exponent =
      let header = read_conf_reg config dev c in
      let cap : MsiCapability = record (read_msi_capability config dev c) {
        header = enable_header header exponent;
        msg_addr = msg_addr;
        msg_data = msg_data;
      } in
      let (i, at) = get_elem?-write_msi_capability c cap in
      (
        refl,
        record {
          header = enable_header header exponent;
          enables = enable_header-Enabled header exponent;
          to_header = get_elem?-write_header c cap;
          to_address = get_elem?-write_address c cap;
          data_at = i;
          to_data =
              at
              ∙ ap (λ a. some (a, msg_data))
                  (msg_data_addr-enable_header header exponent c ∙ msg_data_addr-wide header c);
        },
      )

  -- What `ConfigureMSI` does with the capabilities of a chain.
  pub record Configured (l : List ℕ) (msg_addr msg_data exponent : ℕ)
      (r : Option (Code × List (ℕ × ℕ))) : Type 0 where
    pub msi :
        (c : ℕ)
        → last_of capability_msi l 0 ≡ suc c
        → (ws : List (ℕ × ℕ)) × (r ≡ some (success, ws))
          × Written (suc c) msg_addr msg_data exponent ws
    pub msix :
        last_of capability_msi l 0 ≡ 0
        → last_of capability_msix l 0 ≢ 0
        → r ≡ some (not_implemented, [])
    pub neither :
        last_of capability_msi l 0 ≡ 0 → last_of capability_msix l 0 ≡ 0 → r ≡ some (no_pci_msi, [])

  found_msix :
      (msg_addr msg_data exponent c : ℕ)
      → c ≢ 0
      → configure_found config dev msg_addr msg_data exponent (0, c) ≡ (not_implemented, [])
  unfolding configure_found configure_msix_register
  found_msix msg_addr msg_data exponent zero ne = absurd (ne refl)
  found_msix msg_addr msg_data exponent (suc c) ne = refl

  -- When the device's capabilities form a chain that ends, and there is fuel for its length,
  -- `ConfigureMSI` returns. It configures the last MSI capability: its header, its message address
  -- and its message data are written, the data behind the upper address on a device of 64-bit
  -- addresses, and the header enables as many vectors as asked for, up to what the device can do.
  -- With only an MSI-X capability it fails with `kNotImplemented`, with neither with `kNoPCIMSI`,
  -- and writes nothing.
  pub configure_msi-Configured :
      (fuel msg_addr msg_data exponent : ℕ) (l : List ℕ)
      → Chain (read_conf_reg config dev 0x34 % 2 ^ 8) l
      → length l ≤ fuel
      → Configured l msg_addr msg_data exponent
          (configure_msi config dev fuel msg_addr msg_data exponent)
  unfolding configure_msi configure_found configure_msix_register
  configure_msi-Configured fuel msg_addr msg_data exponent l chain h =
      let walked = find_capabilities-Chain fuel 0 0 chain h in
      record {
        msi = λ c e.
            let (same, written) = register_writes-Written (suc c) msg_addr msg_data exponent in
            (
              register_writes (suc c) msg_addr msg_data exponent,
              rw (walked, configure_msi, e, configure_found) (ap some same),
              written,
            );
        msix = λ e ne.
            rw (walked, configure_msi, e)
              (ap some (found_msix msg_addr msg_data exponent (last_of capability_msix l 0) ne));
        neither = λ e z. rw (walked, configure_msi, e, z, configure_found) refl;
      }
