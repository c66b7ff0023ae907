-- ===== src/Pci/Msi.antt =====
-- kernel/pci.cpp: message signalled interrupts, found by a walk over a device's capabilities.
pub mod Capabilities
pub mod Register
use Prim.Native.Nat.{bit_and, bit_or}
use uhyok_os.Base.{
  ℕ, zero, suc, ◌+◌, ◌-◌, ◌*◌, ◌/◌, ◌%◌, ◌^◌, Bool, true, false, not, ◌==◌, leb, if◌then◌else◌,
  List, [], ◌∷◌, ◌++◌, Option, none, some,
}
use uhyok_os.Errors.{Code, success, not_implemented, no_pci_msi}
use uhyok_os.Pci.{Device, read_conf_reg, add8}

-- A bit field of `width` bits above bit `low`, read and assigned.
unfoldable pub field : ℕ → ℕ → ℕ → ℕ
field low width x = x / 2 ^ low % 2 ^ width

pub set_field : ℕ → ℕ → ℕ → ℕ → ℕ
set_field low width v x = x - field low width x * 2 ^ low + v % 2 ^ width * 2 ^ low

-- `CapabilityHeader::bits` and the header's bits of `MSICapability`.
abbrev pub cap_id : ℕ → ℕ
cap_id header = field 0 8 header

abbrev pub next_ptr : ℕ → ℕ
next_ptr header = field 8 8 header

abbrev pub multi_msg_capable : ℕ → ℕ
multi_msg_capable header = field 17 3 header

abbrev pub multi_msg_enable : ℕ → ℕ
multi_msg_enable header = field 20 3 header

abbrev pub msi_enable : ℕ → ℕ
msi_enable header = field 16 1 header

abbrev pub addr_64_capable : ℕ → Bool
addr_64_capable header = not (field 23 1 header == 0)

abbrev pub per_vector_mask_capable : ℕ → Bool
per_vector_mask_capable header = not (field 24 1 header == 0)

abbrev pub capability_msi : ℕ
capability_msi = 0x05

abbrev pub capability_msix : ℕ
capability_msix = 0x11

-- `header.data` is the header; what a device does not have stays 0.
pub record MsiCapability : Type 0 where
  pub header : ℕ
  pub msg_addr : ℕ
  pub msg_upper_addr : ℕ
  pub msg_data : ℕ
  pub mask_bits : ℕ
  pub pending_bits : ℕ

-- Where `msg_data` stands.
pub msg_data_addr : ℕ → ℕ → ℕ
msg_data_addr header cap_addr = if addr_64_capable header then add8 cap_addr 12 else add8 cap_addr 8

-- `WriteMSICapability`, as the list of its writes: an address and a value each.
pub write_msi_capability : ℕ → MsiCapability → List (ℕ × ℕ)
write_msi_capability cap_addr c =
    (cap_addr, c.header)
      ∷ (add8 cap_addr 4, c.msg_addr)
      ∷ (if addr_64_capable c.header then (add8 cap_addr 8, c.msg_upper_addr) ∷ [] else [])
    ++ ((msg_data_addr c.header cap_addr, c.msg_data) ∷ [])
    ++ (if per_vector_mask_capable c.header
        then (add8 (msg_data_addr c.header cap_addr) 4, c.mask_bits)
          ∷ (add8 (msg_data_addr c.header cap_addr) 8, c.pending_bits)
          ∷ []
        else [])

pub enable_header : ℕ → ℕ → ℕ
enable_header header num_vector_exponent =
    let wanted =
      if leb (multi_msg_capable header) num_vector_exponent
      then multi_msg_capable header
      else num_vector_exponent in
    set_field 16 1 1 (set_field 20 3 wanted header)

module _ (config : ℕ → ℕ) (dev : Device) where
  pub read_msi_capability : ℕ → MsiCapability
  read_msi_capability cap_addr =
      let header = read_conf_reg config dev cap_addr in
      let data_addr = msg_data_addr header cap_addr in
      record {
        header = header;
        msg_addr = read_conf_reg config dev (add8 cap_addr 4);
        msg_upper_addr =
            if addr_64_capable header then read_conf_reg config dev (add8 cap_addr 8) else 0;
        msg_data = read_conf_reg config dev data_addr;
        mask_bits =
            if per_vector_mask_capable header
            then read_conf_reg config dev (add8 data_addr 4)
            else 0;
        pending_bits =
            if per_vector_mask_capable header
            then read_conf_reg config dev (add8 data_addr 8)
            else 0;
      }

  pub configure_msi_register : ℕ → ℕ → ℕ → ℕ → Code × List (ℕ × ℕ)
  configure_msi_register cap_addr msg_addr msg_data num_vector_exponent =
      let cap = read_msi_capability cap_addr in
      let cap' : MsiCapability = record cap {
        header = enable_header cap.header num_vector_exponent;
        msg_addr = msg_addr;
        msg_data = msg_data;
      } in
      (success, write_msi_capability cap_addr cap')

  pub configure_msix_register : ℕ → ℕ → ℕ → ℕ → Code × List (ℕ × ℕ)
  configure_msix_register cap_addr msg_addr msg_data num_vector_exponent = (not_implemented, [])

  -- The loop over the capabilities: the last MSI and the last MSI-X capability, 0 for none.
  -- `none` is a walk out of fuel.
  pub find_capabilities : ℕ → ℕ → ℕ → ℕ → Option (ℕ × ℕ)
  find_capabilities fuel zero msi_cap_addr msix_cap_addr = some (msi_cap_addr, msix_cap_addr)
  find_capabilities zero (suc _) msi_cap_addr msix_cap_addr = none
  find_capabilities (suc fuel) (suc c) msi_cap_addr msix_cap_addr =
      let header = read_conf_reg config dev (suc c) in
      let is_msi = cap_id header == capability_msi in
      let is_msix = cap_id header == capability_msix in
      find_capabilities fuel (next_ptr header) (if is_msi then suc c else msi_cap_addr)
        (if is_msi then msix_cap_addr else if is_msix then suc c else msix_cap_addr)

  pub configure_found : ℕ → ℕ → ℕ → ℕ × ℕ → Code × List (ℕ × ℕ)
  configure_found msg_addr msg_data num_vector_exponent (zero, zero) = (no_pci_msi, [])
  configure_found msg_addr msg_data num_vector_exponent (zero, suc c) =
      configure_msix_register (suc c) msg_addr msg_data num_vector_exponent
  configure_found msg_addr msg_data num_vector_exponent (suc c, _) =
      configure_msi_register (suc c) msg_addr msg_data num_vector_exponent

  pub configure_msi : ℕ → ℕ → ℕ → ℕ → Option (Code × List (ℕ × ℕ))
  configure_msi fuel msg_addr msg_data num_vector_exponent =
      elim (find_capabilities fuel (read_conf_reg config dev 0x34 % 2 ^ 8) 0 0) [
        | none ↦ none
        | some found ↦ some (configure_found msg_addr msg_data num_vector_exponent found)
      ]

  -- `ConfigureMSIFixedDestination`; `level` is `MSITriggerMode::kLevel`.
  abbrev pub configure_msi_fixed_destination :
      ℕ → ℕ → Bool → ℕ → ℕ → ℕ → Option (Code × List (ℕ × ℕ))
  configure_msi_fixed_destination fuel apic_id level delivery_mode vector num_vector_exponent =
      let msg_data = bit_or (delivery_mode * 2 ^ 8 % 2 ^ 32) vector in
      configure_msi fuel (bit_or 0xfee00000 (apic_id * 2 ^ 12 % 2 ^ 32))
        (if level then bit_or msg_data 0xc000 else msg_data) num_vector_exponent
