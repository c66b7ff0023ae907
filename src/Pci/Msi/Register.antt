-- ===== src/Pci/Msi/Register.antt =====
-- kernel/pci.cpp: what `ConfigureMSIRegister` writes to the header.
use uhyok_os.Base.{
  ℕ, ◌/◌, ◌%◌, ◌^◌, ◌≡◌, arith, min, refl, ap, some, get_elem?, Bool-cases, inl, inr, not, ◌==◌,
  if◌then◌else◌,
}
use uhyok_os.Pci.{add8}
use uhyok_os.Pci.Msi.{
  field, set_field, enable_header, multi_msg_capable, multi_msg_enable, msi_enable, MsiCapability,
  msg_data_addr, write_msi_capability, addr_64_capable,
}

-- The header enables the interrupt, for as many vectors as are asked for and the device has; its
-- other fields are as they were.
pub record Enabled (exponent header header' : ℕ) : Type 0 where
  pub on : msi_enable header' ≡ 1
  pub vectors : multi_msg_enable header' ≡ min exponent (multi_msg_capable header)
  pub low : header' % 2 ^ 16 ≡ header % 2 ^ 16
  pub capable : field 17 3 header' ≡ field 17 3 header
  pub high : header' / 2 ^ 23 ≡ header / 2 ^ 23

pub enable_header-Enabled :
    (header exponent : ℕ) → Enabled exponent header (enable_header header exponent)
unfolding enable_header field set_field
enable_header-Enabled header exponent = record {
  on = ground arith;
  vectors = ground arith;
  low = ground arith;
  capable = ground arith;
  high = ground arith;
}

-- The place of the message data does not depend on what is enabled.
pub msg_data_addr-enable_header :
    (header exponent c : ℕ)
    → msg_data_addr (enable_header header exponent) c ≡ msg_data_addr header c
unfolding msg_data_addr field
msg_data_addr-enable_header header exponent c =
    let e = (enable_header-Enabled header exponent).high in
    ap (λ f. if not (f % 2 ^ 1 == 0) then add8 c 12 else add8 c 8) e

pub get_elem?-write_header :
    (c : ℕ) (cap : MsiCapability) → get_elem? (write_msi_capability c cap) 0 ≡ some (c, cap.header)
unfolding write_msi_capability
get_elem?-write_header c cap = refl

pub get_elem?-write_address :
    (c : ℕ) (cap : MsiCapability)
    → get_elem? (write_msi_capability c cap) 1 ≡ some (add8 c 4, cap.msg_addr)
unfolding write_msi_capability
get_elem?-write_address c cap = refl

-- The message data is among the writes, after the upper address if there is one.
pub get_elem?-write_msi_capability :
    (c : ℕ) (cap : MsiCapability)
    → (i : ℕ) × (get_elem? (write_msi_capability c cap) i
        ≡ some (msg_data_addr cap.header c, cap.msg_data))
unfolding write_msi_capability
get_elem?-write_msi_capability c cap = elim (Bool-cases (addr_64_capable cap.header)) [
  | inl wide ↦ (3, rw (wide, write_msi_capability) refl)
  | inr narrow ↦ (2, rw (narrow, write_msi_capability) refl)
]
