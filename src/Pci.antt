-- ===== src/Pci.antt =====
-- kernel/pci.hpp, pci.cpp: the configuration space of PCI devices, read and written through the
-- CONFIG_ADDRESS and CONFIG_DATA ports.
pub mod Scan
pub mod Msi
mod Tests
use Prim.Native.Nat.{bit_and, bit_or}
use uhyok_os.Base.{ℕ, ◌+◌, ◌*◌, ◌/◌, ◌%◌, ◌^◌, Bool, ◌&&◌, ◌==◌, leb, if◌then◌else◌, List, [], ◌∷◌}
use uhyok_os.Errors.{Code, success, index_out_of_range, WithError}

pub record ClassCode : Type 0 where
  pub base : ℕ
  pub sub : ℕ
  pub interface_code : ℕ

-- `ClassCode::Match(b, s)`.
abbrev pub match_class : ClassCode → ℕ → ℕ → Bool
match_class c b s = b == c.base && s == c.sub

pub record Device : Type 0 where
  pub bus : ℕ
  pub device : ℕ
  pub function : ℕ
  pub header_type : ℕ
  pub class_code : ClassCode

-- A shift of a `uint32_t`.
abbrev shl : ℕ → ℕ → ℕ
shl x bits = x * 2 ^ bits % 2 ^ 32

abbrev pub make_address : ℕ → ℕ → ℕ → ℕ → ℕ
make_address bus device function reg_addr =
    bit_or (bit_or (bit_or (bit_or (shl 1 31) (shl bus 16)) (shl device 11)) (shl function 8))
      (bit_and reg_addr 0xfc)

abbrev pub is_single_function_device : ℕ → Bool
is_single_function_device header_type = bit_and header_type 0x80 == 0

-- An addition in a `uint8_t`.
abbrev pub add8 : ℕ → ℕ → ℕ
add8 a b = (a + b) % 2 ^ 8

abbrev pub calc_bar_address : ℕ → ℕ
calc_bar_address bar_index = (0x10 + 4 * bar_index) % 2 ^ 8

-- What the port reads at each address.
module _ (config : ℕ → ℕ) where
  pub read_vendor_id : ℕ → ℕ → ℕ → ℕ
  read_vendor_id bus device function = config (make_address bus device function 0x00) % 2 ^ 16

  abbrev pub read_device_id : ℕ → ℕ → ℕ → ℕ
  read_device_id bus device function =
      config (make_address bus device function 0x00) / 2 ^ 16 % 2 ^ 16

  pub read_header_type : ℕ → ℕ → ℕ → ℕ
  read_header_type bus device function =
      config (make_address bus device function 0x0c) / 2 ^ 16 % 2 ^ 8

  pub read_class_code : ℕ → ℕ → ℕ → ClassCode
  read_class_code bus device function =
      let reg = config (make_address bus device function 0x08) in
      record {
        base = reg / 2 ^ 24 % 2 ^ 8;
        sub = reg / 2 ^ 16 % 2 ^ 8;
        interface_code = reg / 2 ^ 8 % 2 ^ 8;
      }

  pub read_bus_numbers : ℕ → ℕ → ℕ → ℕ
  read_bus_numbers bus device function = config (make_address bus device function 0x18)

  pub read_conf_reg : Device → ℕ → ℕ
  read_conf_reg dev reg_addr = config (make_address dev.bus dev.device dev.function reg_addr)

  -- A base address register, or the two that a 64-bit address takes.
  abbrev pub read_bar : Device → ℕ → WithError ℕ
  read_bar dev bar_index =
      if leb 6 bar_index
      then record { value = 0; error = index_out_of_range }
      else let addr = calc_bar_address bar_index in
        let bar = read_conf_reg dev addr in
        if bit_and bar 4 == 0
        then record { value = bar; error = success }
        else if leb 5 bar_index
        then record { value = 0; error = index_out_of_range }
        else record {
          value = bit_or bar (read_conf_reg dev (add8 addr 4) * 2 ^ 32 % 2 ^ 64);
          error = success;
        }
