-- ===== src/Errors.antt =====
-- kernel/error.hpp: the error codes, their names, and a value paired with an error.
use uhyok_os.Base.{Bool, true, false}

-- `Error::Code`.
pub data Code : Type 0 where
  success full empty no_enough_memory index_out_of_range host_controller_not_halted : Code
  invalid_slot_id port_not_connected invalid_endpoint_number transfer_ring_not_set : Code
  already_allocated not_implemented invalid_descriptor buffer_too_small unknown_device : Code
  no_corresponding_setup_stage transfer_failed invalid_phase unknown_xhci_speed_id no_waiter : Code
  no_pci_msi unknown_pixel_format no_such_task last_of_code : Code

-- `Error::operator bool`: true for anything but success.
abbrev pub is_error : Code → Bool
is_error success = false
is_error _ = true

-- `WithError<T>`.
pub record WithError {ℓ} (A : Type ℓ) : Type ℓ where
  pub value : A
  pub error : Code
