-- ===== src/Usb/Device/Initialization.antt =====
-- kernel/usb/device.cpp: how a device is initialized, from its configuration descriptor on.
use uhyok_os.Base.{ℕ, length}
use uhyok_os.Usb.Descriptor.{SetupData}
use uhyok_os.Usb.Device.{Device}

-- `SET_CONFIGURATION` of the USB specification.
abbrev pub set_configuration : ℕ → SetupData
set_configuration value = record {
  request_type = 0;
  request = 9;
  value = value;
  index = 0;
  length = 0;
}
