-- ===== src/Usb.antt =====
-- kernel/usb: the containers and the rings of the USB stack.
pub mod ArrayMap
pub mod Ring
pub mod Descriptor
pub mod Hid
pub mod Device
mod Tests
