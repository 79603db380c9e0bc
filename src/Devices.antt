-- ===== src/Devices.antt =====
-- src/mbdeploy/devices.py: board names, announcements, the registry and its targets.
pub mod Name
pub mod Announce
pub mod Registry
pub mod Hardware
pub mod Usb
pub mod Probe
pub mod Store
pub mod Resolve
pub mod Tests
