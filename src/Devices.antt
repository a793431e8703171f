-- ===== src/Devices.antt =====
-- The devices under a session: src/devices.
pub mod Vsock
pub mod Virtio
