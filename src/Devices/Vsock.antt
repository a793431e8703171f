-- ===== src/Devices/Vsock.antt =====
-- The vsock device: src/devices/vsock.
pub mod Connection
pub mod Packet
pub mod Stream
