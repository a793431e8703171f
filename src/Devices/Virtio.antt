-- ===== src/Devices/Virtio.antt =====
-- The crate src/devices/virtio.
pub mod Queue
