-- ===== src/Tests.antt =====
-- Concrete instances of the parts that the development takes as parameters, and applications of the
-- theorems at concrete inputs.
mod Channel
mod Machines
mod Readers
mod PreSession
mod Session
mod Devices
mod Service
mod Policies
mod Logging
mod Virtio
