-- ===== src/Lidar.antt =====
-- lidar/: the device behind the vendor's SDK, and the supervised acquisition from it.
pub mod BackOff
pub mod Device
pub mod Acquisition
mod Tests
