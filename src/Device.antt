-- ===== src/Device.antt =====
-- src/servlets/functions/functions-disk.c and functions-vif.c.
pub mod Update
pub mod Disk
pub mod Vif
pub mod Progress
pub mod Stalls
pub mod Compare
pub mod Calls
