-- ===== src/Machine.antt =====
-- The update of the machines of a node: functions-vm.c.
pub mod Vm
pub mod Update
pub mod Calls
pub mod Join
pub mod Stalls
