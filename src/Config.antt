-- ===== src/Config.antt =====
-- The configuration of the daemon: `zentific_config` of include/ztypes.h and src/bin/zconf.c, and
-- the parts of src/bin/server.c that start the daemon and handle its signals.
pub mod State
pub mod Parse
pub mod Server
pub mod Signals
pub mod Start
pub mod Filled
pub mod Kept
pub mod Reach
pub mod Sound
pub mod Reload
