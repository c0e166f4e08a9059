-- ===== src/Network.antt =====
-- src/servlets/functions/functions-network.c.
pub mod Calls
pub mod Remove
pub mod JobString
pub mod JobStringLaws
