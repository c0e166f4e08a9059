-- ===== src/Group.antt =====
-- src/servlets/functions/functions-group.c: groups of users.
pub mod Calls
pub mod Laws
pub mod Queries
