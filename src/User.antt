-- ===== src/User.antt =====
-- src/servlets/functions/functions-user.c: accounts, passwords, and the sessions of a user.
pub mod Fields
pub mod Callbacks
pub mod Accounts
pub mod Password
pub mod Add
pub mod Laws
pub mod AddLaws
pub mod Queries
