-- ===== src/Rpc.antt =====
-- The request context that every call of the server carries, and the code that works on it:
-- include/ztypes.h, include/functions.h, include/servlets.h, src/servlets/functions/functions_cb.c,
-- src/bin/loop.c, include/zrpcdb.h and include/zrpcdb.x.
pub mod Faults
pub mod Records
pub mod Query
pub mod State
pub mod Slots
pub mod Macros
pub mod Callbacks
pub mod Handlers
pub mod Database
pub mod Env
pub mod Privileges
pub mod Delivery
