-- ===== src/Dispatch.antt =====
-- How the answer of the database reaches the callbacks: the head of the chain is called, and each
-- `NEXT_CB` calls the next (include/functions.h, db_sources/mysql/zrpcdb.c, src/bin/loop.c).
pub mod Chain
pub mod Steps
pub mod Ownership
pub mod Ends
