-- ===== src/Job.antt =====
-- src/servlets/functions/functions-jobs.c.
pub mod Calls
pub mod Lists
pub mod Scheduler
pub mod Laws
