-- ===== src/Session.antt =====
-- src/servlets/functions/functions-session.c: the session of a request and the checks that run
-- before every call.
pub mod Check
pub mod ClientIp
pub mod Sso
pub mod PreCall
pub mod Status
pub mod SsoLaws
