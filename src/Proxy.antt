-- ===== src/Proxy.antt =====
-- src/utils/zproxy.c.
pub mod Send
pub mod SendLaws
pub mod State
pub mod Address
pub mod Serve
pub mod Relay
pub mod Sockets
pub mod Ssl
pub mod Losses
