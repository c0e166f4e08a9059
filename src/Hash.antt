-- ===== src/Hash.antt =====
-- src/bin/sha1.c and src/bin/sha1wrap.c.
pub mod Sha1
pub mod Wrap
pub mod Feed
pub mod Hex
