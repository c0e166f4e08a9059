-- ===== src/Console.antt =====
-- The consoles of machines: src/servlets/functions/functions-console.c.
pub mod Calls
pub mod Text
pub mod Graphical
pub mod Ports
pub mod Search
pub mod Refused
