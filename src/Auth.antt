-- ===== src/Auth.antt =====
-- src/servlets/functions/functions-auth.c and the login of src/servlets/servlet-functions.c.
pub mod Salt
pub mod Check
pub mod Login
pub mod Outcome
pub mod Laws
pub mod Alphabet
