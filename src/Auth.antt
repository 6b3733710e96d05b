-- ===== src/Auth.antt =====
-- app/auth.py: the principal behind a bearer token. What PyJWT and the identity provider answer is
-- a parameter; the claims are JSON.
pub mod Roles
pub mod Claims
pub mod Demo
pub mod Bearer
pub mod Recognized
pub mod Tokens
mod Tests
