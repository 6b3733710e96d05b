-- ===== src/Secrets.antt =====
-- app/secrets.py: where a secret comes from, and that it stays the same.
pub mod Provider
pub mod Stable
mod Tests
