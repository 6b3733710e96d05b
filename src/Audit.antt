-- ===== src/Audit.antt =====
-- app/audit.py: the signed hash chain of audit events. The JSON print, SHA-256 and HMAC are
-- parameters.
pub mod Crypto
pub mod Ledger
pub mod Chain
pub mod Append
pub mod Tamper
pub mod Plain
mod Tests
