-- ===== src/Security.antt =====
-- app/security.py: normalization and classification of untrusted text, the guard model, and which
-- documents may serve as context. Unicode's NFKC form and the guard's replies are parameters.
pub mod Patterns
pub mod Classify
pub mod Guard
pub mod Context
pub mod Search
pub mod Levels
pub mod Usable
mod Tests
