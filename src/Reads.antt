-- ===== src/Reads.antt =====
-- The requests of app/main.py that only read: listings, one task, the recovery queue, figures, the
-- ledger, traces, the principal itself and demo tokens.
pub mod Listings
pub mod Own
pub mod Tokens
mod Tests
