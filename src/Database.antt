-- ===== src/Database.antt =====
-- app/database.py: the translation of SQL placeholders, and the methods of `Database` on a pool.
pub mod Placeholders
pub mod Pieces
pub mod Tokens
pub mod Copies
pub mod Translation
pub mod Server
pub mod Methods
pub mod Pool
pub mod Tenancy
mod Tests
mod PoolTests
