-- ===== src/Retrieval.antt =====
-- app/rag.py: the cache of search results, scores of documents, ingestion and search. Redis, Qdrant,
-- SHA-256 and the arithmetic of floats are parameters.
pub mod Cache
pub mod Kept
pub mod Ideal
pub mod Retained
pub mod Scores
pub mod Backends
pub mod Ingest
pub mod Search
pub mod Ranking
pub mod Requests
pub mod Keys
pub mod Entries
pub mod Safe
pub mod Sent
pub mod Isolation
mod Tests
mod SearchTests
