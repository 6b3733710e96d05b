-- ===== src/Api.antt =====
-- app/main.py: the handlers that change state.
pub mod Tasks
pub mod Approvals
pub mod Recovery
pub mod Runs
pub mod Stale
pub mod Settled
pub mod Phases
pub mod Scanned
pub mod Requests
pub mod RecoveryMoves
pub mod Moves
pub mod Guarantees
pub mod Decides
pub mod Finality
mod Tests
