-- ===== src/Engine.antt =====
-- app/agent.py: the workflow engine, over the tables and an environment that answers its questions.
pub mod Environment
pub mod Keys
pub mod Output
pub mod Steps
pub mod Frames
pub mod Decided
pub mod Statements
pub mod Execute
pub mod Moves
pub mod Run
pub mod Rollback
pub mod RunMoves
pub mod Outage
pub mod Once
pub mod AtMostOnce
pub mod RollbackOnce
