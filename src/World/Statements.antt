-- ===== src/World/Statements.antt =====
-- The SQL statements of app/agent.py and app/main.py, each as a function of the world. An update
-- answers with the number of rows that it changed.
pub mod Tasks
pub mod Approvals
pub mod Executions
pub mod Compensations
pub mod Recovery
