-- ===== src/World.antt =====
-- The state that the handlers share: the tables of postgres/schema.sql that the workflow writes, the
-- statements on them, and the effects of a handler (app/database.py, app/agent.py, app/main.py).
pub mod Rows
pub mod Effects
pub mod Statements
