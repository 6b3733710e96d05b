-- ===== src/Planner.antt =====
-- app/planning.py, which plans a request by its keywords; the planner service (planner_runner/app.py);
-- and `WorkflowEngine.plan` (app/agent.py), which asks one or the other.
pub mod Extract
pub mod Request
pub mod Args
pub mod Plans
mod Tests
