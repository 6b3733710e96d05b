-- ===== src/Runner.antt =====
-- tool_runner/app.py: the service that runs the isolated tools.
pub mod Execute
pub mod Verified
mod Tests
