-- ===== src/Tools.antt =====
-- app/tools.py: the registered tools.
pub mod Specs
pub mod Host
pub mod Sandbox
pub mod Execute
pub mod Arguments
pub mod Outputs
pub mod Prices
pub mod Tenants
pub mod Amounts
mod Tests
