-- ===== src/Policy.antt =====
-- app/policy.py, policies/policy.yaml and opa/policy.rego: the decision on an action, by the local
-- rules or by Open Policy Agent, and the authorization of an approval.
pub mod Decision
pub mod Shipped
pub mod Evaluate
pub mod Rego
pub mod Gate
pub mod Effects
pub mod Roles
pub mod Approval
pub mod Agreement
mod Tests
