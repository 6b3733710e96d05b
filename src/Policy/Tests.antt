-- ===== src/Policy/Tests.antt =====
-- Concrete decisions.
use aurelian_autonomous_ente.Prelude.{String, ◌≡◌, ◌↔◌, inr, refl, true, false, [], ◌∷◌, arith}
use aurelian_autonomous_ente.Json.{str}
use aurelian_autonomous_ente.Result.{ok}
use aurelian_autonomous_ente.Auth.Roles.{Principal}
use aurelian_autonomous_ente.Policy.Decision.{
  PolicyDecision, Rule, decide, local_decision, rule_of, below_minimum, local_ask, local_allow,
}
use aurelian_autonomous_ente.Policy.Shipped.{shipped_policy}
use aurelian_autonomous_ente.Policy.Evaluate.{approval_authorized}
use aurelian_autonomous_ente.Policy.Gate.{IsGated, production_gate}
use aurelian_autonomous_ente.Policy.Effects.{shipped-no_effect}
use aurelian_autonomous_ente.Tools.Specs.{has_side_effect}
use aurelian_autonomous_ente.Policy.Roles.{local_decision_mono}
use aurelian_autonomous_ente.Policy.Approval.{MayApprove, approval_authorized_iff}
use aurelian_autonomous_ente.Policy.Agreement.{agrees, is_exception, local_agrees_with_rego}
use aurelian_autonomous_ente.Policy.Rego.{rego_decision}

abbrev user : String → Principal
user role = record {
  sub = "u";
  tenant_id = "meridian";
  role = role;
  scopes = str "approve:team" ∷ [];
  mfa = true;
}

abbrev refund_rule : Rule
refund_rule = record { risk = "high"; minimum = "operator"; approval = "executive_mfa" }

abbrev refund_decision : PolicyDecision
refund_decision =
    local_ask (shipped_policy "h") "executive_mfa" "high"
      "high-risk production action requires executive_mfa approval."

refund_asks :
    local_decision (shipped_policy "h") "issue_refund" (user "operator") "production" "low"
    ≡ ok refund_decision
unfolding local_decision rule_of decide below_minimum
refund_asks = refl

production_gate_example :
    IsGated (shipped_policy "h") "issue_refund" (user "operator") "low" refund_rule refund_decision
production_gate_example =
    production_gate (shipped_policy "h") "issue_refund" (user "operator") "low" refund_rule
      refund_decision (unfold rule_of in refl) refund_asks

local_decision_mono_example :
    local_decision (shipped_policy "h") "issue_refund" (user "executive") "production" "low"
    ≡ ok refund_decision
local_decision_mono_example =
    local_decision_mono (shipped_policy "h") "issue_refund" "production" "low" (user "operator")
      "executive" 1 3 refund_decision refl refl (omega arith) refund_asks (inr refl)

approval_authorized_iff_example :
    ((approval_authorized refund_decision (user "executive")).0 ≡ true)
    ↔ MayApprove refund_decision (user "executive")
approval_authorized_iff_example = approval_authorized_iff refund_decision (user "executive")

local_agrees_with_rego_example :
    (agrees
        (local_decision (shipped_policy "h") "send_notice" (user "viewer") "production" "low")
        (rego_decision "send_notice" "viewer" "low")
      ≡ true)
    ↔ (is_exception "send_notice" "viewer" ≡ false)
local_agrees_with_rego_example =
    local_agrees_with_rego "h" "send_notice" (user "viewer") "low" refl refl

abbrev inventory_decision : PolicyDecision
inventory_decision = local_allow (shipped_policy "h") "low"

shipped-no_effect_example : has_side_effect "list_inventory" ≡ false
shipped-no_effect_example =
    shipped-no_effect "h" "list_inventory" (user "viewer") "low" inventory_decision
      (unfold local_decision rule_of decide below_minimum in refl) refl
