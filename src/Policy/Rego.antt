-- ===== src/Policy/Rego.antt =====
-- opa/policy.rego: the decision that the shipped Rego policy defines. Where its rule does not
-- hold, also because a role or an action is not in its tables, the default stands.
use aurelian_autonomous_ente.Prelude.{
  ℕ, String, Bool, false, not, ◌&&◌, List, [], ◌∷◌, none, some, ◌==◌, leb, lookup, get_or, concat,
  if◌then◌else◌,
}

pub record RegoDecision : Type 0 where
  pub allowed : Bool
  pub requires_approval : Bool
  pub approval_tier : String
  pub risk : String
  pub reason : String

abbrev pub rego_default : RegoDecision
rego_default = record {
  allowed = false;
  requires_approval = false;
  approval_tier = "none";
  risk = "unknown";
  reason = "default deny";
}

abbrev pub rego_role_level : List (String × ℕ)
rego_role_level = ("viewer", 0) ∷ ("operator", 1) ∷ ("admin", 2) ∷ ("executive", 3) ∷ []

abbrev pub action_risk : List (String × String)
action_risk =
    ("search_knowledge", "low")
    ∷ ("get_service_health", "low")
    ∷ ("list_inventory", "low")
    ∷ ("recommend_reorders", "low")
    ∷ ("get_customer_profile", "low")
    ∷ ("get_order_backlog", "low")
    ∷ ("send_notice", "medium")
    ∷ ("restart_service", "medium")
    ∷ ("change_product_price", "high")
    ∷ ("issue_refund", "high")
    ∷ ("disable_user_account", "high")
    ∷ []

abbrev pub min_level : List (String × ℕ)
min_level = ("low", 0) ∷ ("medium", 1) ∷ ("high", 1) ∷ []

abbrev pub rego_approval : List (String × String)
rego_approval = ("low", "none") ∷ ("medium", "team") ∷ ("high", "executive_mfa") ∷ []

unfoldable pub injection_side_effect : String → String → Bool
injection_side_effect risk input_risk = not (input_risk == "low") && not (risk == "low")

abbrev pub rego_output : String → String → RegoDecision
rego_output risk tier = record {
  allowed = tier == "none";
  requires_approval = not (tier == "none");
  approval_tier = tier;
  risk = risk;
  reason = concat ("OPA: " ∷ risk ∷ " risk / " ∷ tier ∷ " approval" ∷ []);
}

-- The body of the rule, for an action with a risk and a role with a level.
unfoldable pub rego_rule : String → ℕ → String → RegoDecision
rego_rule risk level input_risk =
    if leb (get_or (lookup risk min_level) 0) level && not (injection_side_effect risk input_risk)
    then rego_output risk (get_or (lookup risk rego_approval) "none")
    else rego_default

unfoldable pub rego_decision : String → String → String → RegoDecision
rego_decision action role input_risk = elim (lookup action action_risk) [
  | none ↦ rego_default
  | some risk ↦ elim (lookup role rego_role_level) [
    | none ↦ rego_default
    | some level ↦ rego_rule risk level input_risk
  ]
]
