-- ===== src/Policy/Shipped.antt =====
-- policies/policy.yaml, as the code loads it.
use aurelian_autonomous_ente.Prelude.{String, true, [], ◌∷◌, none, some}
use aurelian_autonomous_ente.Policy.Decision.{ActionConfig, RiskTier, PolicyDocument}

abbrev tier : String → String → RiskTier
tier role approval = record { minimum_role = some role; approval = some approval }

abbrev at_risk : String → ActionConfig
at_risk risk = record { risk = some risk; minimum_role = none }

abbrev for_role : String → String → ActionConfig
for_role risk role = record { risk = some risk; minimum_role = some role }

-- The fingerprint is the hash of the file's bytes, which is not computed here.
abbrev pub shipped_policy : String → PolicyDocument
shipped_policy hash = record {
  risk_tiers =
      ("low", tier "viewer" "none")
      ∷ ("medium", tier "operator" "team")
      ∷ ("high", tier "operator" "executive_mfa")
      ∷ [];
  actions =
      ("search_knowledge", at_risk "low")
      ∷ ("get_service_health", at_risk "low")
      ∷ ("list_inventory", at_risk "low")
      ∷ ("recommend_reorders", for_role "low" "operator")
      ∷ ("get_customer_profile", for_role "low" "operator")
      ∷ ("get_order_backlog", for_role "low" "operator")
      ∷ ("send_notice", at_risk "medium")
      ∷ ("restart_service", at_risk "medium")
      ∷ ("change_product_price", at_risk "high")
      ∷ ("issue_refund", at_risk "high")
      ∷ ("disable_user_account", at_risk "high")
      ∷ [];
  block_side_effect_on_prompt_injection = true;
  fingerprint = hash;
}
