-- ===== src/Policy/Effects.antt =====
-- policies/policy.yaml against the tools of app/tools.py.
use aurelian_autonomous_ente.Prelude.{
  String, ◌≡◌, ◌⊎◌, inl, inr, refl, sym, subst, true, false, Bool-cases, eq_iff, arith, some,
}
use aurelian_autonomous_ente.Result.{ok}
use aurelian_autonomous_ente.Auth.Roles.{Principal}
use aurelian_autonomous_ente.Policy.Decision.{
  PolicyDecision, Rule, rule_of, rule_of_config, is_elevated, local_decision,
}
use aurelian_autonomous_ente.Policy.Shipped.{shipped_policy}
use aurelian_autonomous_ente.Policy.Gate.{production_gate}
use aurelian_autonomous_ente.Tools.Specs.{has_side_effect}

abbrev IsListed : String → Type 0
IsListed action =
    (action ≡ "send_notice")
    ⊎ ((action ≡ "restart_service")
        ⊎ ((action ≡ "change_product_price")
            ⊎ ((action ≡ "issue_refund") ⊎ (action ≡ "disable_user_account"))))

abbrev medium_rule : Rule
medium_rule = record { risk = "medium"; minimum = "operator"; approval = "team" }

abbrev high_rule : Rule
high_rule = record { risk = "high"; minimum = "operator"; approval = "executive_mfa" }

has_side_effect-IsListed : (action : String) → has_side_effect action ≡ true → IsListed action
unfolding has_side_effect
has_side_effect-IsListed action h = ground (
  arith,
  eq_iff "send_notice" action,
  eq_iff "restart_service" action,
  eq_iff "change_product_price" action,
  eq_iff "issue_refund" action,
  eq_iff "disable_user_account" action,
)

module _ (hash : String) (p : Principal) (risk : String) (d : PolicyDecision) where
  abbrev Denies : String → Type 0
  Denies action =
      local_decision (shipped_policy hash) action p "production" risk ≡ ok d → d.allowed ≡ true → ⊥

  elevated-denied :
      (action : String) (rule : Rule)
      → rule_of (shipped_policy hash) action ≡ ok (some rule)
      → is_elevated rule.risk ≡ true
      → Denies action
  elevated-denied action rule r e h a =
      let ((gate, _), _) = production_gate (shipped_policy hash) action p risk rule d r h in
      let (_, low, _) = gate a in cc

  effect-denied : (action : String) → IsListed action → Denies action
  unfolding rule_of rule_of_config
  effect-denied action (inl e) =
      subst (λ x. Denies x) (sym e) (elevated-denied "send_notice" medium_rule refl refl)
  effect-denied action (inr (inl e)) =
      subst (λ x. Denies x) (sym e) (elevated-denied "restart_service" medium_rule refl refl)
  effect-denied action (inr (inr (inl e))) =
      subst (λ x. Denies x) (sym e) (elevated-denied "change_product_price" high_rule refl refl)
  effect-denied action (inr (inr (inr (inl e)))) =
      subst (λ x. Denies x) (sym e) (elevated-denied "issue_refund" high_rule refl refl)
  effect-denied action (inr (inr (inr (inr e)))) =
      subst (λ x. Denies x) (sym e) (elevated-denied "disable_user_account" high_rule refl refl)

-- With the shipped policy and no policy engine, a tool with a side effect is never allowed at once
-- in production, whoever asks.
pub shipped-no_effect :
    (hash action : String) (p : Principal) (risk : String) (d : PolicyDecision)
    → local_decision (shipped_policy hash) action p "production" risk ≡ ok d
    → d.allowed ≡ true
    → has_side_effect action ≡ false
shipped-no_effect hash action p risk d h a = elim (Bool-cases (has_side_effect action)) [
  | inl s ↦ elim (effect-denied hash p risk d action (has_side_effect-IsListed action s) h a) [ ]
  | inr s ↦ s
]
