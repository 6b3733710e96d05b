-- ===== src/Policy/Gate.antt =====
-- What the local rules let through in production, and that they always decide.
use aurelian_autonomous_ente.Prelude.{
  String, ◌≡◌, ◌≢◌, ◌↔◌, ◌⊎◌, inl, inr, refl, subst, Bool, true, false, ◌&&◌, List, [], ◌∷◌, Option,
  none, some, ◌==◌, eq_iff, arith, lookup, All, Bool-cases,
}
use aurelian_autonomous_ente.Result.{ok, ok_injective}
use aurelian_autonomous_ente.Auth.Roles.{Principal}
use aurelian_autonomous_ente.Policy.Decision.{
  PolicyDecision, PolicyDocument, ActionConfig, Rule, rule_of, rule_of_config, below_minimum,
  is_elevated, is_empty, decide, local_decision, decide_option,
}
use aurelian_autonomous_ente.Policy.Shipped.{shipped_policy}

-- The injection block of the document applies to this input and this rule.
abbrev pub is_blocked : PolicyDocument → Rule → String → Bool
is_blocked doc rule input_risk =
    is_elevated input_risk && is_elevated rule.risk && doc.block_side_effect_on_prompt_injection

module _ (doc : PolicyDocument) (action : String) (p : Principal) (input_risk : String) where
  -- What `production_gate` says of a decision.
  abbrev pub IsGated : Rule → PolicyDecision → Type 0
  IsGated rule d =
      ((d.allowed ≡ true) ↔ (
        (below_minimum p.role rule.minimum ≡ false)
        × (is_elevated rule.risk ≡ false)
        × (rule.approval ≡ "none")))
      × ((d.requires_approval ≡ true) ↔ (
          (below_minimum p.role rule.minimum ≡ false)
          × (is_blocked doc rule input_risk ≡ false)
          × ((is_elevated rule.risk ≡ true) ⊎ (rule.approval ≢ "none"))
          × (d.approval_tier ≡ rule.approval)))

  decide-IsGated : (rule : Rule) → IsGated rule (decide doc rule action p "production" input_risk)
  unfolding decide
  decide-IsGated rule = (
    (ground (arith, eq_iff rule.approval "none"), ground (arith, eq_iff rule.approval "none")),
    (ground (arith, eq_iff rule.approval "none"), ground (arith, eq_iff rule.approval "none")),
  )

  -- In production, an action with a rule runs at once exactly when the requester's role is high
  -- enough, its risk is neither medium nor high and its tier asks for no approval. It is held for
  -- approval exactly when the role is high enough, the injection block does not apply, and its risk
  -- is medium or high or its tier asks for an approval; the decision then names that approval.
  pub production_gate :
      (rule : Rule) (d : PolicyDecision)
      → rule_of doc action ≡ ok (some rule)
      → local_decision doc action p "production" input_risk ≡ ok d
      → IsGated rule d
  unfolding local_decision
  production_gate rule d h e = subst (IsGated rule) (ok_injective (rw h at e)) (decide-IsGated rule)

module _ (doc : PolicyDocument) where
  -- The document can be read: no action's entry raises.
  abbrev pub IsReadable : Type 0
  IsReadable = All (λ entry. (rule : Rule) × (rule_of_config doc entry.1 ≡ ok rule)) doc.actions

  abbrev Decided : Option ActionConfig → Type 0
  Decided none = Unit
  Decided (some cfg) = (rule : Rule) × (rule_of_config doc cfg ≡ ok rule)

  lookup-Decided :
      (action : String) (l : List (String × ActionConfig))
      → All (λ entry. (rule : Rule) × (rule_of_config doc entry.1 ≡ ok rule)) l
      → Decided (lookup action l)
  lookup-Decided action [] h = tt
  lookup-Decided action ((j, cfg) ∷ l) h = elim (Bool-cases (j == action)) [
    | inl same ↦ rw same h.0
    | inr other ↦ rw other (lookup-Decided action l h.1)
  ]

  rule_of_found :
      (action : String) (o : Option ActionConfig)
      → lookup action doc.actions ≡ o
      → Decided o
      → (r : Option Rule) × (rule_of doc action ≡ ok r)
  unfolding rule_of
  rule_of_found action none e x = (none, rw (e, rule_of))
  rule_of_found action (some cfg) e (rule, r) = elim (Bool-cases (is_empty cfg)) [
    | inl empty ↦ (none, rw (e, rule_of) (rw empty))
    | inr full ↦ (some rule, rw (e, rule_of) (rw (full, r)))
  ]

  -- A document that can be read gives a decision for every action, requester and input.
  pub local_decision_total :
      (action : String) (p : Principal) (environment input_risk : String)
      → IsReadable
      → (d : PolicyDecision) × (local_decision doc action p environment input_risk ≡ ok d)
  unfolding local_decision
  local_decision_total action p environment input_risk h =
      let (r, e) =
        rule_of_found action (lookup action doc.actions) refl
          (lookup-Decided action doc.actions h) in
      (decide_option doc r action p environment input_risk, rw e)

-- Every entry of policies/policy.yaml can be read.
pub shipped-IsReadable : (hash : String) → IsReadable (shipped_policy hash)
unfolding rule_of_config
shipped-IsReadable hash = (
  (_, refl),
  (
    (_, refl),
    (
      (_, refl),
      (
        (_, refl),
        (
          (_, refl),
          ((_, refl), ((_, refl), ((_, refl), ((_, refl), ((_, refl), ((_, refl), tt)))))),
        ),
      ),
    ),
  ),
)
