-- ===== src/Policy/Agreement.antt =====
-- The shipped YAML policy and the shipped Rego policy, compared on every input.
use aurelian_autonomous_ente.Prelude.{
  String, ◌≡◌, ◌↔◌, refl, ap, fun_ext, Bool, true, false, not, ◌&&◌, List, [], ◌∷◌, Option, none,
  some, ◌==◌, eq_iff, arith, lookup-eq-none, contains, all, Bool-cases, inl, inr, subst,
}
use aurelian_autonomous_ente.Result.{Result, ok, raised, ◌>>=◌}
use aurelian_autonomous_ente.Auth.Roles.{Principal}
use aurelian_autonomous_ente.Policy.Decision.{
  PolicyDecision, Rule, decide_option, local_decision, rule_of, below_minimum, decide,
}
use aurelian_autonomous_ente.Policy.Shipped.{shipped_policy}
use aurelian_autonomous_ente.Policy.Rego.{
  action_risk, RegoDecision, rego_decision, injection_side_effect, rego_rule,
}

-- The actions whose own minimum role is above that of their tier.
abbrev pub operator_reads : List String
operator_reads = "recommend_reorders" ∷ "get_customer_profile" ∷ "get_order_backlog" ∷ []

abbrev action_names : List String
action_names =
    "search_knowledge" ∷ "get_service_health" ∷ "list_inventory" ∷ "recommend_reorders"
    ∷ "get_customer_profile" ∷ "get_order_backlog" ∷ "send_notice" ∷ "restart_service"
    ∷ "change_product_price" ∷ "issue_refund" ∷ "disable_user_account" ∷ []

abbrev bool_eq : Bool → Bool → Bool
bool_eq true b = b
bool_eq false b = not b

-- The two decisions allow the same, ask for the same, and name the same tier.
abbrev pub agrees : Result PolicyDecision → RegoDecision → Bool
agrees (raised e) r = false
agrees (ok d) r =
    bool_eq d.allowed r.allowed
    && bool_eq d.requires_approval r.requires_approval
    && d.approval_tier == r.approval_tier

abbrev as_role : String → Principal
as_role role = record { sub = ""; tenant_id = ""; role = role; scopes = []; mfa = false }

abbrev pub is_exception : String → String → Bool
is_exception action role = contains action operator_reads && role == "viewer"

abbrev matches : String → String → String → String → Bool
matches hash action role input_risk =
    bool_eq
      (agrees (local_decision (shipped_policy hash) action (as_role role) "production" input_risk)
        (rego_decision action role input_risk))
      (not (is_exception action role))

abbrev role_names : List String
role_names = "viewer" ∷ "operator" ∷ "admin" ∷ "executive" ∷ []

abbrev risk_names : List String
risk_names = "low" ∷ "medium" ∷ "high" ∷ []

table :
    (hash : String)
    → all (λ a. all (λ r. all (matches hash a r) risk_names) role_names) action_names ≡ true
unfolding local_decision rule_of below_minimum decide rego_decision rego_rule injection_side_effect
table hash = refl

bool_eq_iff : (a e : Bool) → bool_eq a (not e) ≡ true → (a ≡ true) ↔ (e ≡ false)
bool_eq_iff a e h = ground arith

all-contains :
    (f : String → Bool) (xs : List String) (x : String)
    → all f xs ≡ true
    → contains x xs ≡ true
    → f x ≡ true
all-contains f [] x h m = cc
all-contains f (y ∷ ys) x h m = elim (Bool-cases (y == x)) [
  | inl same ↦ subst (λ z. f z ≡ true) ((eq_iff y x).0 same) (ground arith)
  | inr other ↦ all-contains f ys x (ground arith) (ground arith)
]

module _ (hash action : String) (p : Principal) (input_risk : String) where
  decide_by_role :
      (rule : Option Rule)
      → decide_option (shipped_policy hash) rule action p "production" input_risk
        ≡ decide_option (shipped_policy hash) rule action (as_role p.role) "production" input_risk
  unfolding decide
  decide_by_role none = refl
  decide_by_role (some rule) = refl

  by_role :
      local_decision (shipped_policy hash) action p "production" input_risk
      ≡ local_decision (shipped_policy hash) action (as_role p.role) "production" input_risk
  unfolding local_decision
  by_role =
      ap (λ (f : Option Rule → Result PolicyDecision). rule_of (shipped_policy hash) action >>= f)
        (fun_ext λ rule. ap {B = Result PolicyDecision} ok (decide_by_role rule))

  matches_known :
      contains action action_names ≡ true
      → contains p.role role_names ≡ true
      → contains input_risk risk_names ≡ true
      → matches hash action p.role input_risk ≡ true
  matches_known a r i =
      all-contains (matches hash action p.role) risk_names input_risk
        (all-contains (λ r. all (matches hash action r) risk_names) role_names p.role
          (all-contains (λ a. all (λ r. all (matches hash a r) risk_names) role_names) action_names
            action (table hash) a)
          r)
        i

  matches_unknown :
      contains action action_names ≡ false → matches hash action p.role input_risk ≡ true
  unfolding local_decision rule_of rego_decision
  matches_unknown a =
      let no_config = lookup-eq-none action (shipped_policy hash).actions a in
      let no_risk = lookup-eq-none action action_risk a in
      elim (Bool-cases (contains action operator_reads)) [
        | inl read ↦
            cc (all-contains (λ x. contains x action_names) operator_reads action refl read, a)
        | inr other ↦ rw (no_config, rule_of) (rw (no_risk, rego_decision) (rw other))
      ]

  matches_all :
      contains p.role role_names ≡ true
      → contains input_risk risk_names ≡ true
      → matches hash action p.role input_risk ≡ true
  matches_all r i = elim (Bool-cases (contains action action_names)) [
    | inl known ↦ matches_known known r i
    | inr unknown ↦ matches_unknown unknown
  ]

  -- For every registered role and every input risk that the guard can give, the local decision
  -- under policies/policy.yaml and the decision of opa/policy.rego allow the same in production,
  -- ask for the same and name the same tier, except for a viewer and one of the three reads that
  -- the YAML reserves to operators: there, and only there, they differ.
  pub local_agrees_with_rego :
      contains p.role role_names ≡ true
      → contains input_risk risk_names ≡ true
      → (agrees
            (local_decision (shipped_policy hash) action p "production" input_risk)
            (rego_decision action p.role input_risk)
          ≡ true)
        ↔ (is_exception action p.role ≡ false)
  local_agrees_with_rego r i =
      rw by_role (bool_eq_iff _ (is_exception action p.role) (matches_all r i))
