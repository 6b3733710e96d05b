-- ===== src/Policy/Decision.antt =====
-- `PolicyDecision` and `_local_decision` (app/policy.py), over a policy document.
use aurelian_autonomous_ente.Prelude.{
  String, Bool, true, false, not, ◌&&◌, List, [], ◌∷◌, Option, none, some, ◌==◌, ltb, lookup,
  get_or, contains, concat, if◌then◌else◌,
}
use aurelian_autonomous_ente.Result.{Result, ok, raised, error, ◌>>=◌}
use aurelian_autonomous_ente.Auth.Roles.{Principal, role_level}

pub record PolicyDecision : Type 0 where
  pub allowed : Bool
  pub requires_approval : Bool
  pub approval_tier : String
  pub risk : String
  pub reason : String
  pub source : String
  pub policy_fingerprint : String

-- The keys of an action and of a risk tier that the code reads.
pub record ActionConfig : Type 0 where
  pub risk : Option String
  pub minimum_role : Option String

pub record RiskTier : Type 0 where
  pub minimum_role : Option String
  pub approval : Option String

-- `POLICY`, with `constraints.get("block_side_effect_on_prompt_injection")` as its truth value.
pub record PolicyDocument : Type 0 where
  pub risk_tiers : List (String × RiskTier)
  pub actions : List (String × ActionConfig)
  pub block_side_effect_on_prompt_injection : Bool
  pub fingerprint : String

-- What the document says of an action: its risk, the role that it asks for and the approval that
-- its tier asks for.
pub record Rule : Type 0 where
  pub risk : String
  pub minimum : String
  pub approval : String

-- `d[k]`
abbrev pub or_key_error {ℓ} : {A : Type ℓ} → Option A → Result A
or_key_error none = raised (error "KeyError")
or_key_error (some a) = ok a

-- `cfg.get("minimum_role", tier["minimum_role"])` looks the tier's role up in any case.
unfoldable pub rule_of_config : PolicyDocument → ActionConfig → Result Rule
rule_of_config doc cfg = do
  let risk = get_or cfg.risk "high"
  tier ← or_key_error (lookup risk doc.risk_tiers)
  tier_role ← or_key_error tier.minimum_role
  ok (record {
    risk = risk;
    minimum = get_or cfg.minimum_role tier_role;
    approval = get_or tier.approval "none";
  })

-- A config with no key at all is false, like a missing one.
abbrev pub is_empty : ActionConfig → Bool
is_empty cfg = elim cfg.risk [
  | some _ ↦ false
  | none ↦ elim cfg.minimum_role [ none ↦ true | some _ ↦ false ]
]

unfoldable pub rule_of : PolicyDocument → String → Result (Option Rule)
unfolding rule_of_config
rule_of doc action = elim (lookup action doc.actions) [
  | none ↦ ok none
  | some cfg ↦ if is_empty cfg then ok none else (do rule ← rule_of_config doc cfg; ok (some rule))
]

-- `ROLE_LEVEL.get(role, -1) < ROLE_LEVEL.get(minimum, 99)`: -1 is below every level.
unfoldable pub below_minimum : String → String → Bool
below_minimum role minimum = elim (lookup role role_level) [
  | none ↦ true
  | some level ↦ ltb level (get_or (lookup minimum role_level) 99)
]

-- `risk in {"medium","high"}`
abbrev pub is_elevated : String → Bool
is_elevated risk = contains risk ("medium" ∷ "high" ∷ [])

module _ (doc : PolicyDocument) where
  abbrev pub local_deny : String → String → PolicyDecision
  local_deny risk reason = record {
    allowed = false;
    requires_approval = false;
    approval_tier = "none";
    risk = risk;
    reason = reason;
    source = "local-yaml";
    policy_fingerprint = doc.fingerprint;
  }

  abbrev pub local_ask : String → String → String → PolicyDecision
  local_ask tier risk reason = record {
    allowed = false;
    requires_approval = true;
    approval_tier = tier;
    risk = risk;
    reason = reason;
    source = "local-yaml";
    policy_fingerprint = doc.fingerprint;
  }

  abbrev pub local_allow : String → PolicyDecision
  local_allow risk = record {
    allowed = true;
    requires_approval = false;
    approval_tier = "none";
    risk = risk;
    reason = "Declarative policy permits immediate execution.";
    source = "local-yaml";
    policy_fingerprint = doc.fingerprint;
  }

  -- The tests on a rule, in the code's order.
  unfoldable pub decide : Rule → String → Principal → String → String → PolicyDecision
  decide rule action p environment input_risk =
      if below_minimum p.role rule.minimum
      then local_deny rule.risk
          (concat (action ∷ " requires " ∷ rule.minimum ∷ "; requester is " ∷ p.role ∷ "." ∷ []))
      else if is_elevated input_risk
          && is_elevated rule.risk
          && doc.block_side_effect_on_prompt_injection
      then local_deny rule.risk
          "Potential prompt-injection indicators detected; side-effecting execution is blocked."
      else if environment == "production" && is_elevated rule.risk
      then local_ask rule.approval rule.risk (
          concat
            (rule.risk ∷ "-risk production action requires " ∷ rule.approval ∷ " approval." ∷ []))
      else if not (rule.approval == "none")
      then local_ask rule.approval rule.risk
          (concat (rule.risk ∷ "-risk action requires " ∷ rule.approval ∷ " approval." ∷ []))
      else local_allow rule.risk

  abbrev pub decide_option : Option Rule → String → Principal → String → String → PolicyDecision
  decide_option none action p environment input_risk =
      local_deny "unknown" "Action is not registered in policy."
  decide_option (some rule) action p environment input_risk =
      decide rule action p environment input_risk

  unfoldable pub local_decision : String → Principal → String → String → Result PolicyDecision
  local_decision action p environment input_risk = do
    rule ← rule_of doc action
    ok (decide_option rule action p environment input_risk)
