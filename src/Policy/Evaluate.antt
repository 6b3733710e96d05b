-- ===== src/Policy/Evaluate.antt =====
-- `evaluate` and `approval_authorized` (app/policy.py). What the Open Policy Agent answers to a
-- query is a parameter: its JSON result, or the exception of a call that failed.
use aurelian_autonomous_ente.Prelude.{
  String, Bool, true, false, not, ◌&&◌, List, [], ◌∷◌, ◌||◌, all, ◌==◌, concat, get_or,
  if◌then◌else◌,
}
use aurelian_autonomous_ente.Json.{
  Value, Fields, null, bool, nat, negative, float, str, get, get_null, truthy, py_str,
}
use aurelian_autonomous_ente.Result.{Exception, Result, ok, raised, error, type_name, ◌>>=◌}
use aurelian_autonomous_ente.Auth.Roles.{Principal, has_scope}
use aurelian_autonomous_ente.Policy.Decision.{PolicyDecision, PolicyDocument, local_decision}

-- `payload["input"]`; the scopes are sorted.
pub record OpaInput : Type 0 where
  pub action : String
  pub role : String
  pub scopes : List Value
  pub mfa : Bool
  pub environment : String
  pub input_risk : String

abbrev is_str : Value → Bool
is_str (str s) = true
is_str v = false

abbrev is_number : Value → Bool
is_number (bool b) = true
is_number (nat n) = true
is_number (negative n) = true
is_number (float w) = true
is_number v = false

abbrev is_null : Value → Bool
is_null null = true
is_null v = false

-- `sorted(scopes)` raises unless its items can be compared with one another. The order of the
-- items, which only the text of the query shows, is left to the function that answers it.
unfoldable pub sorted : List Value → Result (List Value)
sorted vs =
    if all is_str vs || (all is_number vs || all is_null vs)
    then ok vs
    else raised (error "TypeError")

pub record OpaSettings : Type 0 where
  pub opa_url : String
  pub opa_fingerprint : String
  -- `r.json().get("result", {})` of the reply
  pub query : OpaInput → Result Fields
  -- Python's print of numbers, lists and dicts
  pub repr : Value → String

module _ (opa : OpaSettings) where
  abbrev pub opa_decision : Fields → PolicyDecision
  opa_decision d = record {
    allowed = truthy (get_null "allowed" d);
    requires_approval = truthy (get_null "requires_approval" d);
    approval_tier = py_str opa.repr (get_or (get "approval_tier" d) (str "none"));
    risk = py_str opa.repr (get_or (get "risk" d) (str "unknown"));
    reason = py_str opa.repr (get_or (get "reason" d) (str "OPA decision"));
    source = "opa";
    policy_fingerprint = opa.opa_fingerprint;
  }

  abbrev pub fail_closed : String → Exception → PolicyDecision
  fail_closed local_risk e = record {
    allowed = false;
    requires_approval = false;
    approval_tier = "none";
    risk = local_risk;
    reason = concat ("OPA unavailable; fail-closed (" ∷ type_name e ∷ ")." ∷ []);
    source = "opa-fail-closed";
    policy_fingerprint = opa.opa_fingerprint;
  }

  abbrev pub opa_or_closed : String → Result Fields → PolicyDecision
  opa_or_closed local_risk (ok d) = opa_decision d
  opa_or_closed local_risk (raised e) = fail_closed local_risk e

  unfoldable pub evaluate :
      PolicyDocument → String → Principal → String → String → Result PolicyDecision
  evaluate doc action p environment input_risk = do
    local ← local_decision doc action p environment input_risk
    if opa.opa_url == "" then ok local else do
      scopes ← sorted p.scopes
      let input : OpaInput = record {
        action = action;
        role = p.role;
        scopes = scopes;
        mfa = p.mfa;
        environment = environment;
        input_risk = input_risk;
      }
      ok (opa_or_closed local.risk (opa.query input))

unfoldable pub approval_authorized : PolicyDecision → Principal → Bool × String
approval_authorized d p =
    if not d.requires_approval
    then (false, "Current policy no longer permits an approval-mediated execution.")
    else if d.approval_tier == "team"
    then (has_scope "approve:team" p, "team approval scope required")
    else if d.approval_tier == "executive_mfa"
    then (has_scope "approve:executive" p && p.mfa, "executive scope + MFA required")
    else (false, "Unknown approval tier")
