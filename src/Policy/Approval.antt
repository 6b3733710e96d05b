-- ===== src/Policy/Approval.antt =====
-- Who may approve, and what is left while the policy engine does not answer.
use aurelian_autonomous_ente.Prelude.{
  String, ◌≡◌, ◌≢◌, ◌↔◌, ◌⊎◌, refl, subst, true, false, ◌==◌, eq_iff, arith,
}
use aurelian_autonomous_ente.Result.{Exception, ok, raised, ok_injective, bind-eq-ok}
use aurelian_autonomous_ente.Auth.Roles.{Principal, has_scope}
use aurelian_autonomous_ente.Policy.Decision.{PolicyDecision, PolicyDocument, local_decision}
use aurelian_autonomous_ente.Policy.Evaluate.{
  OpaInput, OpaSettings, sorted, evaluate, approval_authorized,
}

-- What a tier asks of the reviewer.
abbrev pub MayApprove : PolicyDecision → Principal → Type 0
MayApprove d p =
    (d.requires_approval ≡ true)
    × (((d.approval_tier ≡ "team") × (has_scope "approve:team" p ≡ true))
        ⊎ ((d.approval_tier ≡ "executive_mfa")
            × (has_scope "approve:executive" p ≡ true)
            × (p.mfa ≡ true)))

-- A reviewer is authorized exactly when the decision asks for an approval, and its tier is the
-- team's and the reviewer has the team scope, or its tier is the executive's and the reviewer has
-- the executive scope and MFA. No other tier is ever authorized.
pub approval_authorized_iff :
    (d : PolicyDecision) (p : Principal) → ((approval_authorized d p).0 ≡ true) ↔ MayApprove d p
unfolding approval_authorized
approval_authorized_iff d p = (
  ground (arith, eq_iff d.approval_tier "team", eq_iff d.approval_tier "executive_mfa"),
  ground (
    arith,
    eq_iff d.approval_tier "team",
    eq_iff d.approval_tier "executive_mfa",
    eq_iff "executive_mfa" "team",
  ),
)

module _ (opa : OpaSettings) (doc : PolicyDocument) (action environment input_risk : String) where
  -- With a policy engine configured that fails on every query, whatever the local rules say, a
  -- decision that comes back allows nothing, holds nothing for approval and authorizes no reviewer.
  pub evaluate_fail_closed :
      (p reviewer : Principal) (e : Exception) (d : PolicyDecision)
      → opa.opa_url ≢ ""
      → ((input : OpaInput) → opa.query input ≡ raised e)
      → evaluate opa doc action p environment input_risk ≡ ok d
      → (d.allowed ≡ false)
        × (d.requires_approval ≡ false)
        × ((approval_authorized d reviewer).0 ≡ false)
  unfolding evaluate approval_authorized
  evaluate_fail_closed p reviewer e d url down h =
      let (local, _, rest) = bind-eq-ok (local_decision doc action p environment input_risk) _ h in
      let no_url : (opa.opa_url == "") ≡ false = ground (arith, eq_iff opa.opa_url "") in
      let asked = rw no_url at rest in
      let (scopes, _, made) = bind-eq-ok (sorted p.scopes) _ asked in
      let closed = ok_injective (rw down at made) in
      subst
        (λ x.
          (x.allowed ≡ false)
          × (x.requires_approval ≡ false)
          × ((unfold approval_authorized in (approval_authorized x reviewer).0) ≡ false))
        closed (refl, refl, refl)
