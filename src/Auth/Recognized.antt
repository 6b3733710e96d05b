-- ===== src/Auth/Recognized.antt =====
-- What a token must hold before any principal comes of it.
use aurelian_autonomous_ente.Prelude.{
  String, ◌≡◌, ◌≢◌, refl, true, some, ◌==◌, not, ◌||◌, get_or, eq_iff, arith, inl, inr, Bool-cases,
}
use aurelian_autonomous_ente.Json.{Value, Fields, py_str, str, get}
use aurelian_autonomous_ente.Result.{Ensures, Ensures-bind, Result, ok, raised, ◌>>=◌}
use aurelian_autonomous_ente.Auth.Roles.{Principal}
use aurelian_autonomous_ente.Auth.Claims.{
  Context, principal, principal_of, is_role, checked_principal, keep_context, role_claim, scopes_of,
  mfa_of, tenant_claim, claimed,
}

-- What `_principal` promises of its answer: a registered role, a tenant, and the context set to
-- it; a refusal leaves the context alone.
abbrev pub IsRecognized : Context → Result Principal × Context → Type 0
IsRecognized c (ok p, c') = (is_role p.role ≡ true) × (p.tenant_id ≢ "") × (c' ≡ some p.tenant_id)
IsRecognized c (raised e, c') = c' ≡ c

abbrev HasClaims : Principal → Type 0
HasClaims p = (is_role p.role ≡ true) × (p.tenant_id ≢ "")

module _ (repr : Value → String) where
  checked_principal-HasClaims :
      (payload : Fields) (role tenant : String)
      → Ensures HasClaims (checked_principal repr payload role tenant)
  unfolding checked_principal
  checked_principal-HasClaims payload role tenant =
      elim (Bool-cases (not (is_role role) || tenant == "")) [
        | inl refused ↦ rw refused tt
        | inr fine ↦ rw fine (
            Ensures-bind HasClaims (scopes_of (get_or (get "scope" payload) (str "")))
              (λ scopes. mfa_of payload >>= λ mfa. ok (claimed repr payload role tenant scopes mfa))
              λ scopes _.
                Ensures-bind HasClaims (mfa_of payload)
                  (λ mfa. ok (claimed repr payload role tenant scopes mfa))
                  λ mfa _. (ground arith, ground (arith, eq_iff tenant "")))
      ]

  principal_of-HasClaims : (payload : Fields) → Ensures HasClaims (principal_of repr payload)
  unfolding principal_of
  principal_of-HasClaims payload =
      Ensures-bind HasClaims (role_claim payload) _
        λ role _. checked_principal-HasClaims payload (py_str repr role) (tenant_claim repr payload)

  keep_context-IsRecognized :
      (r : Result Principal) (c : Context)
      → Ensures HasClaims r
      → IsRecognized c (keep_context repr r c)
  keep_context-IsRecognized (ok p) c h = (h.0, h.1, refl)
  keep_context-IsRecognized (raised e) c h = refl

  -- Whatever the claims, `_principal` either returns a principal with a registered role and a
  -- tenant that is not empty and makes that tenant the context, or it raises and leaves the context.
  pub principal-IsRecognized :
      (payload : Fields) (c : Context) → IsRecognized c (principal repr payload c)
  unfolding principal
  principal-IsRecognized payload c =
      keep_context-IsRecognized (principal_of repr payload) c (principal_of-HasClaims payload)
