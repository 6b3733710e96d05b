-- ===== src/Auth/Tokens.antt =====
-- Which principals bearer tokens lead to, and the round trip of a demo token.
use aurelian_autonomous_ente.Prelude.{
  ℕ, ◌+◌, ◌≤◌, ◌<◌, String, ◌≡◌, ◌≢◌, refl, Bool, false, Option, none, some, ◌==◌, eq_iff, arith,
  ◌⊎◌, inl, inr, lookup, map, List, [], ◌∷◌, concat,
}
use aurelian_autonomous_ente.Json.{Value, Fields, str}
use aurelian_autonomous_ente.Result.{Exception, Result, ok, raised, http_exception, error}
use aurelian_autonomous_ente.Auth.Roles.{Principal}
use aurelian_autonomous_ente.Auth.Claims.{Context, principal, principal_of, keep_context}
use aurelian_autonomous_ente.Auth.Demo.{
  Jwt, JwtSettings, demo_scopes, demo_claims, create_demo_token,
}
use aurelian_autonomous_ente.Auth.Bearer.{
  current_principal, decode_token, as_unauthorized, principal_of_result, handle_failure,
}

module _ (repr : Value → String) (jwt : Jwt) (decode_oidc : jwt.Token → Result Fields) where
  -- An HTTP error is answered as it is, and any other exception by a 401 that names its type.
  abbrev pub IsAnswerTo : Exception → Exception → Type 0
  IsAnswerTo (http_exception status detail) e = e ≡ http_exception status detail
  IsAnswerTo (error name) e = e ≡ http_exception 401 (concat ("Invalid bearer token: " ∷ name ∷ []))

  as_unauthorized-IsAnswerTo : (x : Exception) → IsAnswerTo x (as_unauthorized x)
  unfolding as_unauthorized
  as_unauthorized-IsAnswerTo (http_exception status detail) = refl
  as_unauthorized-IsAnswerTo (error name) = refl

  -- Why a token is refused, and how that is answered: there is none, it does not decode, or
  -- `_principal` does not accept its claims.
  abbrev pub IsRefused : String → JwtSettings → ℕ → Option jwt.Token → Exception → Type 0
  IsRefused issuer s now none e = e ≡ http_exception 401 "Bearer token required"
  IsRefused issuer s now (some t) e =
      (x : Exception) × IsAnswerTo x e
      × ((decode_token repr jwt decode_oidc issuer s now t ≡ raised x)
          ⊎ ((payload : Fields) × (decode_token repr jwt decode_oidc issuer s now t ≡ ok payload)
              × (principal_of repr payload ≡ raised x)))

  -- A principal comes of a token that decodes to claims that `_principal` accepts.
  abbrev pub IsAnswer :
      String → JwtSettings → ℕ → Option jwt.Token → Context → Result Principal × Context → Type 0
  IsAnswer issuer s now token c (ok p, c') =
      (t : jwt.Token) × (payload : Fields) × (token ≡ some t)
      × (decode_token repr jwt decode_oidc issuer s now t ≡ ok payload)
      × (principal_of repr payload ≡ ok p)
      × (c' ≡ some p.tenant_id)
  IsAnswer issuer s now token c (raised e, c') = (c' ≡ c) × IsRefused issuer s now token e

  module _ (issuer : String) (s : JwtSettings) (now : ℕ) (t : jwt.Token) (c : Context) where
    principal-IsAnswer :
        (payload : Fields) (r : Result Principal)
        → decode_token repr jwt decode_oidc issuer s now t ≡ ok payload
        → principal_of repr payload ≡ r
        → IsAnswer issuer s now
            (some t)
            c
            (let (r', c') = keep_context repr r c in (handle_failure r', c'))
    principal-IsAnswer payload (ok p) d e = (t, payload, refl, d, e, refl)
    principal-IsAnswer payload (raised x) d e =
        (refl, (x, as_unauthorized-IsAnswerTo x, inr (payload, d, e)))

    result-IsAnswer :
        (r : Result Fields)
        → decode_token repr jwt decode_oidc issuer s now t ≡ r
        → IsAnswer issuer s now
            (some t)
            c
            (let (r', c') = principal_of_result repr jwt decode_oidc r c in (handle_failure r', c'))
    unfolding principal
    result-IsAnswer (ok payload) d = principal-IsAnswer payload (principal_of repr payload) d refl
    result-IsAnswer (raised x) d = (refl, (x, as_unauthorized-IsAnswerTo x, inl d))

  -- A bearer token leads to a principal only if it decodes to claims that `_principal` accepts, and
  -- then the principal's tenant is the context. A refusal leaves the context alone. Without a token it
  -- is a 401; with one, the token did not decode or `_principal` refused its claims, and the answer is
  -- the HTTP error that was raised there, or a 401 that names the type of any other exception.
  pub current_principal-IsAnswer :
      (issuer : String) (s : JwtSettings) (now : ℕ) (token : Option jwt.Token) (c : Context)
      → IsAnswer issuer s now token c (current_principal repr jwt decode_oidc issuer s now token c)
  unfolding current_principal
  current_principal-IsAnswer issuer s now none c = (refl, refl)
  current_principal-IsAnswer issuer s now (some t) c =
      result-IsAnswer issuer s now t c (decode_token repr jwt decode_oidc issuer s now t) refl

  demo_scopes-cases :
      (role : String) (scopes : List String)
      → lookup role demo_scopes ≡ some scopes
      → ((role ≡ "viewer") × (scopes ≡ "read" ∷ []))
        ⊎ ((role ≡ "operator") × (scopes ≡ "read" ∷ "operate" ∷ []))
        ⊎ ((role ≡ "admin") × (scopes ≡ "read" ∷ "operate" ∷ "approve:team" ∷ []))
        ⊎ ((role ≡ "executive")
            × (scopes ≡ "read" ∷ "operate" ∷ "approve:team" ∷ "approve:executive" ∷ []))
  demo_scopes-cases role scopes h = ground (
    arith,
    eq_iff "viewer" role,
    eq_iff "operator" role,
    eq_iff "admin" role,
    eq_iff "executive" role,
  )

  claims_accepted :
      (s : JwtSettings) (now : ℕ) (sub tenant role : String) (scopes : List String) (mfa : Bool)
      → lookup role demo_scopes ≡ some scopes
      → (tenant == "") ≡ false
      → principal_of repr (demo_claims s now sub tenant role scopes mfa)
        ≡ ok (record {
          sub = sub;
          tenant_id = tenant;
          role = role;
          scopes = map str scopes;
          mfa = mfa;
        })
  unfolding principal_of
  claims_accepted s now sub tenant role scopes mfa h e = elim (demo_scopes-cases role scopes h) [
    | inl (r, q) ↦ rw (r, q) (ground arith)
    | inr (inl (r, q)) ↦ rw (r, q) (ground arith)
    | inr (inr (inl (r, q))) ↦ rw (r, q) (ground arith)
    | inr (inr (inr (r, q))) ↦ rw (r, q) (ground arith)
  ]

  -- A demo token made for a registered role and a tenant, presented within the hour, gives the
  -- principal it was made for: the same subject, tenant, role and MFA flag, the role's scopes, and
  -- the tenant as the context.
  pub current_principal-create_demo_token :
      (s : JwtSettings) (now later : ℕ) (sub tenant role : String) (mfa : Bool) (c : Context)
      (scopes : List String) (token : jwt.Token)
      → lookup role demo_scopes ≡ some scopes
      → tenant ≢ ""
      → s.jwt_audience ≢ ""
      → now ≤ later
      → later < now + 3600
      → create_demo_token jwt s now sub tenant role mfa ≡ ok token
      → current_principal repr jwt decode_oidc "" s later (some token) c ≡ (
        ok (record {
          sub = sub;
          tenant_id = tenant;
          role = role;
          scopes = map str scopes;
          mfa = mfa;
        }),
        some tenant,
      )
  unfolding current_principal create_demo_token principal
  current_principal-create_demo_token s now later sub tenant role mfa c scopes token h t present a b
        made =
      let claims : Fields = demo_claims s now sub tenant role scopes mfa in
      let issued : jwt.encode claims s.jwt_secret ≡ ok token = rw h at made in
      let decoded : jwt.decode token s.jwt_secret s.jwt_audience s.jwt_issuer later ≡ ok claims =
        jwt.decode-encode claims token s.jwt_secret s.jwt_audience s.jwt_issuer later now
          (now + 3600) sub issued refl refl refl refl refl refl refl refl present a b in
      rw decoded
        (rw (claims_accepted s now sub tenant role scopes mfa h (ground (arith, eq_iff tenant ""))))
