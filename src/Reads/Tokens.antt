-- ===== src/Reads/Tokens.antt =====
-- `demo_token` and `me` of app/main.py. The first exists only in a public demo.
use aurelian_autonomous_ente.Prelude.{
  ℕ, ◌+◌, ◌≤◌, ◌<◌, String, ◌≡◌, ◌≢◌, inl, inr, refl, ap, subst, Bool, true, not, List, [], ◌∷◌,
  map, some, contains, lookup, concat, if◌then◌else◌, Bool-cases, Option-cases,
}
use aurelian_autonomous_ente.Json.{Value, Fields, str}
use aurelian_autonomous_ente.Result.{
  Result, ok, raised, http_exception, ◌>>=◌, bind-eq-ok, ok_injective,
}
use aurelian_autonomous_ente.Auth.Roles.{Principal}
use aurelian_autonomous_ente.Auth.Claims.{Context}
use aurelian_autonomous_ente.Auth.Demo.{Jwt, JwtSettings, demo_scopes, create_demo_token}
use aurelian_autonomous_ente.Auth.Bearer.{current_principal}
use aurelian_autonomous_ente.Auth.Tokens.{current_principal-create_demo_token}

module _ (jwt : Jwt) where
  pub record DemoReply : Type 0 where
    pub access_token : jwt.Token
    pub role : String
    pub tenant_id : String
    pub mfa : Bool

  abbrev pub demo_roles : List String
  demo_roles = "viewer" ∷ "operator" ∷ "executive" ∷ []

  abbrev pub demo_tenants : List String
  demo_tenants = "meridian" ∷ "northstar" ∷ []

  abbrev pub demo_subject : String → String → String
  demo_subject role tenant = concat (role ∷ ".demo@" ∷ tenant ∷ ".demo" ∷ [])

  abbrev pub reply_with : String → String → Bool → jwt.Token → Result DemoReply
  reply_with role tenant mfa token =
      ok (record { access_token = token; role = role; tenant_id = tenant; mfa = mfa })

  unfoldable pub demo_token : JwtSettings → ℕ → String → String → Bool → Result DemoReply
  demo_token s now role tenant mfa =
      if not (contains role demo_roles)
      then raised (http_exception 400 "invalid public demo role")
      else if not (contains tenant demo_tenants)
      then raised (http_exception 400 "unknown demo tenant")
      else create_demo_token jwt s now (demo_subject role tenant) tenant role mfa
        >>= reply_with role tenant mfa

  registered_role :
      (s : JwtSettings) (now : ℕ) (sub tenant role : String) (mfa : Bool) (token : jwt.Token)
      → create_demo_token jwt s now sub tenant role mfa ≡ ok token
      → (scopes : List String) × (lookup role demo_scopes ≡ some scopes)
  unfolding create_demo_token
  registered_role s now sub tenant role mfa token h =
      elim (Option-cases (lookup role demo_scopes)) [
        | inl absent ↦ cc (rw absent at h)
        | inr (scopes, found) ↦ (scopes, found)
      ]

  named_tenant : (tenant : String) → contains tenant demo_tenants ≡ true → tenant ≢ ""
  named_tenant tenant h e =
      let empty : contains "" demo_tenants ≡ true =
        subst (λ t. contains t demo_tenants ≡ true) e h in
      cc

  module _ (repr : Value → String) (decode_oidc : jwt.Token → Result Fields) (s : JwtSettings) where
    -- The principal is of the role, the tenant and the flag that were asked for, which the demo gives
    -- out.
    abbrev pub IsDemoPrincipal : String → String → Bool → Principal → Type 0
    IsDemoPrincipal role tenant mfa p =
        (p.role ≡ role)
        × (p.tenant_id ≡ tenant)
        × (p.mfa ≡ mfa)
        × (contains role demo_roles ≡ true)
        × (contains tenant demo_tenants ≡ true)

    -- A token that the public demo hands out, presented within the hour where no OIDC issuer is
    -- and some audience is configured, makes its bearer a principal of the role, the tenant and the MFA flag that were asked
    -- for, and the demo hands out none but for a viewer, an operator or an executive of one of its two
    -- tenants.
    pub demo_token-IsDemoPrincipal :
        (now later : ℕ) (role tenant : String) (mfa : Bool) (c : Context) (reply : DemoReply)
        → s.jwt_audience ≢ ""
        → now ≤ later
        → later < now + 3600
        → demo_token s now role tenant mfa ≡ ok reply
        → (p : Principal) × (current_principal repr jwt decode_oidc "" s later
              (some reply.access_token)
              c
            ≡ (ok p, some tenant))
          × IsDemoPrincipal role tenant mfa p
    unfolding demo_token
    demo_token-IsDemoPrincipal now later role tenant mfa c reply audience a b made =
        elim (Bool-cases (contains role demo_roles)) [
          | inr unknown ↦ cc (rw unknown at made)
          | inl known ↦ elim (Bool-cases (contains tenant demo_tenants)) [
            | inr unknown ↦ cc (rw (known, unknown) at made)
            | inl served ↦
                let sub = demo_subject role tenant in
                let (token, issued, given) =
                  bind-eq-ok (create_demo_token jwt s now sub tenant role mfa)
                    (reply_with role tenant mfa) (rw (known, served) at made) in
                let (scopes, found) = registered_role s now sub tenant role mfa token issued in
                let same : token ≡ reply.access_token =
                  ap (λ (r : DemoReply). r.access_token) (ok_injective given) in
                let p : Principal = record {
                  sub = sub;
                  tenant_id = tenant;
                  role = role;
                  scopes = map str scopes;
                  mfa = mfa;
                } in
                (
                  p,
                  subst
                      (λ t.
                        current_principal repr jwt decode_oidc "" s later (some t) c
                        ≡ (ok p, some tenant))
                      same
                      (current_principal-create_demo_token repr jwt decode_oidc s now later sub
                        tenant role mfa c scopes token found (named_tenant tenant served) audience a
                        b issued),
                  (refl, refl, refl, known, served),
                )
          ]
        ]

-- `me`, over Python's `sorted` of the scopes
unfoldable pub me : (List Value → List Value) → Principal → Principal
me sorted p = record p { scopes = sorted p.scopes }
