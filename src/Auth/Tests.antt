-- ===== src/Auth/Tests.antt =====
-- Concrete tokens.
use aurelian_autonomous_ente.Prelude.{
  String, ◌≡◌, refl, sym, ap, true, false, some, none, [], ◌∷◌, arith, eq_iff,
}
use aurelian_autonomous_ente.Auth.Demo.{Jwt, JwtSettings, demo_claims, create_demo_token}
use aurelian_autonomous_ente.Auth.Bearer.{current_principal}
use aurelian_autonomous_ente.Auth.Tokens.{
  IsAnswer, current_principal-IsAnswer, current_principal-create_demo_token,
}
use aurelian_autonomous_ente.Auth.Recognized.{IsRecognized, principal-IsRecognized}
use aurelian_autonomous_ente.Json.{Value, Fields, str, list, cons, nil, field, end}
use aurelian_autonomous_ente.Result.{Result, ok, ok_injective, raised, http_exception}
use aurelian_autonomous_ente.Auth.Claims.{principal, principal_of, split}

split_scopes : split " read  operate" ≡ "read" ∷ "operate" ∷ []
unfolding split
split_scopes = refl

abbrev print : Value → String
print v = "?"

abbrev viewer_claims : Fields
viewer_claims = field "tid" (str "northstar") (field "amr" (list (cons (str "mfa") nil)) end)

principal_default_role :
    principal_of print viewer_claims
    ≡ ok (record {
      sub = "unknown";
      tenant_id = "northstar";
      role = "viewer";
      scopes = [];
      mfa = true;
    })
unfolding principal_of
principal_default_role = refl

-- A token library that keeps the claims and the secret: it meets the law.
abbrev kept_token : Jwt
kept_token = record {
  Token = Fields × String;
  encode = λ claims secret. ok (claims, secret);
  decode = λ token secret audience issuer now. ok token.0;
  decode-encode =
      λ claims token secret audience issuer now issued expires sub m p s n j a i t e f h k.
        ap (λ t. ok t.0) (sym (ok_injective m));
}

abbrev demo_settings : JwtSettings
demo_settings = record {
  jwt_secret = "s";
  jwt_audience = "aurelian-ops";
  jwt_issuer = "aurelian-demo";
}

abbrev meridian_token : Fields × String
meridian_token = (
  demo_claims demo_settings 100 "a" "meridian" "admin" ("read" ∷ "operate" ∷ "approve:team" ∷ [])
      false,
  "s",
)

abbrev no_oidc : Fields × String → Result Fields
no_oidc t = raised (http_exception 401 "oidc")

current_principal-create_demo_token_example :
    current_principal print kept_token no_oidc "" demo_settings 200 (some meridian_token) none ≡ (
      ok (record {
        sub = "a";
        tenant_id = "meridian";
        role = "admin";
        scopes = str "read" ∷ str "operate" ∷ str "approve:team" ∷ [];
        mfa = false;
      }),
      some "meridian",
    )
current_principal-create_demo_token_example =
    current_principal-create_demo_token print kept_token no_oidc demo_settings 100 200 "a"
      "meridian" "admin" false none ("read" ∷ "operate" ∷ "approve:team" ∷ []) meridian_token refl
      (ground (arith, eq_iff "meridian" "")) (ground (arith, eq_iff "aurelian-ops" ""))
      (omega arith) (omega arith) (unfold create_demo_token in refl)

current_principal-IsAnswer_example :
    IsAnswer print kept_token no_oidc "" demo_settings 200
      (some meridian_token)
      none
      (current_principal print kept_token no_oidc "" demo_settings 200 (some meridian_token) none)
current_principal-IsAnswer_example =
    current_principal-IsAnswer print kept_token no_oidc "" demo_settings 200 (some meridian_token)
      none

principal-IsRecognized_example : IsRecognized none (principal print viewer_claims none)
principal-IsRecognized_example = principal-IsRecognized print viewer_claims none
