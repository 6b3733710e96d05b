-- ===== src/Auth/Bearer.antt =====
-- `current_principal` and the cached discovery of the key set (app/auth.py).
use aurelian_autonomous_ente.Prelude.{
  ℕ, String, not, Option, none, some, ◌==◌, concat, [], ◌∷◌, if◌then◌else◌,
}
use aurelian_autonomous_ente.Json.{Value, Fields}
use aurelian_autonomous_ente.Result.{Exception, Result, ok, raised, http_exception, error}
use aurelian_autonomous_ente.Auth.Roles.{Principal}
use aurelian_autonomous_ente.Auth.Claims.{Context, principal}
use aurelian_autonomous_ente.Auth.Demo.{Jwt, JwtSettings}

-- `except HTTPException: raise` and `except Exception: raise HTTPException(401, ...)`
unfoldable pub as_unauthorized : Exception → Exception
as_unauthorized (http_exception status detail) = http_exception status detail
as_unauthorized (error name) = http_exception 401 (concat ("Invalid bearer token: " ∷ name ∷ []))

abbrev pub handle_failure : {A : Type 0} → Result A → Result A
handle_failure (ok a) = ok a
handle_failure (raised e) = raised (as_unauthorized e)

module _ (repr : Value → String) (jwt : Jwt) (decode_oidc : jwt.Token → Result Fields) where
  -- Which decoder runs is a matter of `settings.oidc_issuer`.
  abbrev pub decode_token : String → JwtSettings → ℕ → jwt.Token → Result Fields
  decode_token oidc_issuer s now token =
      if not (oidc_issuer == "")
      then decode_oidc token
      else jwt.decode token s.jwt_secret s.jwt_audience s.jwt_issuer now

  abbrev pub principal_of_result : Result Fields → Context → Result Principal × Context
  principal_of_result (ok payload) c = principal repr payload c
  principal_of_result (raised e) c = (raised e, c)

  unfoldable pub current_principal :
      String → JwtSettings → ℕ → Option jwt.Token → Context → Result Principal × Context
  unfolding as_unauthorized
  current_principal oidc_issuer s now none c =
      (raised (http_exception 401 "Bearer token required"), c)
  current_principal oidc_issuer s now (some token) c =
      let (r, c') = principal_of_result (decode_token oidc_issuer s now token) c in
      (handle_failure r, c')

-- `_resolve_jwks_uri`: the configured address, the cached one, or one discovery, which is cached.
-- A failed discovery caches nothing.
abbrev cache_uri : Result String → Result String × Option String
cache_uri (ok uri) = (ok uri, some uri)
cache_uri (raised e) = (raised e, none)

-- A cached empty text is false, as `None` is.
unfoldable pub resolve_jwks_uri :
    String → Result String → Option String → Result String × Option String
resolve_jwks_uri oidc_jwks_url discovered cache =
    if not (oidc_jwks_url == "") then (ok oidc_jwks_url, cache) else elim cache [
      | none ↦ cache_uri discovered
      | some uri ↦
          if uri == ""
          then elim discovered [ ok u ↦ (ok u, some u) | raised e ↦ (raised e, some uri) ]
          else (ok uri, some uri)
    ]
