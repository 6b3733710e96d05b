-- ===== src/Auth/Demo.antt =====
-- `create_demo_token` (app/auth.py): the claims of a demo token, and the token library.
use Prim.Native.String.{◌++◌}
use aurelian_autonomous_ente.Prelude.{
  ℕ, ◌+◌, ◌≤◌, ◌<◌, String, ◌≡◌, Bool, List, [], ◌∷◌, Option, none, some, lookup, true, false, not,
  ◌&&◌, contains, ◌≢◌,
}
use aurelian_autonomous_ente.Json.{Value, Fields, keys, bool, nat, str, end, field, get}
use aurelian_autonomous_ente.Result.{Result, ok, raised, error}

-- Claims that JSON keeps: a dict of texts, truth values and whole numbers.
abbrev pub is_plain : Value → Bool
is_plain (bool b) = true
is_plain (nat n) = true
is_plain (str s) = true
is_plain v = false

abbrev pub are_plain : Fields → Bool
are_plain end = true
are_plain (field k v d) = is_plain v && not (contains k (keys d)) && are_plain d

-- PyJWT. Decoding what could be encoded under the same secret gives the claims back, if they are plain,
-- the subject is a text, no time is set before which the token is not valid and it has no id, the
-- audience and the issuer are the expected ones and the audience is not empty, and the token was
-- issued by now and has not expired.
pub record Jwt : Type 1 where
  pub Token : Type 0
  pub encode : Fields → String → Result Token
  pub decode : Token → (secret audience issuer : String) (now : ℕ) → Result Fields
  pub decode-encode :
      (claims : Fields) (token : Token) (secret audience issuer : String) (now issued expires : ℕ)
      (sub : String)
      → encode claims secret ≡ ok token
      → are_plain claims ≡ true
      → get "sub" claims ≡ some (str sub)
      → get "nbf" claims ≡ none
      → get "jti" claims ≡ none
      → get "aud" claims ≡ some (str audience)
      → get "iss" claims ≡ some (str issuer)
      → get "iat" claims ≡ some (nat issued)
      → get "exp" claims ≡ some (nat expires)
      → audience ≢ ""
      → issued ≤ now
      → now < expires
      → decode token secret audience issuer now ≡ ok claims

pub record JwtSettings : Type 0 where
  pub jwt_secret : String
  pub jwt_audience : String
  pub jwt_issuer : String

-- The scopes of each role.
abbrev pub demo_scopes : List (String × List String)
demo_scopes =
    ("viewer", "read" ∷ [])
    ∷ ("operator", "read" ∷ "operate" ∷ [])
    ∷ ("admin", "read" ∷ "operate" ∷ "approve:team" ∷ [])
    ∷ ("executive", "read" ∷ "operate" ∷ "approve:team" ∷ "approve:executive" ∷ [])
    ∷ []

-- `" ".join(scopes)`
abbrev pub join_words : List String → String
join_words [] = ""
join_words (w ∷ []) = w
join_words (w ∷ v ∷ ws) = w ++ (" " ++ join_words (v ∷ ws))

-- The payload; times are in seconds, as PyJWT writes them.
abbrev pub demo_claims : JwtSettings → ℕ → String → String → String → List String → Bool → Fields
demo_claims s now sub tenant role scopes mfa = field "sub" (str sub) (
    field "tenant_id" (str tenant) (
      field "role" (str role) (
        field "scope" (str (join_words scopes)) (
          field "mfa" (bool mfa) (
            field "iss" (str s.jwt_issuer) (
              field "aud" (str s.jwt_audience)
                (field "iat" (nat now) (field "exp" (nat (now + 3600)) end))))))))

module _ (jwt : Jwt) where
  abbrev pub encode_for :
      JwtSettings → ℕ → String → String → String → Bool → Option (List String) → Result jwt.Token
  encode_for s now sub tenant role mfa none = raised (error "ValueError")
  encode_for s now sub tenant role mfa (some scopes) =
      jwt.encode (demo_claims s now sub tenant role scopes mfa) s.jwt_secret

  unfoldable pub create_demo_token :
      JwtSettings → ℕ → String → String → String → Bool → Result jwt.Token
  create_demo_token s now sub tenant role mfa =
      encode_for s now sub tenant role mfa (lookup role demo_scopes)
