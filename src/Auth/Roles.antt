-- ===== src/Auth/Roles.antt =====
-- `Principal`, `ROLE_LEVEL` and the scopes of a demo role (app/auth.py).
use aurelian_autonomous_ente.Prelude.{ℕ, String, Bool, List, [], ◌∷◌, any}
use aurelian_autonomous_ente.Json.{Value, is_text}

-- The scopes are a set of claims' items: texts, or what else a token's list holds.
pub record Principal : Type 0 where
  pub sub : String
  pub tenant_id : String
  pub role : String
  pub scopes : List Value
  pub mfa : Bool

-- `ROLE_LEVEL`
abbrev pub role_level : List (String × ℕ)
role_level = ("viewer", 0) ∷ ("operator", 1) ∷ ("admin", 2) ∷ ("executive", 3) ∷ []

-- `scope in p.scopes`
abbrev pub has_scope : String → Principal → Bool
has_scope s p = any (is_text s) p.scopes
