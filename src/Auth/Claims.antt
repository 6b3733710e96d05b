-- ===== src/Auth/Claims.antt =====
-- `_principal`: from a token's claims to a principal, or a refusal (app/auth.py).
use Prim.Native.Char.{code}
use Prim.Native.String.{◌++◌}
use aurelian_autonomous_ente.Prelude.{
  ℕ, String, Bool, true, false, not, ◌&&◌, ◌||◌, List, [], ◌∷◌, map, Option, none, some, leb, eqb,
  ◌==◌, lookup, get_or, contains, if◌then◌else◌,
}
use aurelian_autonomous_ente.Json.{
  Value, Items, Fields, str, list, dict, nil, cons, get, get_null, keys, truthy, or_else, py_str,
  has_text, has_substring,
}
use aurelian_autonomous_ente.Result.{Result, ok, raised, http_exception, error, ◌>>=◌}
use aurelian_autonomous_ente.Auth.Roles.{Principal, role_level}

-- The `ContextVar` that names the tenant of the current request.
abbrev pub Context : Type 0
Context = Option String

-- `str.isspace` of a code point
unfoldable pub is_space : ℕ → Bool
is_space c =
    leb 9 c && leb c 13
    || leb 28 c && leb c 32
    || eqb c 0x85
    || eqb c 0xA0
    || eqb c 0x1680
    || leb 0x2000 c && leb c 0x200A
    || eqb c 0x2028
    || eqb c 0x2029
    || eqb c 0x202F
    || eqb c 0x205F
    || eqb c 0x3000

-- The words of a text behind the word `acc` that has begun.
unfoldable pub words : String → String → List String
words acc String.[] = if acc == "" then [] else acc ∷ []
words acc (String.◌∷◌ c s) =
    let space = is_space (code c) in
    let rest = words (if space then "" else acc ++ String.◌∷◌ c String.[]) s in
    if space && not (acc == "") then acc ∷ rest else rest

-- `s.split()`
unfoldable pub split : String → List String
unfolding words is_space
split s = words "" s

-- `v[0]`
unfoldable pub index_zero : Value → Result Value
index_zero (list (cons v vs)) = ok v
index_zero (list nil) = raised (error "IndexError")
index_zero (str (String.◌∷◌ c s)) = ok (str (String.◌∷◌ c String.[]))
index_zero (str String.[]) = raised (error "IndexError")
index_zero (dict d) = raised (error "KeyError")
index_zero v = raised (error "TypeError")

-- A list or a dict cannot be an element of a set.
abbrev is_hashable : Value → Bool
is_hashable (list vs) = false
is_hashable (dict d) = false
is_hashable v = true

-- `set(v)` of a list
unfoldable pub set_of_items : Items → Result (List Value)
set_of_items nil = ok []
set_of_items (cons v vs) =
    let rest = set_of_items vs in
    if is_hashable v then (do xs ← rest; ok (v ∷ xs)) else raised (error "TypeError")

-- `set(scope.split()) if isinstance(scope,str) else set(scope or [])`
unfoldable pub scopes_of : Value → Result (List Value)
unfolding split set_of_items
scopes_of (str s) = ok (map str (split s))
scopes_of (list vs) = set_of_items vs
scopes_of (dict d) = ok (map str (keys d))
scopes_of v = if truthy v then raised (error "TypeError") else ok []

-- `"mfa" in amr`
unfoldable pub mfa_in : Value → Result Bool
mfa_in (list vs) = ok (has_text "mfa" vs)
mfa_in (str s) = ok (has_substring s "mfa")
mfa_in (dict d) = ok (contains "mfa" (keys d))
mfa_in v = raised (error "TypeError")

-- `bool(payload.get("mfa")) or "mfa" in amr`
unfoldable pub mfa_of : Fields → Result Bool
unfolding mfa_in
mfa_of payload =
    if truthy (get_null "mfa" payload)
    then ok true
    else mfa_in (get_or (get "amr" payload) (list nil))

-- `payload.get("role") or (payload.get("roles") or ["viewer"])[0]`
unfoldable pub role_claim : Fields → Result Value
unfolding index_zero
role_claim payload =
    if truthy (get_null "role" payload)
    then ok (get_null "role" payload)
    else index_zero (or_else (get_null "roles" payload) (list (cons (str "viewer") nil)))

-- `role not in ROLE_LEVEL`
abbrev pub is_role : String → Bool
is_role r = elim (lookup r role_level) [ none ↦ false | some _ ↦ true ]

module _ (repr : Value → String) where
  -- `payload.get("tenant_id") or payload.get("tid") or ""`
  unfoldable pub tenant_claim : Fields → String
  tenant_claim payload =
      py_str repr
        (or_else (or_else (get_null "tenant_id" payload) (get_null "tid" payload)) (str ""))

  -- `Principal(str(payload.get("sub","unknown")),tenant,role,scopes,mfa)`
  abbrev pub claimed : Fields → String → String → List Value → Bool → Principal
  claimed payload role tenant scopes mfa = record {
    sub = py_str repr (get_or (get "sub" payload) (str "unknown"));
    tenant_id = tenant;
    role = role;
    scopes = scopes;
    mfa = mfa;
  }

  -- The checks and the conversions that follow, given the role and the tenant.
  unfoldable pub checked_principal : Fields → String → String → Result Principal
  unfolding scopes_of mfa_of
  checked_principal payload role tenant =
      if not (is_role role) || tenant == ""
      then raised (http_exception 403 "Token lacks recognized tenant/role claims")
      else do
        scopes ← scopes_of (get_or (get "scope" payload) (str ""))
        mfa ← mfa_of payload
        ok (claimed payload role tenant scopes mfa)

  unfoldable pub principal_of : Fields → Result Principal
  unfolding role_claim tenant_claim checked_principal
  principal_of payload = do
    role ← role_claim payload
    checked_principal payload (py_str repr role) (tenant_claim payload)

  -- On success the tenant becomes the request's context.
  abbrev pub keep_context : Result Principal → Context → Result Principal × Context
  keep_context (ok p) c = (ok p, some p.tenant_id)
  keep_context (raised e) c = (raised e, c)

  unfoldable pub principal : Fields → Context → Result Principal × Context
  unfolding principal_of
  principal payload c = keep_context (principal_of payload) c
