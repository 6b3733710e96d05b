-- ===== src/Secrets/Provider.antt =====
-- `SecretProvider` (app/secrets.py). The environment, the files and the secret manager are
-- parameters, as are the random tokens, by the number of those drawn before in the process.
use aurelian_autonomous_ente.Prelude.{
  ℕ, suc, String, List, [], ◌∷◌, ◌++◌, Option, none, some, not, ◌==◌, lookup, get_or, contains,
  concat, if◌then◌else◌,
}
use aurelian_autonomous_ente.Json.{Value, dict, get, py_str}
use aurelian_autonomous_ente.Result.{Result, ok, raised, error, ◌>>=◌}

-- What reading a path gives: it is no file, reading it raises an `OSError`, or its text.
pub data FileRead : Type 0 where
  no_file unreadable : FileRead
  contents : String → FileRead

pub record Sources : Type 0 where
  -- `settings.environment`
  pub environment : String
  -- `os.getenv`
  pub getenv : String → Option String
  pub read : String → FileRead
  -- `.strip()` and `.lower()`
  pub strip : String → String
  pub lower : String → String
  -- the `SecretString` of a secret, or the exception of the call
  pub secret_string : String → Result String
  -- `json.loads`, and Python's print of its numbers, lists and dicts
  pub loads : String → Result Value
  pub repr : Value → String
  pub token : ℕ → String

-- `_ephemeral`, oldest first, and the number of tokens drawn from the system so far.
pub record Provider : Type 0 where
  pub ephemeral : List (String × String)
  pub drawn : ℕ

abbrev pub new_provider : Provider
new_provider = record { ephemeral = []; drawn = 0 }

module _ (src : Sources) where
  abbrev pub file_candidates : String → List String
  file_candidates name =
      let explicit = get_or (src.getenv (concat (name ∷ "_FILE" ∷ []))) "" in
      let mounted = concat ("/run/secrets/" ∷ src.lower name ∷ []) ∷ [] in
      if explicit == "" then mounted else explicit ∷ mounted

  abbrev pub secret_in : FileRead → Option String
  secret_in no_file = none
  secret_in unreadable = none
  secret_in (contents text) = if src.strip text == "" then none else some (src.strip text)

  -- The loop over the candidates, to the first that is not empty.
  abbrev pub first_secret : List String → Option String
  first_secret [] = none
  first_secret (path ∷ paths) =
      let later = first_secret paths in
      elim (secret_in (src.read path)) [ some value ↦ some value | none ↦ later ]

  -- `str(obj.get(name, raw))`, and the text itself where it is no object.
  abbrev pub named_secret : String → String → Result Value → String
  named_secret name raw (ok (dict d)) = elim (get name d) [
    | some v ↦ py_str src.repr v
    | none ↦ raw
  ]
  named_secret name raw (ok v) = raw
  named_secret name raw (raised e) = raw

  abbrev pub managed : String → String → Result String
  managed name id = do raw ← src.secret_string id; ok (named_secret name raw (src.loads raw))

  abbrev pub demo_value : String → Option String → Option String
  demo_value name default =
      let value = get_or (src.getenv name) "" in if value == "" then default else some value

  -- What `get` answers without its dict, if it does.
  unfoldable pub provided : String → Option String → Option (Result String)
  provided name default =
      let id = get_or (src.getenv (concat (name ∷ "_AWS_SECRET_ID" ∷ []))) "" in
      elim (first_secret (file_candidates name)) [
        | some value ↦ some (ok value)
        | none ↦
            if not (id == "")
            then some (managed name id)
            else if contains src.environment ("demo" ∷ "test" ∷ [])
            then elim (demo_value name default) [ some value ↦ some (ok value) | none ↦ none ]
            else some (raised (error "RuntimeError"))
      ]

  -- The token of a name, drawn at the first call.
  abbrev pub ephemeral_token : String → Provider → Option String → Result String × Provider
  ephemeral_token name made (some token) = (ok token, made)
  ephemeral_token name made none = (
    ok (src.token made.drawn),
    record {
      ephemeral = made.ephemeral ++ (name, src.token made.drawn) ∷ [];
      drawn = suc made.drawn;
    },
  )

  abbrev pub after_provided : String → Provider → Option (Result String) → Result String × Provider
  after_provided name made (some r) = (r, made)
  after_provided name made none = ephemeral_token name made (lookup name made.ephemeral)

  unfoldable pub get_secret : String → Option String → Provider → Result String × Provider
  unfolding provided
  get_secret name default made = after_provided name made (provided name default)

  -- The provider after several calls.
  unfoldable pub get_secrets : List (String × Option String) → Provider → Provider
  unfolding get_secret
  get_secrets [] made = made
  get_secrets ((name, default) ∷ rest) made = get_secrets rest (get_secret name default made).1
