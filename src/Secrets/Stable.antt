-- ===== src/Secrets/Stable.antt =====
-- A secret stays what it was first (app/secrets.py).
use aurelian_autonomous_ente.Prelude.{
  String, ◌≡◌, refl, ◌∙◌, ap, List, [], ◌∷◌, ◌++◌, Option, none, some, ◌==◌, eq_refl, lookup, inl,
  inr, Bool-cases,
}
use aurelian_autonomous_ente.Result.{Result, ok, ok_injective}
use aurelian_autonomous_ente.Secrets.Provider.{
  Sources, Provider, provided, ephemeral_token, after_provided, get_secret, get_secrets,
}

lookup-append_some :
    (k v : String) (d e : List (String × String)) → lookup k d ≡ some v → lookup k (d ++ e) ≡ some v
lookup-append_some k v [] e h = cc
lookup-append_some k v ((j, w) ∷ d) e h = elim (Bool-cases (j == k)) [
  | inl same ↦ rw same (rw same at h)
  | inr other ↦ rw other (lookup-append_some k v d e (rw other at h))
]

lookup-append_none :
    (k v : String) (d : List (String × String))
    → lookup k d ≡ none
    → lookup k (d ++ (k, v) ∷ []) ≡ some v
lookup-append_none k v [] h = rw (eq_refl k) refl
lookup-append_none k v ((j, w) ∷ d) h = elim (Bool-cases (j == k)) [
  | inl same ↦ cc (rw same at h)
  | inr other ↦ rw other (lookup-append_none k v d (rw other at h))
]

module _ (src : Sources) where
  token-keeps :
      (k v name : String) (made : Provider) (o : Option String)
      → lookup k made.ephemeral ≡ some v
      → lookup k (ephemeral_token src name made o).1.ephemeral ≡ some v
  token-keeps k v name made (some t) h = h
  token-keeps k v name made none h = lookup-append_some k v made.ephemeral _ h

  -- No call takes a token away.
  after_provided-keeps :
      (k v name : String) (made : Provider) (o : Option (Result String))
      → lookup k made.ephemeral ≡ some v
      → lookup k (after_provided src name made o).1.ephemeral ≡ some v
  after_provided-keeps k v name made (some r) h = h
  after_provided-keeps k v name made none h =
      token-keeps k v name made (lookup name made.ephemeral) h

  get_secret-keeps :
      (k v name : String) (default : Option String) (made : Provider)
      → lookup k made.ephemeral ≡ some v
      → lookup k (get_secret src name default made).1.ephemeral ≡ some v
  unfolding get_secret
  get_secret-keeps k v name default made h = after_provided-keeps k v name made _ h

  get_secrets-keeps :
      (k v : String) (calls : List (String × Option String)) (made : Provider)
      → lookup k made.ephemeral ≡ some v
      → lookup k (get_secrets src calls made).ephemeral ≡ some v
  unfolding get_secrets
  get_secrets-keeps k v [] made h = h
  get_secrets-keeps k v ((name, default) ∷ calls) made h =
      get_secrets-keeps k v calls _ (get_secret-keeps k v name default made h)

  token-notes :
      (name v : String) (made : Provider) (o : Option String)
      → lookup name made.ephemeral ≡ o
      → (ephemeral_token src name made o).0 ≡ ok v
      → lookup name (ephemeral_token src name made o).1.ephemeral ≡ some v
  token-notes name v made (some t) e h = e ∙ ap some (ok_injective h)
  token-notes name v made none e h =
      lookup-append_none name (src.token made.drawn) made.ephemeral e ∙ ap some (ok_injective h)

  after_provided-stable :
      (name v : String) (made later : Provider) (o : Option (Result String))
      → (after_provided src name made o).0 ≡ ok v
      → (lookup name (after_provided src name made o).1.ephemeral ≡ some v
          → lookup name later.ephemeral ≡ some v)
      → (after_provided src name later o).0 ≡ ok v
  after_provided-stable name v made later (some r) h k = h
  after_provided-stable name v made later none h k =
      rw (k (token-notes name v made (lookup name made.ephemeral) refl h)) refl

  -- As long as files, environment and secret manager answer the same, a secret that `get` has
  -- returned is returned by every later call for that name with that default, whatever secrets are
  -- asked for in between. That holds of the tokens drawn for a demo, too, whatever the system would
  -- draw next.
  pub get_secret_stable :
      (name v : String) (default : Option String) (made : Provider)
      (calls : List (String × Option String))
      → (get_secret src name default made).0 ≡ ok v
      → (get_secret src name default (get_secrets src calls (get_secret src name default made).1)).0
        ≡ ok v
  unfolding get_secret
  get_secret_stable name v default made calls h =
      after_provided-stable name v made _ (provided src name default) h
        (get_secrets-keeps name v calls (get_secret src name default made).1)
