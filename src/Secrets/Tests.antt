-- ===== src/Secrets/Tests.antt =====
-- A demo process without any secret supplied.
use aurelian_autonomous_ente.Prelude.{String, ◌≡◌, refl, zero, suc, [], ◌∷◌, none, some}
use aurelian_autonomous_ente.Json.{null}
use aurelian_autonomous_ente.Result.{ok, raised, error}
use aurelian_autonomous_ente.Secrets.Provider.{
  no_file, Sources, new_provider, get_secret, get_secrets,
}
use aurelian_autonomous_ente.Secrets.Stable.{get_secret_stable}

abbrev bare : String → Sources
bare environment = record {
  environment = environment;
  getenv = λ name. none;
  read = λ path. no_file;
  strip = λ s. s;
  lower = λ s. s;
  secret_string = λ id. raised (error "ClientError");
  loads = λ s. ok null;
  repr = λ v. "?";
  token = λ n. elim n [ zero ↦ "first" | suc m ↦ "later" ];
}

production_refuses :
    (get_secret (bare "production") "JWT_SECRET" (some "x") new_provider).0
    ≡ raised (error "RuntimeError")
unfolding get_secret
production_refuses = refl

get_secret_stable_example :
    (get_secret (bare "demo") "JWT_SECRET" none (
      get_secrets
        (bare "demo")
        (("AUDIT_SIGNING_KEY", none) ∷ [])
        (get_secret (bare "demo") "JWT_SECRET" none new_provider).1)).0
    ≡ ok "first"
get_secret_stable_example =
    get_secret_stable (bare "demo") "JWT_SECRET" "first" none new_provider
      (("AUDIT_SIGNING_KEY", none) ∷ []) (unfold get_secret in refl)
