-- ===== src/Audit/Plain.antt =====
-- The laws of the print and the hash can be met: a print that is the value itself, and a hash that is
-- only the actor's name.
use aurelian_autonomous_ente.Prelude.{String, refl, sym, ap, get_or}
use aurelian_autonomous_ente.Json.{
  Value, Value-discrete, null, str, dict, get, field, append_fields,
}
use aurelian_autonomous_ente.Result.{ok, ok_injective}
use aurelian_autonomous_ente.Audit.Crypto.{JsonText, Signing}

abbrev pub plain_json : JsonText
plain_json = record {
  Printed = Value;
  printed_discrete = Value-discrete;
  dumps = λ v. v;
  loads = λ v. ok v;
  loads-dumps = λ v. (v, refl);
  loads-dumps-str = λ s. refl;
  loads-dumps-dict = λ d. (d, refl, λ k v h. (v, h, refl));
  dumps-reread = λ before after k v w e.
      ap (λ x. dict (append_fields before (field k x after))) (sym (ok_injective e));
}

abbrev actor_hash : Value → String
actor_hash (dict d) = elim (get_or (get "actor" d) null) [ str s ↦ s | _ ↦ "" ]
actor_hash v = ""

abbrev pub plain_signing : Signing plain_json
plain_signing = record { sha256 = actor_hash; hmac_sha256 = λ k m. m; signing_key = "k" }
