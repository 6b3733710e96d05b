-- ===== src/Audit/Crypto.antt =====
-- What app/audit.py takes from Python's `json`, `hashlib` and `hmac`.
use aurelian_autonomous_ente.Prelude.{String, ◌≡◌, some}
use aurelian_autonomous_ente.Json.{Value, Fields, str, dict, get, field, append_fields}
use aurelian_autonomous_ente.Result.{Result, ok}

-- `dumps` is the canonical print of app/audit.py, with sorted keys, and `loads` reads it. A print
-- always reads back; a text reads back as itself; an object reads back with the same keys, each
-- value as it reads back by itself; and an object prints the same with a value that was read back.
pub record JsonText : Type 1 where
  pub Printed : Type 0
  pub printed_discrete : Discrete Printed
  pub dumps : Value → Printed
  pub loads : Printed → Result Value
  pub loads-dumps : (v : Value) → (w : Value) × (loads (dumps v) ≡ ok w)
  pub loads-dumps-str : (s : String) → loads (dumps (str s)) ≡ ok (str s)
  pub loads-dumps-dict :
      (d : Fields)
      → (d' : Fields) × (loads (dumps (dict d)) ≡ ok (dict d'))
        × ((k : String) (v : Value)
            → get k d ≡ some v
            → (w : Value) × (get k d' ≡ some w) × (loads (dumps v) ≡ ok w))
  pub dumps-reread :
      (before after : Fields) (k : String) (v w : Value)
      → loads (dumps v) ≡ ok w
      → dumps (dict (append_fields before (field k w after)))
        ≡ dumps (dict (append_fields before (field k v after)))

pub record Signing (json : JsonText) : Type 0 where
  -- the hexadecimal digests
  pub sha256 : json.Printed → String
  pub hmac_sha256 : String → String → String
  -- `secrets.get("AUDIT_SIGNING_KEY")`
  pub signing_key : String
