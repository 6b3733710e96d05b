-- ===== src/Audit/Ledger.antt =====
-- `append_audit` and `verify_chain` (app/audit.py) over the table `audit_events`, oldest row first.
use aurelian_autonomous_ente.Prelude.{
  ℕ, suc, String, Bool, not, ◌||◌, List, [], ◌∷◌, ◌++◌, ◌==◌, length, select, if◌then◌else◌,
}
use aurelian_autonomous_ente.Json.{Value, Fields, nat, str, dict, end, field}
use aurelian_autonomous_ente.Result.{Result, ok, ◌>>=◌}
use aurelian_autonomous_ente.Audit.Crypto.{JsonText, Signing}

pub data ChainReport : Type 0 where
  -- the number of events and the head
  valid : ℕ → String → ChainReport
  -- the number of events and the id of the first that fails
  invalid : ℕ → ℕ → ChainReport

-- An event to append, with the time of the call.
pub record Event : Type 0 where
  pub tenant_id : String
  pub actor : String
  pub event_type : String
  pub payload : Value
  pub created_at : String

abbrev pub genesis : String
genesis = "GENESIS"

-- `envelope`
abbrev pub envelope : String → String → String → Value → String → String → Fields
envelope tenant_id actor event_type payload prev_hash created_at = field "v" (nat 1) (
    field "tenant_id" (str tenant_id) (
      field "actor" (str actor) (
        field "event_type" (str event_type) (
          field "payload" payload
            (field "prev_hash" (str prev_hash) (field "created_at" (str created_at) end))))))

module _ (json : JsonText) where
  -- A row of `audit_events`.
  pub record AuditRow : Type 0 where
    pub id : ℕ
    pub tenant_id : String
    pub actor : String
    pub event_type : String
    pub payload_json : json.Printed
    pub prev_hash : String
    pub event_hash : String
    pub signature : String
    pub created_at : String

  -- `_event_body`
  abbrev pub event_body : String → String → String → Value → String → String → json.Printed
  event_body tenant_id actor event_type payload prev_hash created_at =
      json.dumps (dict (envelope tenant_id actor event_type payload prev_hash created_at))

  module _ (s : Signing json) where
    -- `_signed_event`
    abbrev pub signed_event : String → String → String → Value → String → String → String × String
    signed_event tenant_id actor event_type payload prev_hash created_at =
        let event_hash =
          s.sha256 (event_body tenant_id actor event_type payload prev_hash created_at) in
        (event_hash, s.hmac_sha256 s.signing_key event_hash)

    -- `SELECT ... WHERE tenant_id=? ORDER BY id`
    abbrev pub tenant_rows : String → List AuditRow → List AuditRow
    tenant_rows tenant rows = select (λ (r : AuditRow). r.tenant_id == tenant) rows

    -- The hash of the last row, or `start` where there is none.
    abbrev pub last_hash : String → List AuditRow → String
    last_hash start [] = start
    last_hash start (r ∷ rows) = last_hash r.event_hash rows

    abbrev pub signed_row : ℕ → Event → String → AuditRow
    signed_row id e prev_hash =
        let signed =
          signed_event e.tenant_id e.actor e.event_type e.payload prev_hash e.created_at in
        record {
          id = id;
          tenant_id = e.tenant_id;
          actor = e.actor;
          event_type = e.event_type;
          payload_json = json.dumps e.payload;
          prev_hash = prev_hash;
          event_hash = signed.0;
          signature = signed.1;
          created_at = e.created_at;
        }

    -- The insertion; the id is the next of the table's sequence, whose rows are never deleted.
    unfoldable pub append_audit : Event → List AuditRow → List AuditRow
    append_audit e rows =
        rows
        ++ signed_row (suc (length rows)) e (last_hash genesis (tenant_rows e.tenant_id rows)) ∷ []

    -- The test of one row against the hash before it, with the payload as it reads back.
    abbrev pub row_fails : String → String → AuditRow → Value → Bool
    row_fails tenant prev e payload =
        let expected =
          s.sha256 (event_body tenant e.actor e.event_type payload prev e.created_at) in
        not (expected == e.event_hash)
        || (not (s.hmac_sha256 s.signing_key expected == e.signature) || not (e.prev_hash == prev))

    -- The loop of `verify_chain`; `total` is the number of all events.
    unfoldable pub verify_from : String → ℕ → String → List AuditRow → Result ChainReport
    verify_from tenant total prev [] = ok (valid total prev)
    verify_from tenant total prev (e ∷ rest) =
        let later = verify_from tenant total e.event_hash rest in
        do
          payload ← json.loads e.payload_json
          if row_fails tenant prev e payload then ok (invalid total e.id) else later

    unfoldable pub verify_chain : String → List AuditRow → Result ChainReport
    verify_chain tenant rows =
        let events = tenant_rows tenant rows in verify_from tenant (length events) genesis events
