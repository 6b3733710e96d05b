-- ===== src/Audit/Tests.antt =====
-- A ledger with a print that is the value itself, and a hash that is only the actor's name.
use aurelian_autonomous_ente.Prelude.{
  String, ◌≡◌, ◌↔◌, ◌⊎◌, refl, List, [], ◌∷◌, ◌==◌, length, select,
}
use aurelian_autonomous_ente.Json.{dict, end}
use aurelian_autonomous_ente.Result.{ok}
use aurelian_autonomous_ente.Audit.Plain.{plain_json, plain_signing}
use aurelian_autonomous_ente.Audit.Ledger.{
  AuditRow, Event, valid, invalid, append_audit, verify_from, verify_chain, tenant_rows, genesis,
}
use aurelian_autonomous_ente.Audit.Chain.{IsChain, FailsAt, verify_chain_correct}
use aurelian_autonomous_ente.Audit.Append.{append_all, append_all_verifies}
use aurelian_autonomous_ente.Audit.Tamper.{SameEvents, Collision, tamper_evident}

abbrev event : String → String → Event
event tenant actor = record {
  tenant_id = tenant;
  actor = actor;
  event_type = "task.created";
  payload = dict end;
  created_at = "t";
}

abbrev three : List Event
three = event "meridian" "a" ∷ event "northstar" "b" ∷ event "meridian" "c" ∷ []

abbrev ledger : List (AuditRow plain_json)
ledger = append_all plain_json plain_signing three []

ledger_verifies : verify_chain plain_json plain_signing "meridian" ledger ≡ ok (valid 2 "c")
unfolding append_all append_audit verify_chain verify_from
ledger_verifies = refl

-- A row whose actor was changed.
forged_fails :
    verify_chain plain_json plain_signing "meridian" (
      record {
        id = 7;
        tenant_id = "meridian";
        actor = "x";
        event_type = "task.created";
        payload_json = dict end;
        prev_hash = genesis;
        event_hash = "a";
        signature = "a";
        created_at = "t";
      }
      ∷ [])
    ≡ ok (invalid 1 7)
unfolding verify_chain verify_from
forged_fails = refl

verify_chain_correct_example :
    let events = tenant_rows plain_json plain_signing "meridian" ledger in
    ((verify_chain plain_json plain_signing "meridian" ledger ≡ ok (valid (length events) "c"))
      ↔ IsChain plain_json plain_signing "meridian" genesis events "c")
    × (verify_chain plain_json plain_signing "meridian" ledger ≡ ok (invalid 2 7)
        → FailsAt plain_json plain_signing "meridian" (length events) genesis events 7)
verify_chain_correct_example =
    verify_chain_correct plain_json plain_signing "meridian" ledger "c" 2 7

append_all_verifies_example :
    (head : String) × (verify_chain plain_json plain_signing "meridian"
        (append_all plain_json plain_signing three [])
      ≡ ok (valid (length (select (λ (e : Event). e.tenant_id == "meridian") three)) head))
append_all_verifies_example = append_all_verifies plain_json plain_signing three "meridian"

tamper_evident_example :
    SameEvents plain_json plain_signing
      (tenant_rows plain_json plain_signing "meridian" ledger)
      (tenant_rows plain_json plain_signing "meridian" ledger)
    ⊎ Collision plain_json plain_signing
tamper_evident_example =
    tamper_evident plain_json plain_signing "meridian" ledger ledger 2 "c" ledger_verifies
      ledger_verifies
