-- ===== src/Database/Server.antt =====
-- PostgreSQL as asyncpg gives it to app/database.py: the commands on a connection's session, which are
-- parameters, and what they do to the setting app.tenant_id.
use aurelian_autonomous_ente.Prelude.{ℕ, String, ◌≡◌, List, Option, none, some, Text}
use aurelian_autonomous_ente.Json.{Value, Fields}
use aurelian_autonomous_ente.Result.{Result}
use aurelian_autonomous_ente.Auth.Claims.{Context}

-- The commands of a session. Those that send a statement answer or raise, and may change the session
-- and the server in any way.
pub record Postgres (Session Server : Type 0) : Type 0 where
  pub opened : Session
  pub begin : Session → Session
  pub set_tenant : String → Session → Session
  pub run_command : Text → List Value → Session → Server → Result String × Session × Server
  pub run_many : Text → List (List Value) → Session → Server → Result (Unit {0}) × Session × Server
  pub fetch_value : Text → List Value → Session → Server → Result (Option ℕ) × Session × Server
  pub fetch_row : Text → List Value → Session → Server → Result (Option Fields) × Session × Server
  pub fetch_rows : Text → List Value → Session → Server → Result (List Fields) × Session × Server
  pub commit : Session → Server → Session × Server
  pub rollback : Session → Server → Session × Server
  pub discard_all : Session → Session
  pub current_tenant : Session → Context

-- The setting is unset in a new session and after DISCARD ALL, a transaction begins with the session's
-- setting, and `set_config` sets it.
pub record KeepsTenants {Session Server : Type 0} (pg : Postgres Session Server) : Type 0 where
  pub opened_unset : pg.current_tenant pg.opened ≡ none
  pub begin_same : (s : Session) → pg.current_tenant (pg.begin s) ≡ pg.current_tenant s
  pub set_tenant_sets : (t : String) (s : Session) → pg.current_tenant (pg.set_tenant t s) ≡ some t
  pub discard_all_unsets : (s : Session) → pg.current_tenant (pg.discard_all s) ≡ none
