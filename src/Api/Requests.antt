-- ===== src/Api/Requests.antt =====
-- The requests of app/main.py that change state, and the scan of a process that starts, one after
-- another.
use aurelian_autonomous_ente.Prelude.{ℕ, String, Option, Text, List, [], ◌∷◌}
use aurelian_autonomous_ente.Auth.Roles.{Principal}
use aurelian_autonomous_ente.World.Rows.{World}
use aurelian_autonomous_ente.Engine.Environment.{Env}
use aurelian_autonomous_ente.Api.Tasks.{create_task, rollback_task}
use aurelian_autonomous_ente.Api.Recovery.{Scan, reconcile_stale_state}
use aurelian_autonomous_ente.Api.Approvals.{approve, deny}

pub data Request : Type 0 where
  create : (request : Text) (idempotency_key : Option String) → Request
  approving denying : (approval_id : ℕ) → Request
  rolling_back : (task_id : ℕ) → Request
  -- the scan at the start of a process
  recovering : (scan : Scan) → Request

-- The world after a request, whatever it answers.
unfoldable pub serve : Env → Principal → Request → World → World
serve env p (create request key) w = (create_task env p request key w).1
serve env p (approving id) w = (approve env p id w).1
serve env p (denying id) w = (deny env p id w).1
serve env p (rolling_back task) w = (rollback_task env task p w).1
serve env p (recovering scan) w = (reconcile_stale_state env scan w).1

-- Requests of several principals, each with what surrounds the engine at its time.
unfoldable pub serve_all : List (Env × Principal × Request) → World → World
unfolding serve
serve_all [] w = w
serve_all ((env, p, r) ∷ rs) w = serve_all rs (serve env p r w)
