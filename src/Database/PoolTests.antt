-- ===== src/Database/PoolTests.antt =====
-- Two tenants on one connection, the first of which leaves a setting behind in its session.
use aurelian_autonomous_ente.Prelude.{
  ℕ, ◌≡◌, refl, Bool, false, List, [], ◌∷◌, none, some, All, codes, arith,
}
use aurelian_autonomous_ente.Json.{end}
use aurelian_autonomous_ente.Result.{ok, raised, error}
use aurelian_autonomous_ente.Auth.Claims.{Context, split, is_space}
use aurelian_autonomous_ente.Database.Server.{Postgres, KeepsTenants}
use aurelian_autonomous_ente.Database.Methods.{
  execute, insert_returning_id, fetchone, number, row, affected, returning_id, run_method,
  pg_prepare, pg_reset,
}
use aurelian_autonomous_ente.Database.Pool.{
  Pool, PoolAction, acquire, run, release, ran, returned, acquire_from, pool_step, run_pool,
}
use aurelian_autonomous_ente.Database.Tenancy.{IsOwn, IsSound, run_pool-IsOwn}

affected_tag : affected "INSERT 0 12" ≡ 12
unfolding affected split
affected_tag = refl

affected_words : affected "CREATE TABLE" ≡ 0
unfolding affected split
affected_words = refl

returning_id_trims :
    returning_id (codes "INSERT INTO t ;; \n") ≡ codes "INSERT INTO t  RETURNING id"
unfolding returning_id is_space
returning_id_trims = refl

abbrev no_word : ℕ → Bool
no_word c = false

-- The session's own setting, and the transaction's.
abbrev Settings : Type 0
Settings = Context × Context

abbrev current : Settings → Context
current s = elim s.1 [ none ↦ s.0 | some t ↦ some t ]

abbrev pg : Postgres Settings ℕ
pg = record {
  opened = (none, none);
  begin = λ s. s;
  set_tenant = λ t s. (s.0, some t);
  run_command = λ sql ps s w. (ok "INSERT 0 1", (some "left behind", s.1), w);
  run_many = λ sql seq s w. (ok tt, s, w);
  fetch_value = λ sql ps s w. (ok none, s, w);
  fetch_row = λ sql ps s w. (raised (error "PostgresError"), s, w);
  fetch_rows = λ sql ps s w. (ok (end ∷ []), s, w);
  commit = λ s w. ((s.0, none), w);
  rollback = λ s w. ((s.0, none), w);
  discard_all = λ s. (none, none);
  current_tenant = current;
}

abbrev pg-KeepsTenants : KeepsTenants pg
pg-KeepsTenants = record {
  opened_unset = refl;
  begin_same = λ s. refl;
  set_tenant_sets = λ t s. refl;
  discard_all_unsets = λ s. refl;
}

abbrev connected : Pool Settings ℕ
connected = record { idle = (none, none) ∷ []; busy = []; server = 0 }

abbrev calls : List PoolAction
calls =
    acquire (some "meridian") (execute (codes "INSERT") [])
    ∷ run 0
    ∷ release 0
    ∷ acquire none (fetchone (codes "SELECT") [])
    ∷ acquire (some "northstar") (insert_returning_id (codes "INSERT") [])
    ∷ run 1
    ∷ run 0
    ∷ release 0
    ∷ release 0
    ∷ []

happens :
    (run_pool no_word pg calls connected).0
    ≡ ran (some "meridian") (some "meridian")
      ∷ returned (ok (number 1))
      ∷ ran none none
      ∷ ran (some "northstar") (some "northstar")
      ∷ returned (raised (error "TypeError"))
      ∷ returned (ok (row (some end)))
      ∷ []
unfolding run_pool pool_step acquire_from pg_prepare pg_reset run_method affected split
happens = refl

run_pool-IsOwn_example :
    All IsOwn (run_pool no_word pg calls connected).0
    × IsSound pg (run_pool no_word pg calls connected).1
run_pool-IsOwn_example =
    run_pool-IsOwn pg no_word pg-KeepsTenants calls connected
      record { unset = (refl, tt); ready = tt; within = omega arith }
