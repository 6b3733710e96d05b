-- ===== src/Database/Pool.antt =====
-- The connection pool of `Database.connect` (app/database.py) under calls of its methods that overlap.
-- Each call names the tenant that its task's `TENANT_CONTEXT` holds.
use aurelian_autonomous_ente.Prelude.{
  ℕ, zero, suc, Bool, List, [], ◌∷◌, ◌++◌, Option, none, some, ltb, length, if◌then◌else◌,
}
use aurelian_autonomous_ente.Result.{Result}
use aurelian_autonomous_ente.Auth.Claims.{Context}
use aurelian_autonomous_ente.Database.Server.{Postgres}
use aurelian_autonomous_ente.Database.Methods.{
  Method, MethodReply, run_method, end_transaction, pg_prepare, pg_reset,
}

-- A call that holds a connection; its reply once its transaction has ended.
pub record PoolCall (Session : Type 0) : Type 0 where
  pub context : Context
  pub method : Method
  pub session : Session
  pub reply : Option (Result MethodReply)

pub record Pool (Session Server : Type 0) : Type 0 where
  pub idle : List Session
  pub busy : List (PoolCall Session)
  pub server : Server

-- A call takes a connection and opens its transaction; the call with a number runs its statement and
-- ends the transaction; it gives the connection back and returns.
pub data PoolAction : Type 0 where
  acquire : Context → Method → PoolAction
  run release : ℕ → PoolAction

-- What happens: a statement runs, for a task with a context, under the tenant that the session's
-- setting then names; a call returns.
pub data Happens : Type 0 where
  ran : Context → Context → Happens
  returned : Result MethodReply → Happens

-- `max_size=10`
abbrev pub max_size : ℕ
max_size = 10

module _ {A : Type 0} where
  abbrev pub get_elem? : List A → ℕ → Option A
  get_elem? [] i = none
  get_elem? (x ∷ xs) zero = some x
  get_elem? (x ∷ xs) (suc i) = get_elem? xs i

  abbrev pub set_elem : List A → ℕ → A → List A
  set_elem [] i y = []
  set_elem (x ∷ xs) zero y = y ∷ xs
  set_elem (x ∷ xs) (suc i) y = x ∷ set_elem xs i y

  abbrev pub remove_elem : List A → ℕ → List A
  remove_elem [] i = []
  remove_elem (x ∷ xs) zero = xs
  remove_elem (x ∷ xs) (suc i) = x ∷ remove_elem xs i

module _ {Session Server : Type 0} (pg : Postgres Session Server) where
  abbrev pub open_call : Context → Method → Session → PoolCall Session
  open_call context method s = record {
    context = context;
    method = method;
    session = pg_prepare pg context (pg.begin s);
    reply = none;
  }

  -- `pool.acquire()`: the connection that came back last, or a new one, or the call has to wait.
  unfoldable pub acquire_from :
      Context → Method → List Session → List (PoolCall Session) → Server → Pool Session Server
  acquire_from context method [] busy w = record {
    idle = [];
    busy = if ltb (length busy) max_size then open_call context method pg.opened ∷ busy else busy;
    server = w;
  }
  acquire_from context method (s ∷ idle) busy w = record {
    idle = idle;
    busy = open_call context method s ∷ busy;
    server = w;
  }

  abbrev pub answered :
      ℕ
      → PoolCall Session
      → Pool Session Server
      → Result MethodReply × Session × Server
      → Pool Session Server
  answered i c p (r, s, w) = record {
    idle = p.idle;
    busy = set_elem p.busy i (record c { session = s; reply = some r });
    server = w;
  }

  abbrev pub release_call :
      ℕ → Option (PoolCall Session) → Pool Session Server → List Happens × Pool Session Server
  release_call i none p = ([], p)
  release_call i (some c) p = elim c.reply [
    | none ↦ ([], p)
    | some r ↦ (
      returned r ∷ [],
      record {
        idle = pg_reset pg c.session ∷ p.idle;
        busy = remove_elem p.busy i;
        server = p.server;
      },
    )
  ]

module _ {Session Server : Type 0} (is_alnum : ℕ → Bool) (pg : Postgres Session Server) where
  abbrev pub run_call :
      ℕ → Option (PoolCall Session) → Pool Session Server → List Happens × Pool Session Server
  run_call i none p = ([], p)
  run_call i (some c) p = elim c.reply [
    | some r ↦ ([], p)
    | none ↦ (
      ran c.context (pg.current_tenant c.session) ∷ [],
      answered pg i c p (end_transaction pg (run_method is_alnum pg c.method c.session p.server)),
    )
  ]

  unfoldable pub pool_step : PoolAction → Pool Session Server → List Happens × Pool Session Server
  pool_step (acquire context method) p = ([], acquire_from pg context method p.idle p.busy p.server)
  pool_step (run i) p = run_call i (get_elem? p.busy i) p
  pool_step (release i) p = release_call pg i (get_elem? p.busy i) p

  unfoldable pub run_pool :
      List PoolAction → Pool Session Server → List Happens × Pool Session Server
  run_pool [] p = ([], p)
  run_pool (a ∷ actions) p =
      let (hs, next) = pool_step a p in
      let (rest, last) = run_pool actions next in (hs ++ rest, last)
