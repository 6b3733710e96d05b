-- ===== src/Lib.antt =====
-- Aurelian autonomous enterprise operations: a governed, multi-tenant workflow service. A request in
-- plain language is classified (app/security.py), planned (app/planning.py), decided on by a policy
-- (app/policy.py, with policies/policy.yaml or Open Policy Agent and opa/policy.rego), perhaps held
-- for a reviewer (app/main.py), executed by a tool under an execution key, verified, and recorded
-- (app/agent.py). Every step is written to a signed chain of audit events (app/audit.py).
--
-- Which module models what, with paths from the repository's root:
--   Prelude    shared names, tests on numbers, tables as lists, texts
--   Json       the values of Python's json and the operations the code makes on them
--   Result     a value or a Python exception
--   Auth       app/auth.py: `_principal`, `create_demo_token`, `current_principal`,
--              `_resolve_jwks_uri`
--   Policy     app/policy.py: `_local_decision`, `evaluate`, `approval_authorized`; the shipped
--              documents policies/policy.yaml and opa/policy.rego
--   Security   app/security.py: `classify_untrusted_input`, its asynchronous form with the guard
--              model, and `context_is_usable`
--   Audit      app/audit.py: `_event_body`, `_signed_event`, `append_audit`, `verify_chain`
--   World      the tables (postgres/schema.sql), each SQL statement as a function of them, and the
--              effects of which handlers are made
--   Database   app/database.py: `_pg_placeholders`, and the methods of `Database` on a pool of
--              PostgreSQL connections
--   Secrets    app/secrets.py: `SecretProvider.get`
--   Runner     tool_runner/app.py: `execute`
--   Floats     the arithmetic of floats, as operations on their bits
--   Retrieval  app/rag.py: the cache, the scores, `ingest` and `search`; the knowledge requests of
--              app/main.py
--   Planner    app/planning.py: `plan_request`; planner_runner/app.py: `plan`; app/agent.py: `plan`
--   Events     app/events.py: `publish` and `stream` as steps of a bus of numbered streams
--   Reads      app/main.py: the requests that only read, and demo tokens
--   Tools      app/tools.py: the registry `TOOLS`, `execute_tool` and `_isolated`;
--              app/sandbox_worker.py
--   Engine     app/agent.py: `_run`, `execute_approved`, `rollback` and their helpers
--   Api        app/main.py: `create_task`, `approve`, `deny`, `rollback` and
--              `reconcile_stale_state`, and sequences of them
--
-- A handler is a function of a world that returns or raises, with the world it leaves. Each SQL
-- statement commits by itself, as app/database.py runs it, and at each one an environment says
-- whether it is done, fails with no effect, or takes effect and loses its reply. The clock, the
-- guard model, the policy engine, the planner and the tools are functions of the number of steps
-- made so far, so each may answer differently every time. The world notes every call of a tool with
-- the execution key under which it is made.
--
-- Parameters: the JWT library, the JSON print, SHA-256 and HMAC stand as records with the laws that
-- their documentation gives; Unicode's NFKC form and its letters, the print of floats, the guard
-- model, the secret manager, Open Policy Agent, Redis, Qdrant and floats are functions without a law,
-- but for the one that a float is not less both ways. asyncpg's commands are a record, with the laws
-- that PostgreSQL's documentation gives of `set_config` and DISCARD ALL.
--
-- The loop over attempts is recursion on the number of attempts that are left, `max_attempts` of the
-- source, and the print of a number has one digit of fuel more than the number, which is enough
-- since division by ten shrinks it. No other loop is bounded by fuel.
--
-- The local cache of retrieval is a list with the least recently used entry first. A stream of the
-- bus keeps its number when it closes, so that a step names it by its place. The tools are a function
-- of the business tables, the engine's theorems hold for any such function, and the search behind
-- `search_knowledge` is the tools' parameter, since its state is that of Retrieval.
--
-- Not modelled: opening and closing the pool of app/database.py and its fallback to SQLite, tracing
-- and configuration, the seed data and the self-check `evals` of app/main.py, migrations, the
-- frontend, and handlers that interleave statement by statement.
pub mod Prelude
pub mod Json
pub mod Result
pub mod Auth
pub mod Policy
pub mod Security
pub mod Audit
pub mod World
pub mod Tools
pub mod Engine
pub mod Database
pub mod Secrets
pub mod Runner
pub mod Floats
pub mod Retrieval
pub mod Planner
pub mod Events
pub mod Reads
pub mod Api
