-- ===== src/Api/Tasks.antt =====
-- `create_task` and `rollback` of app/main.py. A header's text has one character for each of its
-- bytes.
use aurelian_autonomous_ente.Prelude.{
  ℕ, String, Bool, not, ◌&&◌, ◌||◌, Option, none, some, ◌==◌, eqb, leb, ltb, length, codes, code,
  Text, if◌then◌else◌,
}
use aurelian_autonomous_ente.Result.{http_exception}
use aurelian_autonomous_ente.Auth.Roles.{Principal}
use aurelian_autonomous_ente.World.Rows.{TaskRow, TaskStatus, WorkflowState, Outcome}
use aurelian_autonomous_ente.World.Effects.{Effect, pure, raise, ◌>>=◌, ◌>>◌}
use aurelian_autonomous_ente.World.Statements.Tasks.{
  insert_task, insert_task_once, select_task_by_key,
}
use aurelian_autonomous_ente.Engine.Environment.{Env, query, query_at}
use aurelian_autonomous_ente.Engine.Steps.{audit}
use aurelian_autonomous_ente.Engine.Run.{run}
use aurelian_autonomous_ente.Engine.Rollback

-- What `create_task` answers: the result of the workflow, or what an earlier request with the key
-- has: its result, or its status while it has none.
pub data Reply : Type 0 where
  ran : Outcome → Reply
  replayed : Outcome → Reply
  in_progress : ℕ → TaskStatus → WorkflowState → Reply

-- The white space of `str.strip`, below 256.
abbrev pub is_space : ℕ → Bool
is_space c = (leb 9 c && leb c 13) || (leb 28 c && leb c 32) || eqb c 133 || eqb c 160

abbrev pub strip_left : String → String
strip_left String.[] = ""
strip_left (String.◌∷◌ c s) =
    let rest = strip_left s in if is_space (code c) then rest else String.◌∷◌ c s

abbrev pub strip_right : String → String
strip_right String.[] = ""
strip_right (String.◌∷◌ c s) =
    let rest = strip_right s in if rest == "" && is_space (code c) then "" else String.◌∷◌ c rest

-- `idempotency_key.strip() if idempotency_key else None`, where an empty text counts as none.
abbrev pub used_key : Option String → Option String
used_key none = none
used_key (some s) = let key = strip_right (strip_left s) in if key == "" then none else some key

abbrev pub is_bad_length : String → Bool
is_bad_length key = ltb (length (codes key)) 8 || ltb 128 (length (codes key))

module _ (env : Env) (p : Principal) (request : Text) where
  -- What is left when the task has its row.
  unfoldable pub start : ℕ → Effect Reply
  start id = do
    audit env p.tenant_id p "task.created" id
    result ← run env id p request
    pure (ran result)

  unfoldable pub answer_existing : Option TaskRow → Effect Reply
  answer_existing none = raise (http_exception 409 "idempotency conflict without existing task")
  answer_existing (some t) = elim t.result [
    | some result ↦ pure (replayed result)
    | none ↦ pure (in_progress t.id t.status t.workflow_state)
  ]

  unfoldable pub after_insert : String → Option ℕ → Effect Reply
  unfolding start answer_existing
  after_insert key (some id) = start id
  after_insert key none = do
    existing ← query env (select_task_by_key p.tenant_id p.sub key)
    answer_existing existing

  unfoldable pub create_keyed : Option String → Effect Reply
  unfolding start after_insert
  create_keyed none = do
    id ← query_at env (insert_task p.tenant_id request p.sub p.role none)
    start id
  create_keyed (some key) =
      if is_bad_length key
      then raise (http_exception 400 "Idempotency-Key must be 8-128 characters")
      else (do
        created ← query_at env (insert_task_once p.tenant_id request p.sub p.role key)
        after_insert key created)

  unfoldable pub create_task : Option String → Effect Reply
  unfolding create_keyed
  create_task idempotency_key = create_keyed (used_key idempotency_key)

-- `rollback`, which asks for an executive with MFA.
unfoldable pub rollback_task : Env → ℕ → Principal → Effect Outcome
rollback_task env task p =
    if not (p.role == "executive") || not p.mfa
    then raise (http_exception 403 "executive + MFA required for rollback")
    else Rollback.rollback env task p
