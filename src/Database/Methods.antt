-- ===== src/Database/Methods.antt =====
-- The methods of `Database` (app/database.py) on PostgreSQL: what each sends on a connection that it
-- holds, and what it makes of the answer.
use aurelian_autonomous_ente.Prelude.{
  ℕ, ◌+◌, ◌*◌, ◌-◌, String, code, ◌==◌, Bool, ◌&&◌, List, [], ◌∷◌, ◌++◌, Option, none, some, Text,
  codes, leb, eqb, get_or, if◌then◌else◌,
}
use aurelian_autonomous_ente.Json.{Value, Fields}
use aurelian_autonomous_ente.Result.{Result, ok, raised, error, ◌>>=◌}
use aurelian_autonomous_ente.Auth.Claims.{Context, is_space, split}
use aurelian_autonomous_ente.Database.Placeholders.{pg_placeholders}
use aurelian_autonomous_ente.Database.Server.{Postgres}

pub data Method : Type 0 where
  execute insert_returning_id fetchone_write fetchall fetchone : Text → List Value → Method
  executemany : Text → List (List Value) → Method

pub data MethodReply : Type 0 where
  number : ℕ → MethodReply
  row : Option Fields → MethodReply
  rows : List Fields → MethodReply
  nothing : MethodReply

-- `int(word)` on a word of a command tag, which is made of digits or of letters.
abbrev pub digits_value : ℕ → String → Option ℕ
digits_value n String.[] = some n
digits_value n (String.◌∷◌ c s) =
    let rest = digits_value (n * 10 + (code c - 48)) s in
    if leb 48 (code c) && leb (code c) 57 then rest else none

abbrev pub parse_int : String → Option ℕ
parse_int s = if s == "" then none else digits_value 0 s

abbrev pub last_int : List String → Option ℕ
last_int [] = none
last_int (w ∷ []) = parse_int w
last_int (w ∷ v ∷ ws) = last_int (v ∷ ws)

-- `int(status.split()[-1])`, or 0 where this raises
unfoldable pub affected : String → ℕ
affected status = get_or (last_int (split status)) 0

-- `s.rstrip(...)`
abbrev rstrip_from : (ℕ → Bool) → ℕ → Text → Text
rstrip_from p c [] = if p c then [] else c ∷ []
rstrip_from p c (d ∷ s) = c ∷ d ∷ s

abbrev pub rstrip : (ℕ → Bool) → Text → Text
rstrip p [] = []
rstrip p (c ∷ s) = rstrip_from p c (rstrip p s)

unfoldable pub returning_id : Text → Text
returning_id sql = rstrip (eqb 59) (rstrip is_space sql) ++ codes " RETURNING id"

-- `int(value)`
abbrev pub id_of : Option ℕ → Result MethodReply
id_of none = raised (error "TypeError")
id_of (some n) = ok (number n)

-- `rows[0] if rows else None`
abbrev pub first_row : List Fields → Option Fields
first_row [] = none
first_row (r ∷ rs) = some r

module _ {Session Server : Type 0} (is_alnum : ℕ → Bool) (pg : Postgres Session Server) where
  abbrev pub decoded :
      {A : Type 0}
      → (A → Result MethodReply)
      → Result A × Session × Server
      → Result MethodReply × Session × Server
  decoded f (r, s, w) = (r >>= f, s, w)

  -- The PostgreSQL branch of each method, from its statement to the reply.
  abbrev pub pg_execute :
      Text → List Value → Session → Server → Result MethodReply × Session × Server
  pg_execute sql ps s w =
      decoded (λ status. ok (number (affected status)))
        (pg.run_command (pg_placeholders is_alnum sql) ps s w)

  abbrev pub pg_insert_returning_id :
      Text → List Value → Session → Server → Result MethodReply × Session × Server
  pg_insert_returning_id sql ps s w =
      decoded id_of (pg.fetch_value (returning_id (pg_placeholders is_alnum sql)) ps s w)

  abbrev pub pg_fetchone_write :
      Text → List Value → Session → Server → Result MethodReply × Session × Server
  pg_fetchone_write sql ps s w =
      decoded (λ r. ok (row r)) (pg.fetch_row (pg_placeholders is_alnum sql) ps s w)

  abbrev pub pg_executemany :
      Text → List (List Value) → Session → Server → Result MethodReply × Session × Server
  pg_executemany sql seq s w =
      decoded (λ _. ok nothing) (pg.run_many (pg_placeholders is_alnum sql) seq s w)

  abbrev pub pg_fetchall :
      Text → List Value → Session → Server → Result MethodReply × Session × Server
  pg_fetchall sql ps s w =
      decoded (λ rs. ok (rows rs)) (pg.fetch_rows (pg_placeholders is_alnum sql) ps s w)

  abbrev pub pg_fetchone :
      Text → List Value → Session → Server → Result MethodReply × Session × Server
  pg_fetchone sql ps s w =
      decoded (λ rs. ok (row (first_row rs))) (pg.fetch_rows (pg_placeholders is_alnum sql) ps s w)

  unfoldable pub run_method : Method → Session → Server → Result MethodReply × Session × Server
  run_method (execute sql ps) s w = pg_execute sql ps s w
  run_method (insert_returning_id sql ps) s w = pg_insert_returning_id sql ps s w
  run_method (fetchone_write sql ps) s w = pg_fetchone_write sql ps s w
  run_method (executemany sql seq) s w = pg_executemany sql seq s w
  run_method (fetchall sql ps) s w = pg_fetchall sql ps s w
  run_method (fetchone sql ps) s w = pg_fetchone sql ps s w

module _ {Session Server : Type 0} (pg : Postgres Session Server) where
  -- The end of `async with conn.transaction()`
  abbrev pub end_transaction :
      Result MethodReply × Session × Server → Result MethodReply × Session × Server
  end_transaction (ok r, s, w) = let (closed, after) = pg.commit s w in (ok r, closed, after)
  end_transaction (raised e, s, w) =
      let (closed, after) = pg.rollback s w in (raised e, closed, after)

  -- `_pg_prepare`
  unfoldable pub pg_prepare : Context → Session → Session
  pg_prepare none s = s
  pg_prepare (some tenant) s = if tenant == "" then s else pg.set_tenant tenant s

  -- `_pg_reset`
  unfoldable pub pg_reset : Session → Session
  pg_reset s = pg.discard_all s
