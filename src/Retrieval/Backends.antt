-- ===== src/Retrieval/Backends.antt =====
-- Documents, results and what surrounds retrieval (app/rag.py): at each tick the clock, the database,
-- Redis and Qdrant may answer anything, and the texts' functions of the language are any functions.
use aurelian_autonomous_ente.Prelude.{
  ℕ, String, Bool, List, [], ◌∷◌, Option, ◌==◌, eqb, ltb, leb, ◌&&◌, Text, concat, if◌then◌else◌,
}
use aurelian_autonomous_ente.Result.{error, Result, ok, raised, ◌>>=◌}
use aurelian_autonomous_ente.Floats.{Floats}
use aurelian_autonomous_ente.Security.Guard.{GuardSettings}
use aurelian_autonomous_ente.World.Effects.{Fault}
use aurelian_autonomous_ente.World.Rows.{AuditEntry}
use aurelian_autonomous_ente.Retrieval.Cache.{Cache, local_cache_get, local_cache_set}
use aurelian_autonomous_ente.Retrieval.Scores.{dense_hash}

-- A row of `documents`, without its times.
pub record DocumentRow : Type 0 where
  pub id : ℕ
  pub tenant_id : String
  pub title : Text
  pub content : Text
  pub environment : String
  pub service : String
  pub trust_level : String

pub record Match : Type 0 where
  pub document : DocumentRow
  pub score : ℕ
  pub sparse : ℕ
  pub dense : ℕ
  pub rerank : ℕ

pub record SearchResult : Type 0 where
  pub matches : List Match
  pub vector_backend : String
  pub threshold : ℕ

-- What is put into the vector index.
pub record Point : Type 0 where
  pub id : ℕ
  pub vector : List ℕ
  pub payload : DocumentRow

-- A request for candidates: the filter's `must` and the number asked for.
pub record VectorQuery : Type 0 where
  pub vector : List ℕ
  pub limit : ℕ
  pub tenant_id : String
  pub environments : List String
  pub trust_levels : List String
  pub services : Option (List String)

pub record Backends : Type 0 where
  pub floats : Floats
  pub lower : Text → Text
  pub strip : Text → Text
  pub print : ℕ → Text
  -- `hashlib.sha256(...).hexdigest()`, as a text and as the number it prints
  pub sha256 : Text → String
  pub digest : Text → ℕ
  pub clock : ℕ → ℕ
  pub fault : ℕ → Fault
  pub guard : ℕ → GuardSettings
  pub local_cache_max_entries : ℕ
  pub retrieval_threshold : ℕ
  pub redis_url : String
  -- `r.get` with `json.loads`, and `r.setex`, each with the making of the client
  pub redis_get : ℕ → String → Result (Option SearchResult)
  pub redis_setex : ℕ → String → SearchResult → Result Bool
  pub qdrant_url : String
  -- the status of the collection, and of the reply to its creation
  pub collection_status : ℕ → Result ℕ
  pub create_collection : ℕ → Result ℕ
  -- the ids and scores of the candidates
  pub search_points : ℕ → VectorQuery → Result (List (ℕ × ℕ))

-- The documents, the local cache, the points sent to the index, what was noted in the audit ledger and
-- the number of calls of the world outside. Lists that grow have the newest first.
pub record Shelf : Type 0 where
  pub documents : List DocumentRow
  pub next_id : ℕ
  pub cache : Cache SearchResult
  pub sent : List Point
  pub audit : List AuditEntry
  pub tick : ℕ

-- `DIM`
abbrev pub dim : ℕ
dim = 128

-- `r.raise_for_status()`
unfoldable pub raise_for_status : ℕ → Result ℕ
raise_for_status status =
    if leb 200 status && ltb status 300 then ok status else raised (error "HTTPStatusError")

module _ (b : Backends) where
  unfoldable pub cache_get :
      ℕ → String → Cache SearchResult → Option SearchResult × Cache SearchResult
  cache_get n key c =
      if b.redis_url == ""
      then local_cache_get b.floats (b.clock n) key c
      else elim (b.redis_get n (concat ("rag:" ∷ key ∷ []))) [
        | ok found ↦ (found, c)
        | raised e ↦ local_cache_get b.floats (b.clock n) key c
      ]

  unfoldable pub cache_set : ℕ → String → SearchResult → Cache SearchResult → Cache SearchResult
  cache_set n key value c =
      if b.redis_url == ""
      then local_cache_set b.local_cache_max_entries (b.clock n) key value c
      else elim (b.redis_setex n (concat ("rag:" ∷ key ∷ [])) value) [
        | ok _ ↦ c
        | raised e ↦ local_cache_set b.local_cache_max_entries (b.clock n) key value c
      ]

  -- `_qdrant_ensure`, of a service that is configured
  unfoldable pub qdrant_ensure : ℕ → Result ℕ
  qdrant_ensure n = do
    status ← b.collection_status n
    if eqb status 404 then b.create_collection n >>= raise_for_status else raise_for_status status

  abbrev pub embed : Text → List ℕ
  embed text = dense_hash b.floats b.digest dim text
