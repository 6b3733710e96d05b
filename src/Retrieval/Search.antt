-- ===== src/Retrieval/Search.antt =====
-- `search` and `_qdrant_candidates` (app/rag.py).
use aurelian_autonomous_ente.Prelude.{
  occurs_in, ℕ, suc, ◌*◌, String, Bool, false, ◌&&◌, not, List, [], ◌∷◌, ◌++◌, Option, none, some,
  ◌==◌, eqb, take, select, get_or, Text, codes, if◌then◌else◌,
}
use aurelian_autonomous_ente.Result.{Result, ok, raised, ◌>>=◌}
use aurelian_autonomous_ente.Floats.{Floats, min_float, max_float}
use aurelian_autonomous_ente.Security.Context.{Labels, context_is_usable}
use aurelian_autonomous_ente.World.Effects.{Fault, done, refused, reply_lost}
use aurelian_autonomous_ente.Retrieval.Scores.{one, bm25ish, cosine}
use aurelian_autonomous_ente.Retrieval.Backends.{
  DocumentRow, Match, SearchResult, VectorQuery, Backends, Shelf, cache_get, cache_set,
  qdrant_ensure, embed,
}
use aurelian_autonomous_ente.Retrieval.Ingest.{joined}

-- The arguments of `search` after the tenant.
pub record Query : Type 0 where
  pub query : Text
  pub environment : String
  pub service : Option String
  pub limit : ℕ
  pub threshold : Option ℕ

-- The figures of a document, and their combination.
pub record Figures : Type 0 where
  pub sparse : ℕ
  pub dense : ℕ
  pub bonus : ℕ
  pub combined : ℕ

-- The value of "cache" beside a result.
pub data CacheNote : Type 0 where
  hit : CacheNote
  miss : CacheNote

-- `f"{service}"`
abbrev pub service_text : Option String → String
service_text none = "None"
service_text (some s) = s

-- `if service`
abbrev pub asked_service : Option String → Option String
asked_service none = none
asked_service (some s) = if s == "" then none else some s

abbrev pub labels_of : DocumentRow → Labels
labels_of d = record {
  trust_level = d.trust_level;
  environment = d.environment;
  service = d.service;
}

abbrev pub candidate_score : ℕ → List (ℕ × ℕ) → Option ℕ
candidate_score id [] = none
candidate_score id ((i, x) ∷ rest) = if eqb i id then some x else candidate_score id rest

-- `if qdrant`
abbrev pub backend_name : List (ℕ × ℕ) → String
backend_name [] = "local-fallback"
backend_name (c ∷ cs) = "qdrant"

-- `scored.sort(key=score, reverse=True)`: documents of equal scores keep their order
module _ (fl : Floats) where
  unfoldable pub insert_match : Match → List Match → List Match
  insert_match m [] = m ∷ []
  insert_match m (x ∷ xs) = if fl.lt m.score x.score then x ∷ insert_match m xs else m ∷ x ∷ xs

  unfoldable pub sort_matches : List Match → List Match
  sort_matches [] = []
  sort_matches (m ∷ ms) = insert_match m (sort_matches ms)

module _ (b : Backends) where
  -- What is hashed into the cache's key; 124 is "|".
  abbrev pub key_rest : Query → Text
  key_rest q =
      b.lower q.query
      ++ (124 ∷ codes q.environment)
      ++ (124 ∷ codes (service_text q.service))
      ++ 124 ∷ b.print q.limit

  abbrev pub key_text : String → Query → Text
  key_text tenant q = codes tenant ++ 124 ∷ key_rest q

  unfoldable pub cache_key : String → Query → String
  cache_key tenant q = b.sha256 (key_text tenant q)

  abbrev pub vector_query : String → Query → VectorQuery
  vector_query tenant q = record {
    vector = embed b q.query;
    limit = q.limit * 3;
    tenant_id = tenant;
    environments = q.environment ∷ "all" ∷ [];
    trust_levels = "trusted" ∷ "verified" ∷ [];
    services = elim (asked_service q.service) [
      | none ↦ none
      | some s ↦ some (s ∷ "general" ∷ "all" ∷ [])
    ];
  }

  abbrev pub candidates_or_none : Result (List (ℕ × ℕ)) → List (ℕ × ℕ)
  candidates_or_none (ok found) = found
  candidates_or_none (raised e) = []

  unfoldable pub qdrant_candidates : ℕ → String → Query → List (ℕ × ℕ)
  qdrant_candidates n tenant q =
      if b.qdrant_url == ""
      then []
      else candidates_or_none
          (qdrant_ensure b n >>= λ status. b.search_points n (vector_query tenant q))

  -- the bits of 0.12, 0.15, 0.48, 0.37 and 4.0
  abbrev metadata_bonus : ℕ
  metadata_bonus = 4593311331947716280

  abbrev phrase_bonus : ℕ
  phrase_bonus = 4594572339843380019

  abbrev sparse_share : ℕ
  sparse_share = 4602318531202457272

  abbrev dense_share : ℕ
  dense_share = 4600336947366414254

  abbrev four : ℕ
  four = 4616189618054758400

  abbrev is_same_service : Option String → String → Bool
  is_same_service none service = false
  is_same_service (some s) service = not (s == "") && service == s

  unfoldable pub figures_of : Query → List (ℕ × ℕ) → DocumentRow → Figures
  figures_of q qdrant d =
      let fl = b.floats in
      let text = joined b d.title d.content in
      let sparse = bm25ish fl q.query text in
      let local_dense = cosine fl (embed b q.query) (embed b text) in
      let dense = get_or (candidate_score d.id qdrant) local_dense in
      let metadata = if is_same_service q.service d.service then metadata_bonus else 0 in
      let phrase = if occurs_in (b.lower q.query) (b.lower text) then phrase_bonus else 0 in
      let weighed =
        fl.add (fl.mul sparse_share (min_float fl (fl.div sparse four) one))
          (fl.mul dense_share (max_float fl dense 0)) in
      record {
        sparse = sparse;
        dense = dense;
        bonus = fl.add metadata phrase;
        combined = fl.add (fl.add weighed metadata) phrase;
      }

  abbrev pub match_of : Figures → DocumentRow → Match
  match_of f d = record {
    document = d;
    score = b.floats.round f.combined 4;
    sparse = b.floats.round f.sparse 4;
    dense = b.floats.round f.dense 4;
    rerank = b.floats.round f.bonus 4;
  }

  -- The body of the loop for one document, and the loop.
  abbrev pub try_document : Query → ℕ → List (ℕ × ℕ) → DocumentRow → Option Match
  try_document q threshold qdrant d =
      if not (context_is_usable (labels_of d) q.environment q.service)
      then none
      else let f = figures_of q qdrant d in
        if b.floats.le threshold f.combined then some (match_of f d) else none

  abbrev keep_match : Option Match → List Match → List Match
  keep_match none ms = ms
  keep_match (some m) ms = m ∷ ms

  unfoldable pub score_documents : Query → ℕ → List (ℕ × ℕ) → List DocumentRow → List Match
  score_documents q threshold qdrant [] = []
  score_documents q threshold qdrant (d ∷ ds) =
      keep_match (try_document q threshold qdrant d) (score_documents q threshold qdrant ds)

  abbrev pub documents_of : String → List DocumentRow → List DocumentRow
  documents_of tenant = select (λ (d : DocumentRow). d.tenant_id == tenant)

  -- `settings.retrieval_threshold if threshold is None else threshold`
  abbrev pub threshold_of : Query → ℕ
  threshold_of q = get_or q.threshold b.retrieval_threshold

  unfoldable pub ranked : ℕ → String → Query → List DocumentRow → List Match
  ranked n tenant q docs =
      sort_matches b.floats (score_documents q (threshold_of q) (qdrant_candidates n tenant q) docs)

  unfoldable pub compute_result : ℕ → String → Query → List DocumentRow → SearchResult
  compute_result n tenant q docs = record {
    matches = take q.limit (ranked n tenant q docs);
    vector_backend = backend_name (qdrant_candidates n tenant q);
    threshold = threshold_of q;
  }

  abbrev pub after_fetch :
      Fault → ℕ → String → Query → Shelf → Result (SearchResult × CacheNote) × Shelf
  after_fetch (refused e) n tenant q s = (raised e, s)
  after_fetch (reply_lost e) n tenant q s = (raised e, s)
  after_fetch done n tenant q s =
      let result = compute_result n tenant q (documents_of tenant s.documents) in
      (
        ok (result, miss),
        record s {
          cache = cache_set b s.tick (cache_key tenant q) result s.cache;
          tick = suc s.tick;
        },
      )

  abbrev pub after_cache :
      Option SearchResult → ℕ → String → Query → Shelf → Result (SearchResult × CacheNote) × Shelf
  after_cache (some cached) n tenant q s = (ok (cached, hit), s)
  after_cache none n tenant q s = after_fetch (b.fault n) n tenant q s

  unfoldable pub search : String → Query → Shelf → Result (SearchResult × CacheNote) × Shelf
  search tenant q s =
      let (cached, c) = cache_get b s.tick (cache_key tenant q) s.cache in
      after_cache cached s.tick tenant q (record s { cache = c; tick = suc s.tick })
