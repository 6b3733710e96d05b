-- ===== src/Retrieval/Isolation.antt =====
-- No search returns another tenant's document or one that was quarantined, in any sequence of requests.
use mathlib.Core.List.{append_assoc, append-nil}
use native.Mathlib.Decide.{ℕ_discrete}
use aurelian_autonomous_ente.Prelude.{
  ◌≢◌, ◌⊎◌, inl, inr, ℕ, String, ◌≡◌, refl, sym, ap, subst, ◌∙◌, List, [], ◌∷◌, ◌++◌, Option, none,
  some, eq_iff, All, codes, Text,
}
use aurelian_autonomous_ente.Result.{Result, ok, raised}
use aurelian_autonomous_ente.Auth.Roles.{Principal}
use aurelian_autonomous_ente.World.Effects.{Fault, done, refused, reply_lost}
use aurelian_autonomous_ente.Retrieval.Backends.{
  SearchResult, Backends, Shelf, cache_get, cache_set,
}
use aurelian_autonomous_ente.Retrieval.Search.{
  Query, after_cache, after_fetch, compute_result, search, cache_key, key_text, documents_of,
  CacheNote,
}
use aurelian_autonomous_ente.Retrieval.Requests.{
  KnowledgeRequest, search_request, add_request, knowledge_search, serve_knowledge,
  serve_all_knowledge,
}
use aurelian_autonomous_ente.Retrieval.Entries.{All-set, All-get, IsAnswer}
use aurelian_autonomous_ente.Retrieval.Keys.{IsBarFree, key_text-names_tenant}
use aurelian_autonomous_ente.Retrieval.Ingest.{Submission}
use aurelian_autonomous_ente.Retrieval.Sent.{
  empty_shelf, IsSafeShelf-mono, Sent, Sent-snoc, serve_all-snoc,
}
use aurelian_autonomous_ente.Retrieval.Safe.{
  IsSafe, IsOwned, IsSafeShelf, compute-IsSafe, add-IsSafe,
}

-- The tenant's name has no "|".
abbrev pub IsFree : KnowledgeRequest → Type 0
IsFree (search_request p q) = IsBarFree (codes p.tenant_id)
IsFree (add_request p d) = Unit

Text-discrete : Discrete Text
Text-discrete = hlevel ℕ_discrete

-- Two texts with the same hash.
abbrev pub Collides : (Text → String) → Type 0
Collides sha256 = (s t : Text) × (s ≢ t) × (sha256 s ≡ sha256 t)

module _ (b : Backends) (alone : b.redis_url ≡ "")
    (WasSent : String → Submission → ℕ → Type 0) where
  -- A search fails, or it returns safe documents of the tenant, or two texts have the same hash.
  abbrev pub IsSafeAnswer : String → Result (SearchResult × CacheNote) → Type 0
  IsSafeAnswer tenant (ok (r, note)) = All (IsSafe b WasSent tenant) r.matches ⊎ Collides b.sha256
  IsSafeAnswer tenant (raised e) = Unit

  fetch-IsSafe :
      (f : Fault) (n : ℕ) (tenant : String) (q : Query) (s : Shelf)
      → IsBarFree (codes tenant)
      → IsSafeShelf b WasSent s
      → IsSafeAnswer tenant (after_fetch b f n tenant q s).0
        × IsSafeShelf b WasSent (after_fetch b f n tenant q s).1
  unfolding cache_set
  fetch-IsSafe (refused e) n tenant q s free i = (tt, i)
  fetch-IsSafe (reply_lost e) n tenant q s free i = (tt, i)
  fetch-IsSafe done n tenant q s free (v, o) =
      let safe = compute-IsSafe b WasSent n tenant q s.documents v in
      let result = compute_result b n tenant q (documents_of b tenant s.documents) in
      (
        inl safe,
        (
          v,
          rw ((eq_iff b.redis_url "").1 alone) (
              All-set (IsOwned b WasSent) b.local_cache_max_entries (b.clock s.tick)
                (cache_key b tenant q) result s.cache (tenant, q, refl, free, safe) o),
        ),
      )

  owned_by_tenant :
      (tenant : String) (q : Query) (t : ℕ) (r : SearchResult)
      → IsBarFree (codes tenant)
      → IsOwned b WasSent (cache_key b tenant q, (t, r))
      → All (IsSafe b WasSent tenant) r.matches ⊎ Collides b.sha256
  unfolding cache_key
  owned_by_tenant tenant q t r free (other, p, same, bare, safe) =
      elim (Text-discrete (key_text b tenant q) (key_text b other p)) [
        | yes e ↦ inl (rw (key_text-names_tenant b tenant other q p free bare e) safe)
        | no different ↦ inr (key_text b tenant q, key_text b other p, different, same)
      ]

  cached-IsSafe :
      (o : Option SearchResult) (n : ℕ) (tenant : String) (q : Query) (s : Shelf)
      → IsBarFree (codes tenant)
      → IsAnswer (IsOwned b WasSent) (cache_key b tenant q) o
      → IsSafeShelf b WasSent s
      → IsSafeAnswer tenant (after_cache b o n tenant q s).0
        × IsSafeShelf b WasSent (after_cache b o n tenant q s).1
  cached-IsSafe none n tenant q s free known i = fetch-IsSafe (b.fault n) n tenant q s free i
  cached-IsSafe (some r) n tenant q s free known i =
      let (t, owned) = known r refl in (owned_by_tenant tenant q t r free owned, i)

  search-IsSafe :
      (tenant : String) (q : Query) (s : Shelf)
      → IsBarFree (codes tenant)
      → IsSafeShelf b WasSent s
      → IsSafeAnswer tenant (search b tenant q s).0 × IsSafeShelf b WasSent (search b tenant q s).1
  unfolding search cache_get
  search-IsSafe tenant q s free (v, o) =
      let (known, kept) =
        All-get (IsOwned b WasSent) b.floats (b.clock s.tick) (cache_key b tenant q) s.cache o in
      rw ((eq_iff b.redis_url "").1 alone) (cached-IsSafe _ s.tick tenant q _ free known (v, kept))

  serve-IsSafe :
      (r : KnowledgeRequest) (s : Shelf)
      → IsFree r
      → ((p : Principal) (d : Submission) → r ≡ add_request p d → WasSent p.tenant_id d s.tick)
      → IsSafeShelf b WasSent s
      → IsSafeShelf b WasSent (serve_knowledge b r s).1
  unfolding serve_knowledge knowledge_search
  serve-IsSafe (search_request p q) s free w i = (search-IsSafe p.tenant_id q s free i).1
  serve-IsSafe (add_request p d) s free w i = add-IsSafe b WasSent p d s (w p d refl) i

module _ (b : Backends) (alone : b.redis_url ≡ "") where
  requests-IsSafe :
      (served rs : List KnowledgeRequest) (s : Shelf)
      → s ≡ (serve_all_knowledge b served empty_shelf).1
      → All IsFree rs
      → IsSafeShelf b (Sent b served) s
      → IsSafeShelf b (Sent b (served ++ rs)) (serve_all_knowledge b rs s).1
  unfolding serve_all_knowledge
  requests-IsSafe served [] s e free i = rw (append-nil served) i
  requests-IsSafe served (r ∷ rs) s e (f, fs) i =
      let now = served ++ r ∷ [] in
      let step =
        serve-IsSafe b alone (Sent b now) r s f
          (λ p d added. (served, [], p, ap (λ x. served ++ x ∷ []) added, refl, ap (λ x. x.tick) e))
          (IsSafeShelf-mono b (Sent b served) (Sent b now) (Sent-snoc b served r) s i) in
      let s' = (serve_knowledge b r s).1 in
      let at =
        ap (λ x. (serve_knowledge b r x).1) e ∙ sym (serve_all-snoc b served r empty_shelf) in
      subst (λ x. IsSafeShelf b (Sent b x) (serve_all_knowledge b rs s').1)
        (append_assoc served (r ∷ []) rs) (requests-IsSafe now rs s' at fs step)

  -- Without Redis, after any sequence of knowledge requests to an empty shelf by principals whose
  -- tenants' names have no "|", whatever fails and whatever the index answers, a search returns only
  -- documents of the tenant that asks, which are trusted or verified. Each has the content of a
  -- submission that one of those requests sent for the tenant, and that content was not found to be of
  -- high risk when that very request was served. Or else two texts have the same SHA-256 hash.
  pub search_isolated :
      (rs : List KnowledgeRequest) (p : Principal) (q : Query)
      → All IsFree rs
      → IsBarFree (codes p.tenant_id)
      → IsSafeAnswer b alone
          (Sent b rs)
          p.tenant_id
          (knowledge_search b p q (serve_all_knowledge b rs empty_shelf).1).0
  unfolding knowledge_search serve_all_knowledge
  search_isolated rs p q frees free =
      (search-IsSafe b alone (Sent b rs) p.tenant_id q (serve_all_knowledge b rs empty_shelf).1 free
        (requests-IsSafe [] rs empty_shelf refl frees (tt, tt))).0
