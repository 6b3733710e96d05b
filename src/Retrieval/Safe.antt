-- ===== src/Retrieval/Safe.antt =====
-- What a search can return, after any sequence of knowledge requests.
use aurelian_autonomous_ente.Prelude.{
  ℕ, suc, String, ◌≡◌, ◌≢◌, zero, inl, inr, refl, subst, true, false, List, [], ◌∷◌, ◌==◌, eq_iff,
  arith, All, ltb, take, lookup, get_or, contains, codes, Bool-cases,
}
use aurelian_autonomous_ente.Result.{Result, ok, raised}
use aurelian_autonomous_ente.Auth.Roles.{Principal, role_level}
use aurelian_autonomous_ente.Security.Context.{context_is_usable}
use aurelian_autonomous_ente.World.Effects.{Fault, done, refused, reply_lost}
use aurelian_autonomous_ente.Retrieval.Cache.{Stamped}
use aurelian_autonomous_ente.World.Rows.{AuditEntry}
use aurelian_autonomous_ente.Retrieval.Backends.{DocumentRow, Match, SearchResult, Backends, Shelf}
use aurelian_autonomous_ente.Retrieval.Ingest.{
  Submission, content_risk, effective_trust, new_document, after_insert, ingest,
}
use aurelian_autonomous_ente.Retrieval.Search.{
  Query, labels_of, figures_of, match_of, insert_match, sort_matches, score_documents, threshold_of,
  ranked, qdrant_candidates, compute_result, cache_key, documents_of,
}
use aurelian_autonomous_ente.Retrieval.Requests.{
  after_ingest, after_audit, note_ingestion, add_knowledge,
}
use aurelian_autonomous_ente.Retrieval.Keys.{IsBarFree}

-- `WasSent tenant sub n` says that a submission was sent for a tenant and handled at tick `n`.
module _ (b : Backends) (WasSent : String → Submission → ℕ → Type 0) where
  -- The content is of a submission that was sent for the document's tenant, and is trusted only if it
  -- was not found to be of high risk when that submission was handled.
  abbrev pub IsVetted : DocumentRow → Type 0
  IsVetted d =
      (n : ℕ) × (sub : Submission) × WasSent d.tenant_id sub n
      × (d.content ≡ b.strip sub.content)
      × (content_risk b n sub.content ≡ "high" → d.trust_level ≡ "untrusted")

  -- A document of the tenant, trusted or verified, of a submission that was sent for the tenant and
  -- whose content was not found to be of high risk when it was handled.
  abbrev pub IsSafe : String → Match → Type 0
  IsSafe tenant m =
      (m.document.tenant_id ≡ tenant)
      × (contains m.document.trust_level ("trusted" ∷ "verified" ∷ []) ≡ true)
      × ((n : ℕ) × (sub : Submission) × WasSent tenant sub n
          × (m.document.content ≡ b.strip sub.content)
          × (content_risk b n sub.content ≢ "high"))

  match_of-IsSafe :
      (tenant : String) (q : Query) (f : List (ℕ × ℕ)) (d : DocumentRow)
      → d.tenant_id ≡ tenant
      → IsVetted d
      → context_is_usable (labels_of d) q.environment q.service ≡ true
      → IsSafe tenant (match_of b (figures_of b q f d) d)
  unfolding context_is_usable
  match_of-IsSafe tenant q f d e (n, sub, sent, same, high) usable =
      let trusted : contains d.trust_level ("trusted" ∷ "verified" ∷ []) ≡ true = ground arith in
      (
        e,
        trusted,
        (
          n,
          sub,
          subst (λ t. WasSent t sub n) e sent,
          same,
          λ h.
              let low : false ≡ true =
                subst (λ x. contains x ("trusted" ∷ "verified" ∷ []) ≡ true) (high h) trusted in
              cc,
        ),
      )

  score-IsSafe :
      (tenant : String) (q : Query) (threshold : ℕ) (f : List (ℕ × ℕ)) (ds : List DocumentRow)
      → All IsVetted ds
      → All (IsSafe tenant) (score_documents b q threshold f (documents_of b tenant ds))
  unfolding score_documents
  score-IsSafe tenant q threshold f [] v = tt
  score-IsSafe tenant q threshold f (d ∷ ds) (v, vs) =
      let rest = score-IsSafe tenant q threshold f ds vs in
      elim (Bool-cases (d.tenant_id == tenant)) [
        | inr other ↦ rw other rest
        | inl own ↦ elim (Bool-cases (context_is_usable (labels_of d) q.environment q.service)) [
          | inr unusable ↦ rw (own, unusable) rest
          | inl usable ↦ elim (Bool-cases (b.floats.le threshold (figures_of b q f d).combined)) [
            | inr low ↦ rw (own, usable, low) rest
            | inl high ↦
                rw (own, usable, high)
                  (match_of-IsSafe tenant q f d ((eq_iff d.tenant_id tenant).0 own) v usable, rest)
          ]
        ]
      ]

  module _ (P : Match → Type 0) where
    All-insert : (m : Match) (ms : List Match) → P m → All P ms → All P (insert_match b.floats m ms)
    unfolding insert_match
    All-insert m [] h a = (h, tt)
    All-insert m (x ∷ xs) h (hx, a) = elim (Bool-cases (b.floats.lt m.score x.score)) [
      | inl below ↦ rw below (hx, All-insert m xs h a)
      | inr above ↦ rw above (h, (hx, a))
    ]

    All-sort : (ms : List Match) → All P ms → All P (sort_matches b.floats ms)
    unfolding sort_matches
    All-sort [] a = tt
    All-sort (m ∷ ms) (h, a) = All-insert m (sort_matches b.floats ms) h (All-sort ms a)

    All-take : (n : ℕ) (ms : List Match) → All P ms → All P (take n ms)
    All-take zero ms a = tt
    All-take (suc n) [] a = tt
    All-take (suc n) (m ∷ ms) (h, a) = (h, All-take n ms a)

  pub compute-IsSafe :
      (n : ℕ) (tenant : String) (q : Query) (ds : List DocumentRow)
      → All IsVetted ds
      → All (IsSafe tenant) (compute_result b n tenant q (documents_of b tenant ds)).matches
  unfolding compute_result ranked
  compute-IsSafe n tenant q ds v =
      let f = qdrant_candidates b n tenant q in
      let scored = score_documents b q (threshold_of b q) f (documents_of b tenant ds) in
      All-take (IsSafe tenant) q.limit (sort_matches b.floats scored)
        (All-sort (IsSafe tenant) scored (score-IsSafe tenant q (threshold_of b q) f ds v))

  -- An entry of the cache was computed for the tenant that its key names.
  abbrev pub IsOwned : String × Stamped SearchResult → Type 0
  IsOwned (key, (t, r)) =
      (tenant : String) × (q : Query) × (key ≡ cache_key b tenant q)
      × IsBarFree (codes tenant)
      × All (IsSafe tenant) r.matches

  abbrev pub IsSafeShelf : Shelf → Type 0
  IsSafeShelf s = All IsVetted s.documents × All IsOwned s.cache

  new-IsVetted :
      (n id : ℕ) (tenant : String) (d : Submission)
      → WasSent tenant d n
      → IsVetted (new_document b n id tenant d)
  unfolding new_document effective_trust
  new-IsVetted n id tenant d sent =
      (n, d, sent, refl, λ h. rw ((eq_iff (content_risk b n d.content) "high").1 h) refl)

  inserted-IsSafe :
      (f : Fault) (n : ℕ) (tenant : String) (d : Submission) (s : Shelf)
      → WasSent tenant d n
      → IsSafeShelf s
      → IsSafeShelf (after_insert b f n tenant d s).1
  inserted-IsSafe done n tenant d s w (v, o) = ((new-IsVetted n s.next_id tenant d w, v), o)
  inserted-IsSafe (refused e) n tenant d s w (v, o) = (v, o)
  inserted-IsSafe (reply_lost e) n tenant d s w (v, o) =
      ((new-IsVetted n s.next_id tenant d w, v), o)

  ingest-IsSafe :
      (tenant : String) (d : Submission) (s : Shelf)
      → WasSent tenant d s.tick
      → IsSafeShelf s
      → IsSafeShelf (ingest b tenant d s).1
  unfolding ingest
  ingest-IsSafe tenant d s w i =
      inserted-IsSafe (b.fault s.tick) s.tick tenant d (record s { tick = suc s.tick }) w i

  pub add-IsSafe :
      (p : Principal) (d : Submission) (s : Shelf)
      → WasSent p.tenant_id d s.tick
      → IsSafeShelf s
      → IsSafeShelf (add_knowledge b p d s).1
  unfolding add_knowledge
  add-IsSafe p d s w i = elim (Bool-cases (ltb (get_or (lookup p.role role_level) 0) 2)) [
    | inl low ↦ rw low i
    | inr high ↦ rw high (
        audit_kept (ingest b p.tenant_id d s).0 (ingest b p.tenant_id d s).1
          (ingest-IsSafe p.tenant_id d s w i))
  ]
    where
      noted_kept :
          (f : Fault) (id : ℕ) (entry : AuditEntry) (s' : Shelf)
          → IsSafeShelf s'
          → IsSafeShelf (after_audit b f id entry s').1
      noted_kept done id entry s' j = j
      noted_kept (refused e) id entry s' j = j
      noted_kept (reply_lost e) id entry s' j = j

      audit_kept :
          (r : Result ℕ) (s' : Shelf) → IsSafeShelf s' → IsSafeShelf (after_ingest b p r s').1
      audit_kept (raised e) s' j = j
      audit_kept (ok id) s' j =
          noted_kept (b.fault s'.tick) id (note_ingestion b p id) (record s' { tick = suc s'.tick })
            j
