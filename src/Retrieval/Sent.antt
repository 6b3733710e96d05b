-- ===== src/Retrieval/Sent.antt =====
-- Which submissions a sequence of knowledge requests has sent, and that what is safe stays safe as more
-- of them are served.
use mathlib.Core.List.{append_assoc}
use aurelian_autonomous_ente.Prelude.{ℕ, String, ◌≡◌, refl, ap, ◌∙◌, List, [], ◌∷◌, ◌++◌, All}
use aurelian_autonomous_ente.Auth.Roles.{Principal}
use aurelian_autonomous_ente.Retrieval.Backends.{Backends, Shelf}
use aurelian_autonomous_ente.Retrieval.Ingest.{Submission}
use aurelian_autonomous_ente.Retrieval.Requests.{
  KnowledgeRequest, add_request, serve_knowledge, serve_all_knowledge,
}
use aurelian_autonomous_ente.Retrieval.Safe.{IsVetted, IsSafe, IsOwned, IsSafeShelf}

abbrev pub empty_shelf : Shelf
empty_shelf = record { documents = []; next_id = 1; cache = []; sent = []; audit = []; tick = 0 }

All-mono :
    {A : Type 0} (P Q : A → Type 0) → ((x : A) → P x → Q x) → (xs : List A) → All P xs → All Q xs
All-mono P Q f [] a = tt
All-mono P Q f (x ∷ xs) (h, a) = (f x h, All-mono P Q f xs a)

-- What was sent before is still sent later.
module _ (b : Backends) (Before After : String → Submission → ℕ → Type 0) where
  pub IsSafeShelf-mono :
      ((tenant : String) (sub : Submission) (n : ℕ) → Before tenant sub n → After tenant sub n)
      → (s : Shelf) → IsSafeShelf b Before s
      → IsSafeShelf b After s
  IsSafeShelf-mono later s (v, o) = (
    All-mono (IsVetted b Before) (IsVetted b After)
        (λ d (n, sub, sent, same, high). (n, sub, later d.tenant_id sub n sent, same, high))
        s.documents v,
    All-mono (IsOwned b Before) (IsOwned b After)
        (λ (key, (t, r)) (tenant, q, named, bare, safe). (
          tenant,
          q,
          named,
          bare,
          All-mono (IsSafe b Before tenant) (IsSafe b After tenant)
              (λ m (own, trusted, (n, sub, sent, same, low)).
                (own, trusted, (n, sub, later tenant sub n sent, same, low)))
              r.matches safe,
        ))
        s.cache o,
  )

module _ (b : Backends) where
  -- One of the requests, from an empty shelf, is to add the submission, by a principal of the tenant,
  -- and it is served at tick `n`.
  abbrev pub Sent : List KnowledgeRequest → String → Submission → ℕ → Type 0
  Sent rs tenant sub n =
      (before after : List KnowledgeRequest) × (p : Principal) × (rs
        ≡ before ++ add_request p sub ∷ after)
      × (p.tenant_id ≡ tenant)
      × (n ≡ (serve_all_knowledge b before empty_shelf).1.tick)

  pub Sent-snoc :
      (rs : List KnowledgeRequest) (r : KnowledgeRequest) (tenant : String) (sub : Submission)
      (n : ℕ)
      → Sent rs tenant sub n
      → Sent (rs ++ r ∷ []) tenant sub n
  Sent-snoc rs r tenant sub n (before, after, p, e, own, tick) = (
    before,
    after ++ r ∷ [],
    p,
    ap (λ x. x ++ r ∷ []) e ∙ append_assoc before (add_request p sub ∷ after) (r ∷ []),
    own,
    tick,
  )

  pub serve_all-snoc :
      (rs : List KnowledgeRequest) (r : KnowledgeRequest) (s : Shelf)
      → (serve_all_knowledge b (rs ++ r ∷ []) s).1
        ≡ (serve_knowledge b r (serve_all_knowledge b rs s).1).1
  unfolding serve_all_knowledge
  serve_all-snoc [] r s = refl
  serve_all-snoc (x ∷ rs) r s = serve_all-snoc rs r (serve_knowledge b x s).1
