-- ===== src/Retrieval/Requests.antt =====
-- The knowledge requests (app/main.py), served in sequence over one shelf.
use aurelian_autonomous_ente.Prelude.{ℕ, suc, List, [], ◌∷◌, lookup, ltb, get_or, if◌then◌else◌}
use aurelian_autonomous_ente.Result.{Exception, http_exception, Result, ok, raised}
use aurelian_autonomous_ente.Auth.Roles.{Principal, role_level}
use aurelian_autonomous_ente.World.Effects.{Fault, done, refused, reply_lost}
use aurelian_autonomous_ente.World.Rows.{AuditEntry}
use aurelian_autonomous_ente.Retrieval.Backends.{Backends, Shelf, SearchResult}
use aurelian_autonomous_ente.Retrieval.Ingest.{Submission, ingest}
use aurelian_autonomous_ente.Retrieval.Search.{Query, CacheNote, search}

pub data KnowledgeRequest : Type 0 where
  search_request : Principal → Query → KnowledgeRequest
  add_request : Principal → Submission → KnowledgeRequest

-- What was answered.
pub data KnowledgeReply : Type 0 where
  found : SearchResult → CacheNote → KnowledgeReply
  added : ℕ → KnowledgeReply
  failed : Exception → KnowledgeReply

module _ (b : Backends) where
  -- `append_audit(...)`, which may fail
  abbrev pub after_audit : Fault → ℕ → AuditEntry → Shelf → Result ℕ × Shelf
  after_audit done id entry s = (ok id, record s { audit = entry ∷ s.audit })
  after_audit (refused e) id entry s = (raised e, s)
  after_audit (reply_lost e) id entry s = (raised e, record s { audit = entry ∷ s.audit })

  abbrev pub note_ingestion : Principal → ℕ → AuditEntry
  note_ingestion p id = record {
    tenant_id = p.tenant_id;
    actor = p.sub;
    event_type = "knowledge.ingested";
    subject = id;
  }

  abbrev pub after_ingest : Principal → Result ℕ → Shelf → Result ℕ × Shelf
  after_ingest p (raised e) s = (raised e, s)
  after_ingest p (ok id) s =
      after_audit (b.fault s.tick) id (note_ingestion p id) (record s { tick = suc s.tick })

  -- A principal's role is always registered (`_principal`, app/auth.py).
  unfoldable pub add_knowledge : Principal → Submission → Shelf → Result ℕ × Shelf
  add_knowledge p body s =
      if ltb (get_or (lookup p.role role_level) 0) 2
      then (raised (http_exception 403 "admin required"), s)
      else let (r, s') = ingest b p.tenant_id body s in after_ingest p r s'

  unfoldable pub knowledge_search :
      Principal → Query → Shelf → Result (SearchResult × CacheNote) × Shelf
  knowledge_search p q s = search b p.tenant_id q s

  abbrev reply_found : Result (SearchResult × CacheNote) → KnowledgeReply
  reply_found (ok (r, note)) = found r note
  reply_found (raised e) = failed e

  abbrev reply_added : Result ℕ → KnowledgeReply
  reply_added (ok id) = added id
  reply_added (raised e) = failed e

  unfoldable pub serve_knowledge : KnowledgeRequest → Shelf → KnowledgeReply × Shelf
  serve_knowledge (search_request p q) s =
      let (r, s') = knowledge_search p q s in (reply_found r, s')
  serve_knowledge (add_request p d) s = let (r, s') = add_knowledge p d s in (reply_added r, s')

  unfoldable pub serve_all_knowledge : List KnowledgeRequest → Shelf → List KnowledgeReply × Shelf
  serve_all_knowledge [] s = ([], s)
  serve_all_knowledge (r ∷ rs) s =
      let (reply, s') = serve_knowledge r s in
      let (replies, end) = serve_all_knowledge rs s' in (reply ∷ replies, end)
