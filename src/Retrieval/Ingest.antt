-- ===== src/Retrieval/Ingest.antt =====
-- `ingest` and `_qdrant_upsert` (app/rag.py): a document whose content is of high risk is kept as
-- untrusted, whatever it was labelled.
use aurelian_autonomous_ente.Prelude.{ℕ, suc, String, List, ◌∷◌, ◌++◌, ◌==◌, Text, if◌then◌else◌}
use aurelian_autonomous_ente.Result.{Result, ok, raised}
use aurelian_autonomous_ente.Security.Guard.{classify_untrusted_input_async}
use aurelian_autonomous_ente.World.Effects.{Fault, done, refused, reply_lost}
use aurelian_autonomous_ente.Retrieval.Backends.{
  DocumentRow, Point, Backends, Shelf, qdrant_ensure, embed,
}

-- The arguments of `ingest` after the tenant.
pub record Submission : Type 0 where
  pub title : Text
  pub content : Text
  pub environment : String
  pub service : String
  pub trust_level : String

module _ (b : Backends) where
  -- The risk of a content, as it is classified at a tick.
  unfoldable pub content_risk : ℕ → Text → String
  content_risk n content = (classify_untrusted_input_async (b.guard n) content).risk

  unfoldable pub effective_trust : ℕ → Submission → String
  effective_trust n d = if content_risk n d.content == "high" then "untrusted" else d.trust_level

  unfoldable pub new_document : ℕ → ℕ → String → Submission → DocumentRow
  new_document n id tenant d = record {
    id = id;
    tenant_id = tenant;
    title = b.strip d.title;
    content = b.strip d.content;
    environment = d.environment;
    service = d.service;
    trust_level = effective_trust n d;
  }

  -- `title+" "+content`
  abbrev pub joined : Text → Text → Text
  joined title content = title ++ 32 ∷ content

  -- The point of a document, with the title and content as they were submitted.
  abbrev pub point_of : ℕ → ℕ → String → Submission → Point
  point_of n id tenant d = record {
    id = id;
    vector = embed b (joined d.title d.content);
    payload = record (new_document n id tenant d) { title = d.title; content = d.content };
  }

  -- The point is sent if the collection is there or can be made. No failure leaves this, so that what
  -- the index replies to the point changes nothing.
  abbrev pub upsert_after : Result ℕ → Point → List Point → List Point
  upsert_after (ok status) p sent = p ∷ sent
  upsert_after (raised e) p sent = sent

  unfoldable pub qdrant_upsert : ℕ → Point → List Point → List Point
  qdrant_upsert n p sent =
      if b.qdrant_url == "" then sent else upsert_after (qdrant_ensure b n) p sent

  abbrev pub insert_document : DocumentRow → Shelf → Shelf
  insert_document row s = record s { documents = row ∷ s.documents; next_id = suc s.next_id }

  abbrev pub after_insert : Fault → ℕ → String → Submission → Shelf → Result ℕ × Shelf
  after_insert (refused e) n tenant d s = (raised e, s)
  after_insert (reply_lost e) n tenant d s =
      (raised e, insert_document (new_document n s.next_id tenant d) s)
  after_insert done n tenant d s =
      let s' = insert_document (new_document n s.next_id tenant d) s in
      (ok s.next_id, record s' { sent = qdrant_upsert n (point_of n s.next_id tenant d) s.sent })

  unfoldable pub ingest : String → Submission → Shelf → Result ℕ × Shelf
  ingest tenant d s = after_insert (b.fault s.tick) s.tick tenant d (record s { tick = suc s.tick })
