-- ===== src/Audit/Tamper.antt =====
-- Two ledgers that verify with the same head hold the same events, or show a collision of SHA-256.
use aurelian_autonomous_ente.Prelude.{
  ℕ, String, ◌≡◌, ◌≢◌, ◌⊎◌, inl, inr, refl, sym, ap, subst, ◌∙◌, List, [], ◌∷◌, some, arith, length,
  some_injective,
}
use aurelian_autonomous_ente.Json.{Value, Fields, str, dict, get}
use aurelian_autonomous_ente.Result.{ok, ok_injective}
use aurelian_autonomous_ente.Audit.Crypto.{JsonText, Signing}
use aurelian_autonomous_ente.Audit.Ledger.{
  AuditRow, valid, envelope, verify_chain, tenant_rows, genesis,
}
use aurelian_autonomous_ente.Audit.Chain.{RowHolds, IsChain, verify_chain_correct, chain_total}

str_injective : {s t : String} → str s ≡ str t → s ≡ t
str_injective p = cc

dict_injective : {d e : Fields} → dict d ≡ dict e → d ≡ e
dict_injective p = cc

module _ (json : JsonText) (s : Signing json) where
  -- Two different printed bodies with one hash.
  abbrev pub Collision : Type 0
  Collision = (x y : json.Printed) × (x ≢ y) × (s.sha256 x ≡ s.sha256 y)

  -- The payloads read back as values whose prints read back the same.
  abbrev pub SamePayload : json.Printed → json.Printed → Type 0
  SamePayload p q =
      (v w : Value) × (json.loads p ≡ ok v)
      × (json.loads q ≡ ok w)
      × (json.loads (json.dumps v) ≡ json.loads (json.dumps w))

  -- The rows agree in all that the chain protects; the ids are the database's.
  abbrev pub SameEvent : AuditRow json → AuditRow json → Type 0
  SameEvent a b =
      (a.actor ≡ b.actor)
      × (a.event_type ≡ b.event_type)
      × SamePayload a.payload_json b.payload_json
      × (a.created_at ≡ b.created_at)
      × (a.prev_hash ≡ b.prev_hash)
      × (a.event_hash ≡ b.event_hash)
      × (a.signature ≡ b.signature)

  abbrev pub SameEvents : List (AuditRow json) → List (AuditRow json) → Type 0
  SameEvents [] [] = Unit
  SameEvents (a ∷ xs) (b ∷ ys) = SameEvent a b × SameEvents xs ys
  SameEvents _ _ = ⊥

  -- Objects that print the same hold values that read back the same.
  same_field :
      (k : String) (d e : Fields) (v w : Value)
      → get k d ≡ some v
      → get k e ≡ some w
      → json.dumps (dict d) ≡ json.dumps (dict e)
      → json.loads (json.dumps v) ≡ json.loads (json.dumps w)
  same_field k d e v w hv hw p =
      let (d', rd, fd) = json.loads-dumps-dict d in
      let (e', re, fe) = json.loads-dumps-dict e in
      let same : d' ≡ e' = dict_injective (ok_injective (sym rd ∙ ap json.loads p ∙ re)) in
      let (v', gv, lv) = fd k v hv in
      let (w', gw, lw) = fe k w hw in
      let both : v' ≡ w' = some_injective (sym gv ∙ ap (get k) same ∙ gw) in
      lv ∙ ap ok both ∙ sym lw

  same_text :
      (k : String) (d e : Fields) (v w : String)
      → get k d ≡ some (str v)
      → get k e ≡ some (str w)
      → json.dumps (dict d) ≡ json.dumps (dict e)
      → v ≡ w
  same_text k d e v w hv hw p = str_injective (
      ok_injective (
        sym (json.loads-dumps-str v)
        ∙ same_field k d e (str v) (str w) hv hw p
        ∙ json.loads-dumps-str w))

  module _ (tenant : String) where
    -- Two rows that hold, with one hash, are the same event, after the same hash.
    same_hash :
        (p q : String) (a b : AuditRow json)
        → RowHolds json s tenant p a
        → RowHolds json s tenant q b
        → a.event_hash ≡ b.event_hash
        → (SameEvent a b × (p ≡ q)) ⊎ Collision
    same_hash p q a b (v, lv, ha, sa, pa) (w, lw, hb, sb, pb) e =
        let d = envelope tenant a.actor a.event_type v p a.created_at in
        let f = envelope tenant b.actor b.event_type w q b.created_at in
        elim (json.printed_discrete (json.dumps (dict d)) (json.dumps (dict f))) [
          | yes same ↦
              let link : p ≡ q = same_text "prev_hash" d f p q refl refl same in
              inl (
                (
                  same_text "actor" d f a.actor b.actor refl refl same,
                  same_text "event_type" d f a.event_type b.event_type refl refl same,
                  (v, w, lv, lw, same_field "payload" d f v w refl refl same),
                  same_text "created_at" d f a.created_at b.created_at refl refl same,
                  pa ∙ link ∙ sym pb,
                  e,
                  sa ∙ ap (s.hmac_sha256 s.signing_key) e ∙ sym sb,
                ),
                link,
              )
          | no differ ↦ inr (json.dumps (dict d), json.dumps (dict f), differ, sym ha ∙ e ∙ hb)
        ]

    chains_agree :
        (p q head : String) (xs ys : List (AuditRow json))
        → length xs ≡ length ys
        → IsChain json s tenant p xs head
        → IsChain json s tenant q ys head
        → (SameEvents xs ys × (p ≡ q)) ⊎ Collision
    chains_agree p q head [] [] n ha hb = inl (tt, ha ∙ sym hb)
    chains_agree p q head [] (b ∷ ys) n ha hb = absurd (omega arith)
    chains_agree p q head (a ∷ xs) [] n ha hb = absurd (omega arith)
    chains_agree p q head (a ∷ xs) (b ∷ ys) n (ra, ha) (rb, hb) =
        elim (chains_agree a.event_hash b.event_hash head xs ys (omega arith) ha hb) [
          | inr c ↦ inr c
          | inl (rest, e) ↦ elim (same_hash p q a b ra rb e) [
            | inr c ↦ inr c
            | inl (same, link) ↦ inl ((same, rest), link)
          ]
        ]

    -- If `verify_chain` reports two versions of a tenant's ledger valid with the same number of
    -- events and the same head, then they hold the same events, one by one: actor, type, payload,
    -- time, hashes and signature. Otherwise there are two different bodies with the same SHA-256
    -- hash, and the proof hands them over.
    pub tamper_evident :
        (rows rows' : List (AuditRow json)) (n : ℕ) (head : String)
        → verify_chain json s tenant rows ≡ ok (valid n head)
        → verify_chain json s tenant rows' ≡ ok (valid n head)
        → SameEvents (tenant_rows json s tenant rows) (tenant_rows json s tenant rows') ⊎ Collision
    tamper_evident rows rows' n head h h' =
        let k = chain_total json s tenant rows n head h in
        let k' = chain_total json s tenant rows' n head h' in
        let chain =
          (verify_chain_correct json s tenant rows head 0 0).0.0
            (subst (λ m. verify_chain json s tenant rows ≡ ok (valid m head)) k h) in
        let chain' =
          (verify_chain_correct json s tenant rows' head 0 0).0.0
            (subst (λ m. verify_chain json s tenant rows' ≡ ok (valid m head)) k' h') in
        elim (chains_agree genesis genesis head (tenant_rows json s tenant rows)
          (tenant_rows json s tenant rows') (sym k ∙ k') chain chain') [
            | inl (same, _) ↦ inl same
            | inr c ↦ inr c
          ]
