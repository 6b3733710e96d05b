-- ===== src/Audit/Append.antt =====
-- Appending keeps every tenant's chain valid, so a ledger that only `append_audit` wrote verifies.
use mathlib.Core.List.{append-nil}
use aurelian_autonomous_ente.Prelude.{
  ℕ, suc, ◌+◌, String, ◌≡◌, refl, sym, ap, subst, Bool, List, [], ◌∷◌, ◌++◌, ◌==◌, eq_iff, arith,
  length, length-append, select, Bool-cases, ◌∙◌, if◌then◌else◌, inl, inr,
}
use aurelian_autonomous_ente.Json.{nat, str, field, end}
use aurelian_autonomous_ente.Result.{ok}
use aurelian_autonomous_ente.Audit.Crypto.{JsonText, Signing}
use aurelian_autonomous_ente.Audit.Ledger.{
  AuditRow, Event, valid, signed_row, append_audit, verify_chain, tenant_rows, last_hash, genesis,
}
use aurelian_autonomous_ente.Audit.Chain.{RowHolds, IsChain, verify_chain_correct}

select-append :
    {A : Type 0} (f : A → Bool) (xs ys : List A) → select f (xs ++ ys) ≡ select f xs ++ select f ys
select-append f [] ys = refl
select-append f (x ∷ xs) ys = elim (Bool-cases (f x)) [
  | inl keep ↦ rw keep (ap (λ z. x ∷ z) (select-append f xs ys))
  | inr drop ↦ rw drop (select-append f xs ys)
]

module _ (json : JsonText) (s : Signing json) where
  module _ (tenant : String) where
    last_hash-IsChain :
        (prev head : String) (rows : List (AuditRow json))
        → IsChain json s tenant prev rows head
        → last_hash json s prev rows ≡ head
    last_hash-IsChain prev head [] h = h
    last_hash-IsChain prev head (e ∷ rest) h = last_hash-IsChain e.event_hash head rest h.1

    IsChain-snoc :
        (prev mid : String) (rows : List (AuditRow json)) (r : AuditRow json)
        → IsChain json s tenant prev rows mid
        → RowHolds json s tenant mid r
        → IsChain json s tenant prev (rows ++ r ∷ []) r.event_hash
    IsChain-snoc prev mid [] r h holds =
        (subst (λ x. RowHolds json s tenant x r) (sym h) holds, refl)
    IsChain-snoc prev mid (e ∷ rest) r h holds =
        (h.0, IsChain-snoc e.event_hash mid rest r h.1 holds)

  -- A freshly signed row holds, also with its payload read back from the print.
  signed_row-RowHolds :
      (id : ℕ) (e : Event) (prev : String)
      → RowHolds json s e.tenant_id prev (signed_row json s id e prev)
  signed_row-RowHolds id e prev =
      let (w, l) = json.loads-dumps e.payload in
      (
        w,
        l,
        ap s.sha256 (
            sym (
              json.dumps-reread
                (field "v" (nat 1) (
                  field "tenant_id" (str e.tenant_id)
                    (field "actor" (str e.actor) (field "event_type" (str e.event_type) end))))
                (field "prev_hash" (str prev) (field "created_at" (str e.created_at) end)) "payload"
                e.payload w l)),
        refl,
        refl,
      )

  pub append_rows :
      (e : Event) (tenant : String) (rows : List (AuditRow json))
      → tenant_rows json s tenant (append_audit json s e rows) ≡ (
          if e.tenant_id == tenant
          then tenant_rows json s tenant rows
            ++ signed_row json s
                (suc (length rows))
                e
                (last_hash json s genesis (tenant_rows json s e.tenant_id rows))
              ∷ []
          else tenant_rows json s tenant rows)
  unfolding append_audit
  append_rows e tenant rows = elim (Bool-cases (e.tenant_id == tenant)) [
    | inl own ↦ rw own (rw select-append (rw own))
    | inr other ↦
        rw other (rw select-append (rw other (append-nil (tenant_rows json s tenant rows))))
  ]

  -- Appending an event leaves every tenant with a chain.
  append-IsChain :
      (e : Event) (tenant head : String) (rows : List (AuditRow json))
      → IsChain json s tenant genesis (tenant_rows json s tenant rows) head
      → (head' : String) × IsChain json s tenant genesis
          (tenant_rows json s tenant (append_audit json s e rows))
          head'
        × (length (tenant_rows json s tenant (append_audit json s e rows))
            ≡ length (tenant_rows json s tenant rows) + (if e.tenant_id == tenant then 1 else 0))
  append-IsChain e tenant head rows h = elim (Bool-cases (e.tenant_id == tenant)) [
    | inl own ↦
        let same : e.tenant_id ≡ tenant = (eq_iff e.tenant_id tenant).0 own in
        let prev = last_hash json s genesis (tenant_rows json s e.tenant_id rows) in
        let r = signed_row json s (suc (length rows)) e prev in
        let is_last : prev ≡ head =
          subst (λ t. last_hash json s genesis (tenant_rows json s t rows) ≡ head) (sym same)
            (last_hash-IsChain tenant genesis head (tenant_rows json s tenant rows) h) in
        let holds : RowHolds json s tenant head r =
          subst (λ x. RowHolds json s tenant x r) is_last
            (subst (λ t. RowHolds json s t prev r) same
              (signed_row-RowHolds (suc (length rows)) e prev)) in
        (
          r.event_hash,
          rw append_rows (
              rw own (IsChain-snoc tenant genesis head (tenant_rows json s tenant rows) r h holds)),
          rw append_rows (rw own (length-append (tenant_rows json s tenant rows) (r ∷ []))),
        )
    | inr other ↦ (head, rw append_rows (rw other h), rw append_rows (rw other (omega arith)))
  ]

  -- The ledger after a run of appends.
  unfoldable pub append_all : List Event → List (AuditRow json) → List (AuditRow json)
  append_all [] rows = rows
  append_all (e ∷ es) rows = append_all es (append_audit json s e rows)

  append_all-IsChain :
      (tenant head : String) (es : List Event) (rows : List (AuditRow json))
      → IsChain json s tenant genesis (tenant_rows json s tenant rows) head
      → (head' : String) × IsChain json s tenant genesis
          (tenant_rows json s tenant (append_all es rows))
          head'
        × (length (tenant_rows json s tenant (append_all es rows))
            ≡ length (tenant_rows json s tenant rows)
              + length (select (λ (e : Event). e.tenant_id == tenant) es))
  unfolding append_all
  append_all-IsChain tenant head [] rows h = (head, h, omega arith)
  append_all-IsChain tenant head (e ∷ es) rows h =
      let (mid, chain, n) = append-IsChain e tenant head rows h in
      let (last, whole, m) = append_all-IsChain tenant mid es (append_audit json s e rows) chain in
      (last, whole, ground (arith, n, m))

  -- After any run of appends to an empty ledger, for whatever tenants in whatever order, the chain
  -- of every tenant is reported valid, with exactly the number of events appended for that tenant.
  pub append_all_verifies :
      (events : List Event) (tenant : String)
      → (head : String) × (verify_chain json s tenant (append_all events [])
          ≡ ok (valid (length (select (λ (e : Event). e.tenant_id == tenant) events)) head))
  append_all_verifies events tenant =
      let (head, chain, n) = append_all-IsChain tenant genesis events [] refl in
      let rows = append_all events [] in
      let valid_chain = (verify_chain_correct json s tenant rows head 0 0).0.1 chain in
      (
        head,
        subst (λ k. verify_chain json s tenant rows ≡ ok (valid k head)) (n ∙ omega arith)
            valid_chain,
      )
