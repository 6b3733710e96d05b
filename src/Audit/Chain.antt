-- ===== src/Audit/Chain.antt =====
-- What `verify_chain` answers, against a description of a chain of rows.
use aurelian_autonomous_ente.Prelude.{
  ℕ, String, ◌≡◌, ◌↔◌, inl, inr, refl, sym, ap, false, List, [], ◌∷◌, ◌++◌, eq_iff, arith, length,
  Bool-cases, ◌∙◌, if◌then◌else◌,
}
use aurelian_autonomous_ente.Json.{Value}
use aurelian_autonomous_ente.Result.{ok, bind-eq-ok, ok_injective}
use aurelian_autonomous_ente.Audit.Crypto.{JsonText, Signing}
use aurelian_autonomous_ente.Audit.Ledger.{
  AuditRow, valid, invalid, event_body, row_fails, verify_from, verify_chain, tenant_rows, genesis,
}

module _ (json : JsonText) (s : Signing json) (tenant : String) where
  -- The row names the hash before it, hashes its content, and signs that hash.
  abbrev pub RowHolds : String → AuditRow json → Type 0
  RowHolds prev e =
      (payload : Value) × (json.loads e.payload_json ≡ ok payload)
      × (e.event_hash
          ≡ s.sha256 (event_body json tenant e.actor e.event_type payload prev e.created_at))
      × (e.signature ≡ s.hmac_sha256 s.signing_key e.event_hash)
      × (e.prev_hash ≡ prev)

  -- Rows that hold one after another, from the hash before them to the hash of the last.
  abbrev pub IsChain : String → List (AuditRow json) → String → Type 0
  IsChain prev [] head = prev ≡ head
  IsChain prev (e ∷ rest) head = RowHolds prev e × IsChain e.event_hash rest head

  passes-RowHolds :
      (prev : String) (e : AuditRow json) (payload : Value)
      → json.loads e.payload_json ≡ ok payload
      → row_fails json s tenant prev e payload ≡ false
      → RowHolds prev e
  passes-RowHolds prev e payload l h =
      let x = s.sha256 (event_body json tenant e.actor e.event_type payload prev e.created_at) in
      let same : x ≡ e.event_hash = ground (arith, eq_iff x e.event_hash) in
      let signed : s.hmac_sha256 s.signing_key x ≡ e.signature =
        ground (arith, eq_iff (s.hmac_sha256 s.signing_key x) e.signature) in
      (payload, l, sym same, rw (← same) (sym signed), ground (arith, eq_iff e.prev_hash prev))

  RowHolds-passes :
      (prev : String) (e : AuditRow json) (payload : Value)
      → json.loads e.payload_json ≡ ok payload
      → RowHolds prev e
      → row_fails json s tenant prev e payload ≡ false
  RowHolds-passes prev e payload l (other, l', hash, sign, link) =
      let same : other ≡ payload = ok_injective (sym l' ∙ l) in
      let x = s.sha256 (event_body json tenant e.actor e.event_type payload prev e.created_at) in
      let hash' : e.event_hash ≡ x = rw same at hash in
      ground (
        arith,
        eq_iff x e.event_hash,
        eq_iff (s.hmac_sha256 s.signing_key x) e.signature,
        eq_iff e.prev_hash prev,
      )

  module _ (total : ℕ) where
    verify_step :
        (prev : String) (e : AuditRow json) (rest : List (AuditRow json)) {payload : Value}
        → json.loads e.payload_json ≡ ok payload
        → verify_from json s tenant total prev (e ∷ rest) ≡ (
            if row_fails json s tenant prev e payload
            then ok (invalid total e.id)
            else verify_from json s tenant total e.event_hash rest)
    unfolding verify_from
    verify_step prev e rest l = rw l

    verify_from_sound :
        (prev head : String) (rows : List (AuditRow json))
        → verify_from json s tenant total prev rows ≡ ok (valid total head)
        → IsChain prev rows head
    unfolding verify_from
    verify_from_sound prev head [] h = ground arith
    verify_from_sound prev head (e ∷ rest) h =
        let (payload, l, step) = bind-eq-ok (json.loads e.payload_json) _ h in
        elim (Bool-cases (row_fails json s tenant prev e payload)) [
          | inl fails ↦ absurd (ground (arith, rw fails at step))
          | inr passes ↦ (
            passes-RowHolds prev e payload l passes,
            verify_from_sound e.event_hash head rest (rw passes at step),
          )
        ]

    verify_from_complete :
        (prev head : String) (rows : List (AuditRow json))
        → IsChain prev rows head
        → verify_from json s tenant total prev rows ≡ ok (valid total head)
    unfolding verify_from
    verify_from_complete prev head [] h = rw h
    verify_from_complete prev head (e ∷ rest) (holds, chain) = rw (holds.1) (
        rw (RowHolds-passes prev e holds.0 holds.1 holds)
          (verify_from_complete e.event_hash head rest chain))

    -- The row at which the loop stops: those before it form a chain up to a hash, and it does not
    -- hold after that hash.
    abbrev pub FailsAt : String → List (AuditRow json) → ℕ → Type 0
    FailsAt prev rows id =
        (before : List (AuditRow json)) × (e : AuditRow json) × (after : List (AuditRow json))
        × (mid : String) × (rows ≡ before ++ e ∷ after)
        × IsChain prev before mid
        × (¬ RowHolds mid e)
        × (e.id ≡ id)

    verify_from_invalid :
        (prev : String) (rows : List (AuditRow json)) (n id : ℕ)
        → verify_from json s tenant total prev rows ≡ ok (invalid n id)
        → FailsAt prev rows id
    unfolding verify_from
    verify_from_invalid prev [] n id h = absurd (ground arith)
    verify_from_invalid prev (e ∷ rest) n id h =
        let (payload, l, step) = bind-eq-ok (json.loads e.payload_json) _ h in
        elim (Bool-cases (row_fails json s tenant prev e payload)) [
          | inl fails ↦ (
            [],
            e,
            rest,
            prev,
            refl,
            refl,
            (λ holds. cc (fails, RowHolds-passes prev e payload l holds)),
            ground (arith, rw fails at step),
          )
          | inr passes ↦
              let (before, x, after, mid, split, chain, broken, same) =
                verify_from_invalid e.event_hash rest n id (rw passes at step) in
              (
                e ∷ before,
                x,
                after,
                mid,
                ap (λ z. e ∷ z) split,
                (passes-RowHolds prev e payload l passes, chain),
                broken,
                same,
              )
        ]

  -- `verify_chain` reports a valid chain exactly where the tenant's rows form a chain from
  -- "GENESIS", with their number and their head. Where it reports a failure, the id is that of a row
  -- that does not hold after the chain of all rows before it.
  pub verify_chain_correct :
      (rows : List (AuditRow json)) (head : String) (n id : ℕ)
      → let events = tenant_rows json s tenant rows in
        ((verify_chain json s tenant rows ≡ ok (valid (length events) head))
          ↔ IsChain genesis events head)
        × (verify_chain json s tenant rows ≡ ok (invalid n id)
            → FailsAt (length events) genesis events id)
  unfolding verify_chain
  verify_chain_correct rows head n id =
      let events = tenant_rows json s tenant rows in
      (
        (
          verify_from_sound (length events) genesis head events,
          verify_from_complete (length events) genesis head events,
        ),
        verify_from_invalid (length events) genesis events n id,
      )

  -- A valid report gives the number of the tenant's rows.
  verify_from_total :
      (total : ℕ) (prev : String) (rows : List (AuditRow json)) (n : ℕ) (head : String)
      → verify_from json s tenant total prev rows ≡ ok (valid n head)
      → n ≡ total
  unfolding verify_from
  verify_from_total total prev [] n head h = ground arith
  verify_from_total total prev (e ∷ rest) n head h =
      let (payload, l, step) = bind-eq-ok (json.loads e.payload_json) _ h in
      elim (Bool-cases (row_fails json s tenant prev e payload)) [
        | inl fails ↦ absurd (ground (arith, rw fails at step))
        | inr passes ↦ verify_from_total total e.event_hash rest n head (rw passes at step)
      ]

  pub chain_total :
      (rows : List (AuditRow json)) (n : ℕ) (head : String)
      → verify_chain json s tenant rows ≡ ok (valid n head)
      → n ≡ length (tenant_rows json s tenant rows)
  unfolding verify_chain
  chain_total rows n head h =
      verify_from_total (length (tenant_rows json s tenant rows)) genesis
        (tenant_rows json s tenant rows) n head h
