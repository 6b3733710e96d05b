-- ===== src/Reads/Own.antt =====
-- What a reading request is answered depends on the rows of the asker's tenant alone.
use aurelian_autonomous_ente.Prelude.{
  ℕ, String, ◌≡◌, inl, inr, refl, ap, Bool, ◌&&◌, List, [], ◌∷◌, Option, none, some, ◌==◌, eqb,
  select, find, Bool-cases,
}
use aurelian_autonomous_ente.Floats.{Floats}
use aurelian_autonomous_ente.Auth.Roles.{Principal}
use aurelian_autonomous_ente.Audit.Crypto.{JsonText, Signing}
use aurelian_autonomous_ente.Audit.Ledger.{AuditRow, tenant_rows, verify_chain}
use aurelian_autonomous_ente.World.Rows.{
  TaskRow, CheckpointRow, ApprovalRow, ExecutionRow, CompensationRow, ProductRow, CustomerRow,
  OrderRow, IncidentRow, Store, World,
}
use aurelian_autonomous_ente.Reads.Listings.{
  approval_text, is_open_execution, is_open_compensation, needs_recovery, ReadRequest, overview,
  products, customers, orders, incidents, recovery_queue, audit_verify, task, approvals, audit,
  traces, get_overview, after_task, get_task, get_recovery_queue, get_audit, serve_read,
}

-- To select the tenant's rows first changes nothing for a test that only they pass.
module _ {A : Type 0} (own : A → Bool) where
  select-own :
      (t : A → Bool) (xs : List A)
      → select (λ x. own x && t x) (select own xs) ≡ select (λ x. own x && t x) xs
  select-own t [] = refl
  select-own t (x ∷ xs) = elim (Bool-cases (own x)) [
    | inr foreign ↦ rw foreign (select-own t xs)
    | inl mine ↦
        rw (mine, mine)
          (elim (Bool-cases (t x)) [
            | inl yes_ ↦ rw yes_ (ap (λ l. x ∷ l) (select-own t xs))
            | inr no_ ↦ rw no_ (select-own t xs)
          ])
  ]

  select_self : (xs : List A) → select own (select own xs) ≡ select own xs
  select_self [] = refl
  select_self (x ∷ xs) = elim (Bool-cases (own x)) [
    | inr foreign ↦ rw foreign (select_self xs)
    | inl mine ↦ rw (mine, mine) (ap (λ l. x ∷ l) (select_self xs))
  ]

  find-own :
      (t : A → Bool) (xs : List A)
      → find (λ x. own x && t x) (select own xs) ≡ find (λ x. own x && t x) xs
  find-own t [] = refl
  find-own t (x ∷ xs) = elim (Bool-cases (own x)) [
    | inr foreign ↦ rw foreign (find-own t xs)
    | inl mine ↦
        rw (mine, mine)
          (elim (Bool-cases (t x)) [ inl yes_ ↦ rw yes_ refl | inr no_ ↦ rw no_ (find-own t xs) ])
  ]

-- The world with the rows of one tenant only.
abbrev pub own_world : String → World → World
own_world tenant w =
    let rows : Store = record {
      incidents = select (λ (r : IncidentRow). r.tenant_id == tenant) w.store.incidents;
      products = select (λ (r : ProductRow). r.tenant_id == tenant) w.store.products;
      customers = select (λ (r : CustomerRow). r.tenant_id == tenant) w.store.customers;
      orders = select (λ (r : OrderRow). r.tenant_id == tenant) w.store.orders;
    } in
    record w {
      tasks = select (λ (r : TaskRow). r.tenant_id == tenant) w.tasks;
      checkpoints = select (λ (r : CheckpointRow). r.tenant_id == tenant) w.checkpoints;
      approvals = select (λ (r : ApprovalRow). r.tenant_id == tenant) w.approvals;
      executions = select (λ (r : ExecutionRow). r.tenant_id == tenant) w.executions;
      compensations = select (λ (r : CompensationRow). r.tenant_id == tenant) w.compensations;
      store = rows;
    }

module _ (fl : Floats) (json : JsonText) (s : Signing json) (p : Principal)
    (ledger : List (AuditRow json)) (w : World) where
  abbrev pub own_ledger : List (AuditRow json)
  own_ledger = tenant_rows json s p.tenant_id ledger

  chain-own : verify_chain json s p.tenant_id own_ledger ≡ verify_chain json s p.tenant_id ledger
  unfolding verify_chain
  chain-own = rw (select_self (λ (r : AuditRow json). r.tenant_id == p.tenant_id) ledger) refl

  overview-own :
      get_overview fl json s p own_ledger (own_world p.tenant_id w)
      ≡ get_overview fl json s p ledger w
  unfolding get_overview
  overview-own =
      rw
        (
          chain-own,
          select_self (λ (r : ProductRow). r.tenant_id == p.tenant_id) w.store.products,
          select_self (λ (r : OrderRow). r.tenant_id == p.tenant_id) w.store.orders,
          select_self (λ (r : IncidentRow). r.tenant_id == p.tenant_id) w.store.incidents,
          select-own (λ (r : ApprovalRow). r.tenant_id == p.tenant_id)
              (λ (r : ApprovalRow). approval_text r.status == "pending") w.approvals,
        )
        refl

  task-own :
      (id : ℕ)
      → get_task fl json s p own_ledger (own_world p.tenant_id w) id
        ≡ get_task fl json s p ledger w id
  unfolding get_task
  task-own id =
      let own = λ (r : TaskRow). r.tenant_id == p.tenant_id in
      rw (find-own own (λ (t : TaskRow). eqb t.id id) w.tasks)
        (found (find (λ (t : TaskRow). own t && eqb t.id id) w.tasks))
    where
      found :
          (o : Option TaskRow)
          → after_task fl json s p own_ledger (own_world p.tenant_id w) o
            ≡ after_task fl json s p ledger w o
      found none = refl
      found (some t) =
          rw
            (select-own (λ (c : CheckpointRow). c.tenant_id == p.tenant_id)
              (λ (c : CheckpointRow). eqb c.task_id t.id) w.checkpoints)
            refl

  recovery-own :
      get_recovery_queue fl json s p own_ledger (own_world p.tenant_id w)
      ≡ get_recovery_queue fl json s p ledger w
  unfolding get_recovery_queue
  recovery-own =
      rw
        (
          select-own (λ (t : TaskRow). t.tenant_id == p.tenant_id)
              (λ (t : TaskRow). needs_recovery t.status) w.tasks,
          select-own (λ (e : ExecutionRow). e.tenant_id == p.tenant_id)
              (λ (e : ExecutionRow). is_open_execution e.status) w.executions,
          select-own (λ (c : CompensationRow). c.tenant_id == p.tenant_id)
              (λ (c : CompensationRow). is_open_compensation c.status) w.compensations,
        )
        refl

  audit-own :
      (limit : ℕ)
      → get_audit fl json s p own_ledger (own_world p.tenant_id w) limit
        ≡ get_audit fl json s p ledger w limit
  unfolding get_audit
  audit-own limit =
      rw (chain-own, select_self (λ (r : AuditRow json). r.tenant_id == p.tenant_id) ledger) refl

  -- Whatever a request reads, its answer is the same if every row of another tenant is taken out of
  -- the tables and the ledger first.
  pub serve_read-own :
      (r : ReadRequest)
      → serve_read fl json s p own_ledger (own_world p.tenant_id w) r
        ≡ serve_read fl json s p ledger w r
  unfolding serve_read
  serve_read-own overview = overview-own
  serve_read-own products =
      rw (select_self (λ (r : ProductRow). r.tenant_id == p.tenant_id) w.store.products) refl
  serve_read-own customers =
      rw (select_self (λ (r : CustomerRow). r.tenant_id == p.tenant_id) w.store.customers) refl
  serve_read-own orders =
      rw (select_self (λ (r : OrderRow). r.tenant_id == p.tenant_id) w.store.orders) refl
  serve_read-own incidents =
      rw (select_self (λ (r : IncidentRow). r.tenant_id == p.tenant_id) w.store.incidents) refl
  serve_read-own recovery_queue = recovery-own
  serve_read-own audit_verify = rw chain-own refl
  serve_read-own (task id) = task-own id
  serve_read-own (approvals status) =
      rw
        (select-own (λ (r : ApprovalRow). r.tenant_id == p.tenant_id)
          (λ (r : ApprovalRow). approval_text r.status == status) w.approvals)
        refl
  serve_read-own (audit limit) = audit-own limit
  serve_read-own (traces limit) =
      rw (select_self (λ (c : CheckpointRow). c.tenant_id == p.tenant_id) w.checkpoints) refl
