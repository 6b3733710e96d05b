-- ===== src/Api/RecoveryMoves.antt =====
-- The recovery scan of app/main.py calls nothing and brings nothing back.
use aurelian_autonomous_ente.Prelude.{ℕ, String, refl, Bool, ◌&&◌}
use aurelian_autonomous_ente.World.Rows.{ApprovalStatus, ExecutionStatus}
use aurelian_autonomous_ente.World.Statements.Approvals.{is_approval}
use aurelian_autonomous_ente.World.Statements.Executions.{has_key}
use aurelian_autonomous_ente.World.Statements.Recovery.{
  is_executing_approval, is_execution, select_stale_approvals, expire_approval,
  select_stale_executions, expire_execution, select_stale_compensations, select_orphans,
  expire_task,
}
use aurelian_autonomous_ente.Engine.Decided.{decided-update}
use aurelian_autonomous_ente.Engine.Frames.{IsMild}
use aurelian_autonomous_ente.Engine.Statements.{any-update_where, mild_rules}
use aurelian_autonomous_ente.Prelude.{List, [], ◌∷◌}
use aurelian_autonomous_ente.World.Rows.{ApprovalRow, ExecutionRow, CompensationRow, TaskRow}
use aurelian_autonomous_ente.World.Effects.{Effect}
use aurelian_autonomous_ente.Engine.Environment.{Env}
use aurelian_autonomous_ente.Engine.Frames.{Frame, Moves, moves_rules, Moves-bind}
use aurelian_autonomous_ente.Api.Recovery.{
  Summary, Scan, each, recover_task, recover_approval, recover_execution, recover_compensation,
  recover_orphan, note_scan, recover_tenant, recover_tenants, select_tenants, reconcile_stale_state,
}

-- Statements of the recovery scan.
pub IsMild-select_stale_approvals :
    (v : Bool × String) (n : ℕ) → IsMild (select_stale_approvals v n)
IsMild-select_stale_approvals v n = record { at = λ w. (refl, (λ _ _ h. h), λ _ _ h. h) }

pub IsMild-select_stale_executions :
    (v : Bool × String) (n : ℕ) → IsMild (select_stale_executions v n)
IsMild-select_stale_executions v n = record { at = λ w. (refl, (λ _ _ h. h), λ _ _ h. h) }

pub IsMild-select_stale_compensations :
    (v : Bool × String) (n : ℕ) → IsMild (select_stale_compensations v n)
IsMild-select_stale_compensations v n = record { at = λ w. (refl, (λ _ _ h. h), λ _ _ h. h) }

pub IsMild-select_orphans : (v : Bool × String) (n : ℕ) → IsMild (select_orphans v n)
IsMild-select_orphans v n = record { at = λ w. (refl, (λ _ _ h. h), λ _ _ h. h) }

pub IsMild-expire_task : (t : String) (id now : ℕ) → IsMild (expire_task t id now)
unfolding expire_task
IsMild-expire_task t id now = record { at = λ w. (refl, (λ _ _ h. h), λ _ _ h. h) }

pub IsMild-expire_approval : (t : String) (id : ℕ) → IsMild (expire_approval t id)
unfolding expire_approval
IsMild-expire_approval t id = record {
  at = λ w. (
    refl,
    (λ _ _ h. h),
    λ t' i h.
        decided-update (is_approval t' i) (λ a. is_approval t id a && is_executing_approval a)
          (λ a. record a { status = ApprovalStatus.recovery_required }) w.approvals (λ _. refl)
          (λ _. refl) h,
  );
}

pub IsMild-expire_execution : (t : String) (id : ℕ) → IsMild (expire_execution t id)
unfolding expire_execution
IsMild-expire_execution t id = record {
  at = λ w. (
    refl,
    (λ t' k' h.
        any-update_where (has_key t' k') (is_execution t id)
          (λ e. record e { status = ExecutionStatus.execution_unknown }) w.executions (λ _. refl)
          h),
    λ _ _ h. h,
  );
}

pub ruleset recovery_rules = (
  IsMild-select_stale_approvals, IsMild-select_stale_executions, IsMild-select_stale_compensations,
  IsMild-select_orphans, IsMild-expire_task, IsMild-expire_approval, IsMild-expire_execution,
)

IsMild-select_tenants : (scan : Scan) → IsMild (select_tenants scan)
IsMild-select_tenants scan = record { at = λ w. (refl, (λ _ _ h. h), λ _ _ h. h) }

module _ (F : Frame) where
  Moves-each :
      {A : Type 0} (f : A → Effect ℕ) (rows : List A)
      → ((a : A) → Moves F (f a))
      → Moves F (each f rows)
  Moves-each f [] h = search moves_rules
  Moves-each f (a ∷ rows) h =
      Moves-bind F _ _ (h a) (λ n. Moves-bind F _ _ (Moves-each f rows h) (λ m. search moves_rules))

  module _ (env : Env) (scan : Scan) (tenant : String) where
    Moves-recover_task : (task : ℕ) → Moves F (recover_task env scan tenant task)
    unfolding recover_task
    Moves-recover_task task = search (mild_rules, moves_rules)

    Moves-recover_approval : (a : ApprovalRow) → Moves F (recover_approval env scan tenant a)
    unfolding recover_approval
    Moves-recover_approval a = search (Moves-recover_task, recovery_rules, moves_rules)

    Moves-recover_execution : (e : ExecutionRow) → Moves F (recover_execution env scan tenant e)
    unfolding recover_execution
    Moves-recover_execution e = search (Moves-recover_task, recovery_rules, moves_rules)

    Moves-recover_compensation :
        (c : CompensationRow) → Moves F (recover_compensation env scan tenant c)
    unfolding recover_compensation
    Moves-recover_compensation c = search (Moves-recover_task, mild_rules, moves_rules)

    Moves-recover_orphan : (t : TaskRow) → Moves F (recover_orphan env scan tenant t)
    unfolding recover_orphan
    Moves-recover_orphan t = search (recovery_rules, moves_rules)

    Moves-note_scan : (s : Summary) → Moves F (note_scan env scan tenant s)
    unfolding note_scan
    Moves-note_scan s = search (mild_rules, moves_rules)

    Moves-recover_tenant : Moves F (recover_tenant env scan tenant)
    unfolding recover_tenant
    Moves-recover_tenant = Moves-bind F _ _ (search (recovery_rules, moves_rules)) (λ stale.
        Moves-bind F _ _ (Moves-each _ stale Moves-recover_approval) (λ a.
          Moves-bind F _ _ (search (recovery_rules, moves_rules)) (λ stale.
            Moves-bind F _ _ (Moves-each _ stale Moves-recover_execution) (λ e.
              Moves-bind F _ _ (search (recovery_rules, moves_rules)) (λ stale.
                Moves-bind F _ _ (Moves-each _ stale Moves-recover_compensation) (λ c.
                  Moves-bind F _ _ (search (recovery_rules, moves_rules)) (λ orphans.
                    Moves-bind F _ _ (Moves-each _ orphans Moves-recover_orphan)
                      (λ t. search (Moves-note_scan, moves_rules)))))))))

  Moves-recover_tenants :
      (env : Env) (scan : Scan) (tenants : List String) → Moves F (recover_tenants env scan tenants)
  Moves-recover_tenants env scan [] = search moves_rules
  Moves-recover_tenants env scan (t ∷ ts) =
      Moves-bind F _ _ (Moves-recover_tenant env scan t)
        (λ s. Moves-bind F _ _ (Moves-recover_tenants env scan ts) (λ rest. search moves_rules))

  pub Moves-reconcile : (env : Env) (scan : Scan) → Moves F (reconcile_stale_state env scan)
  unfolding reconcile_stale_state
  Moves-reconcile env scan = search (IsMild-select_tenants, Moves-recover_tenants, moves_rules)
