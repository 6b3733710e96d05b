-- ===== src/World/Statements/Approvals.antt =====
-- Statements on `approvals`.
use aurelian_autonomous_ente.Prelude.{
  ℕ, suc, String, Bool, true, false, ◌&&◌, [], ◌∷◌, ◌++◌, Option, none, some, ◌==◌, eqb, length,
  find, update_where, count_where,
}
use aurelian_autonomous_ente.Json.{Fields}
use aurelian_autonomous_ente.World.Rows.{World, ApprovalRow, ApprovalStatus}

abbrev pub is_approval : String → ℕ → ApprovalRow → Bool
is_approval tenant id a = a.tenant_id == tenant && eqb a.id id

abbrev pub is_pending : ApprovalRow → Bool
is_pending a = elim a.status [ ApprovalStatus.pending ↦ true | _ ↦ false ]

abbrev pub select_approval : String → ℕ → World → Option ApprovalRow × World
select_approval tenant id w = (find (is_approval tenant id) w.approvals, w)

abbrev pub new_approval :
    ℕ → String → ℕ → String → Fields → String → String → String → String → ApprovalRow
new_approval id tenant task tool args actor role tier reason = record {
  id = id;
  tenant_id = tenant;
  task_id = task;
  tool_name = tool;
  args = args;
  actor = actor;
  requester_role = role;
  approval_tier = tier;
  status = ApprovalStatus.pending;
  reason = reason;
  reviewed_by = none;
  started_at = none;
}

unfoldable pub insert_approval :
    String → ℕ → String → Fields → String → String → String → String → World → ℕ × World
insert_approval tenant task tool args actor role tier reason w =
    let id = suc (length w.approvals) in
    (
      id,
      record w {
        approvals =
            w.approvals ++ new_approval id tenant task tool args actor role tier reason ∷ [];
      },
    )

-- The rows that a compare-and-set of this approval finds.
abbrev pub pending_here : String → ℕ → ApprovalRow → Bool
pending_here tenant id a = is_approval tenant id a && is_pending a

-- `UPDATE approvals SET status='executing',... AND status='pending'`
unfoldable pub claim_approval : String → ℕ → String → ℕ → World → ℕ × World
claim_approval tenant id reviewer now w = (
  count_where (pending_here tenant id) w.approvals,
  record w {
    approvals =
        update_where (pending_here tenant id)
          (λ a. record a {
            status = ApprovalStatus.executing;
            reviewed_by = some reviewer;
            started_at = some now;
          })
          w.approvals;
  },
)

-- `UPDATE approvals SET status='denied',... AND status='pending'`
unfoldable pub deny_approval : String → ℕ → String → World → ℕ × World
deny_approval tenant id reviewer w = (
  count_where (pending_here tenant id) w.approvals,
  record w {
    approvals =
        update_where (pending_here tenant id)
          (λ a. record a { status = ApprovalStatus.denied; reviewed_by = some reviewer })
          w.approvals;
  },
)

-- `UPDATE approvals SET status=? WHERE tenant_id=? AND id=?`
unfoldable pub set_approval_status : String → ℕ → ApprovalStatus → World → Unit {0} × World
set_approval_status tenant id status w = (
  tt,
  record w {
    approvals =
        update_where (is_approval tenant id) (λ a. record a { status = status }) w.approvals;
  },
)
