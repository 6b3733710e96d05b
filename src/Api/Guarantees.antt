-- ===== src/Api/Guarantees.antt =====
-- What app/main.py guarantees over any sequence of requests, with any failures between them.
use aurelian_autonomous_ente.Prelude.{
  ℕ, String, Text, inl, inr, ◌==◌, ◌&&◌, select, ◌≡◌, refl, ◌∙◌, List, [], ◌∷◌, ◌≤◌, All, true,
  false, ap, arith,
}
use aurelian_autonomous_ente.Auth.Roles.{Principal, has_scope}
use aurelian_autonomous_ente.World.Rows.{World}
use aurelian_autonomous_ente.Json.{Fields}
use aurelian_autonomous_ente.Result.{bind-eq-ok}
use aurelian_autonomous_ente.Tools.Specs.{has_side_effect}
use aurelian_autonomous_ente.Policy.Decision.{PolicyDecision, local_decision}
use aurelian_autonomous_ente.Policy.Evaluate.{evaluate, approval_authorized}
use aurelian_autonomous_ente.Policy.Approval.{approval_authorized_iff}
use aurelian_autonomous_ente.Policy.Shipped.{shipped_policy}
use aurelian_autonomous_ente.Policy.Effects.{shipped-no_effect}
use aurelian_autonomous_ente.World.Effects.{outside}
use aurelian_autonomous_ente.Engine.Run.{run}
use aurelian_autonomous_ente.Engine.Moves.{Moves-execute_approved}
use aurelian_autonomous_ente.Engine.RunMoves.{Moves-run}
use aurelian_autonomous_ente.Engine.Environment.{Env, decide_production, call_tool}
use aurelian_autonomous_ente.Engine.Frames.{Frame, Moves, Returns}
use aurelian_autonomous_ente.Engine.Once.{uses, IsOnce, once_frame, side_calls}
use aurelian_autonomous_ente.Engine.AtMostOnce.{Moves-execute-IsOnce}
use aurelian_autonomous_ente.Engine.RollbackOnce.{Moves-rollback-IsOnce, Moves-run-IsOnce}
use aurelian_autonomous_ente.Engine.Outage.{
  IsDown, calls_frame, execute_approved-calls, rollback-calls, run-calls,
}
use aurelian_autonomous_ente.Api.Requests.{Request, serve, serve_all}
use aurelian_autonomous_ente.Api.Moves.{serve-relates, MayRollBack}

serve-IsOnce :
    (env : Env) (p : Principal) (r : Request) (w : World) → IsOnce w → IsOnce (serve env p r w)
serve-IsOnce env p r w h =
    serve-relates once_frame env p
      (λ a d risk _. Moves-execute-IsOnce env a.task_id a.tool_name a.args p d.approval_tier risk)
      (λ id request. Moves-run-IsOnce env id p request) (λ task _. Moves-rollback-IsOnce env task p)
      r w h

serve_all-IsOnce :
    (rs : List (Env × Principal × Request)) (w : World) → IsOnce w → IsOnce (serve_all rs w)
unfolding serve_all
serve_all-IsOnce [] w h = h
serve_all-IsOnce ((env, p, r) ∷ rs) w h =
    serve_all-IsOnce rs (serve env p r w) (serve-IsOnce env p r w h)

-- From a world in which no tool was called, over any sequence of requests to create, approve, deny
-- and roll back and of recovery scans, with any statement failing or losing its reply and any
-- answers of the policy engine, planner and tools, each tenant's execution key has at most one call
-- of a tool with a side effect.
pub at_most_once :
    (rs : List (Env × Principal × Request)) (w : World) (tenant key : String)
    → w.calls ≡ []
    → uses tenant key (serve_all rs w) ≤ 1
at_most_once rs w tenant key h =
    (serve_all-IsOnce rs w (λ t k. rw h (ground arith, λ _. refl)) tenant key).0

-- While the policy engine is configured and fails on every query, no sequence of requests calls any
-- tool, not even for approvals given before and for rollbacks.
pub outage_calls_nothing :
    (rs : List (Env × Principal × Request)) (w : World)
    → All (λ r. IsDown r.0) rs
    → (serve_all rs w).calls ≡ w.calls
unfolding serve_all
outage_calls_nothing [] w h = refl
outage_calls_nothing ((env, p, r) ∷ rs) w (down, h) =
    outage_calls_nothing rs (serve env p r w) h
    ∙ serve-relates calls_frame env p
        (λ a d risk _.
          execute_approved-calls env down a.task_id p a.tool_name a.args d.approval_tier risk)
        (λ id request. run-calls env down id p request) (λ task _. rollback-calls env down task p) r
        w

-- No call of a tool with a side effect is added.
abbrev side_frame : Frame
side_frame = record {
  relates = λ w v. side_calls v ≡ side_calls w;
  near = λ w v n. ap (select (λ c. has_side_effect c.tool)) n.0;
  trans = λ u v w h k. k ∙ h;
}

-- A principal without a scope to approve, who may not roll back.
abbrev pub IsUnprivileged : Principal → Type 0
IsUnprivileged p =
    (has_scope "approve:team" p ≡ false)
    × (has_scope "approve:executive" p ≡ false)
    × (((p.role == "executive") && p.mfa) ≡ false)

unprivileged-authorizes :
    (p : Principal) (d : PolicyDecision) → IsUnprivileged p → (approval_authorized d p).0 ≡ true → ⊥
unprivileged-authorizes p d (team, executive, _) h = elim ((approval_authorized_iff d p).0 h).1 [
  | inl (_, s) ↦ cc
  | inr (_, s, _) ↦ cc
]

unprivileged-rolls : (p : Principal) → IsUnprivileged p → MayRollBack p → ⊥
unprivileged-rolls p (_, _, no_executive) may = ground arith

read_call-side :
    (env : Env) (tenant key tool : String) (args : Fields)
    → has_side_effect tool ≡ false
    → Moves side_frame (call_tool env tenant key tool args)
unfolding call_tool
read_call-side env tenant key tool args s = record { at = λ w. rw s refl }

-- The shipped policy, and no policy engine.
abbrev pub IsLocal : Env → Type 0
IsLocal env =
    (hash : String) × (env.policy ≡ shipped_policy hash) × ((n : ℕ) → (env.opa n).opa_url ≡ "")

local-allows :
    (env : Env) (action : String) (p : Principal) (risk : String) (d : PolicyDecision)
    → IsLocal env
    → Returns (decide_production env action p risk) d
    → d.allowed ≡ true
    → has_side_effect action ≡ false
unfolding decide_production outside evaluate
local-allows env action p risk d (hash, same, url) (w, h) a =
    let (d', e, rest) = bind-eq-ok (local_decision env.policy action p "production" risk) _ h in
    let no_url : ((env.opa w.tick).opa_url == "") ≡ true = rw (url w.tick) refl in
    let decided = rw no_url at rest in
    shipped-no_effect hash action p risk d (rw same at (e ∙ decided)) a

run-side :
    (env : Env) (p : Principal) (id : ℕ) (request : Text)
    → IsLocal env
    → Moves side_frame (run env id p request)
run-side env p id request h =
    Moves-run side_frame env id p
      (λ plan risk d x _ a.
        Moves-execute_approved side_frame env id plan.tool plan.args p
          (λ key.
            read_call-side env p.tenant_id key plan.tool plan.args
              (local-allows env plan.tool p risk d h x a))
          "none" risk)
      request

-- With the shipped policy and no policy engine, no sequence of requests by principals who have
-- neither a scope to approve nor an executive's role with MFA calls a tool with a side effect,
-- whatever the planner, the guard model and the approvals already in the tables.
pub unprivileged_no_effect :
    (rs : List (Env × Principal × Request)) (w : World)
    → All (λ r. IsLocal r.0 × IsUnprivileged r.1) rs
    → side_calls (serve_all rs w) ≡ side_calls w
unfolding serve_all
unprivileged_no_effect [] w h = refl
unprivileged_no_effect ((env, p, r) ∷ rs) w ((local, none_of), h) =
    unprivileged_no_effect rs (serve env p r w) h
    ∙ serve-relates side_frame env p
        (λ a d risk x. elim (unprivileged-authorizes p d none_of x) [ ])
        (λ id request. run-side env p id request local)
        (λ task may. elim (unprivileged-rolls p none_of may) [ ]) r w
