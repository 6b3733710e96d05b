-- ===== src/Api/Finality.antt =====
-- A decided approval stays decided over the requests of app/main.py.
use aurelian_autonomous_ente.Prelude.{
  ℕ, String, ◌≡◌, ◌≢◌, sym, subst, true, List, [], ◌∷◌, Option, none, some, inl, inr, Bool-cases,
}
use aurelian_autonomous_ente.Result.{ok}
use aurelian_autonomous_ente.Auth.Roles.{Principal}
use aurelian_autonomous_ente.World.Rows.{World, ApprovalRow, Outcome}
use aurelian_autonomous_ente.World.Effects.{statement, advance}
use aurelian_autonomous_ente.World.Statements.Approvals.{is_pending, select_approval}
use aurelian_autonomous_ente.Engine.Environment.{Env, query}
use aurelian_autonomous_ente.Engine.Frames.{is_decided, has_decided}
use aurelian_autonomous_ente.Api.Moves.{serve-relates}
use aurelian_autonomous_ente.Api.Approvals.{review_pending, approve}
use aurelian_autonomous_ente.Api.Requests.{Request, serve, serve_all}
use aurelian_autonomous_ente.Api.Decides.{
  bind-Through, commit-ok, decided_frame, execute-decided, run-decided, rollback-decided,
  approve-Decides,
}

module _ (env : Env) (p : Principal) where
  -- A decided approval is refused.
  decided-refused :
      (id : ℕ) (a : Option ApprovalRow) (v : World) (o : Outcome)
      → is_decided a ≡ true
      → (review_pending env p a v).0 ≡ ok o
      → ⊥
  unfolding review_pending
  decided-refused id none v o d h = cc
  decided-refused id (some a) v o d h = elim (Bool-cases (is_pending a)) [
    | inl x ↦ cc (rw x at d)
    | inr x ↦ cc (rw x at h)
  ]

  approve-refused :
      (id : ℕ) (w : World) (o : Outcome)
      → has_decided p.tenant_id id w ≡ true
      → (approve env p id w).0 ≡ ok o
      → ⊥
  unfolding approve query statement
  approve-refused id w o d h =
      let (a, e, r, _) =
        bind-Through (query env (select_approval p.tenant_id id)) (review_pending env p) w o h in
      let (found, _) = commit-ok (env.fault w.tick) _ (advance w) a e in
      decided-refused id a _ o (subst (λ x. is_decided x ≡ true) found d) r

serve_all-decided :
    (rs : List (Env × Principal × Request)) (w : World) (t : String) (id : ℕ)
    → has_decided t id w ≡ true
    → has_decided t id (serve_all rs w) ≡ true
unfolding serve_all
serve_all-decided [] w t id h = h
serve_all-decided ((env, p, r) ∷ rs) w t id h = serve_all-decided rs (serve env p r w) t id (
    serve-relates (decided_frame t id) env p (λ a d risk _. execute-decided env p t id a d risk)
      (λ i request. run-decided env p t id i request) (λ task _. rollback-decided env p t id task) r
      w h)

-- Once a request to approve has returned a result, no later request of the same tenant to approve
-- that approval returns one, whatever requests are served in between and whatever fails.
pub approved_once :
    (env later : Env) (p q : Principal) (id : ℕ) (rs : List (Env × Principal × Request)) (w : World)
    (o : Outcome)
    → q.tenant_id ≡ p.tenant_id
    → (approve env p id w).0 ≡ ok o
    → (o' : Outcome) → (approve later q id (serve_all rs (approve env p id w).1)).0 ≢ ok o'
approved_once env later p q id rs w o same h o' h' =
    approve-refused later q id _ o'
      (subst (λ t. has_decided t id (serve_all rs (approve env p id w).1) ≡ true) (sym same)
        (serve_all-decided rs _ p.tenant_id id (approve-Decides env p id w o h)))
      h'
