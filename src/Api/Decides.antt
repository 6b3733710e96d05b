-- ===== src/Api/Decides.antt =====
-- The compare-and-set of an approval (app/main.py): who claims it, and who comes later.
use aurelian_autonomous_ente.Prelude.{
  Text, ℕ, suc, String, ◌≡◌, ◌≢◌, refl, sym, subst, Bool, true, false, List, [], ◌∷◌, Option, none,
  some, some_injective, inl, inr, Bool-cases, find, update_where, count_where, eqb, eqb_iff, ◌==◌,
  arith,
}
use aurelian_autonomous_ente.Result.{Result, ok, raised, ok_injective}
use aurelian_autonomous_ente.Auth.Roles.{Principal}
use aurelian_autonomous_ente.Policy.Decision.{PolicyDecision}
use aurelian_autonomous_ente.Policy.Evaluate.{approval_authorized}
use aurelian_autonomous_ente.World.Rows.{World, ApprovalRow, ApprovalStatus, TaskRow, Outcome}
use aurelian_autonomous_ente.World.Effects.{
  Effect, ◌>>=◌, go_on, Fault, done, refused, reply_lost, commit, statement, advance,
}
use aurelian_autonomous_ente.World.Statements.Approvals.{
  is_approval, is_pending, pending_here, select_approval, claim_approval,
}
use aurelian_autonomous_ente.Engine.Environment.{Env, query, query_at, call_tool}
use aurelian_autonomous_ente.Engine.Frames.{
  Frame, Moves, Returns, moves_rules, is_decided, has_decided,
}
use aurelian_autonomous_ente.Engine.Moves.{Moves-execute_approved}
use aurelian_autonomous_ente.Json.{Fields}
use aurelian_autonomous_ente.Engine.Execute.{execute_approved}
use aurelian_autonomous_ente.Engine.Run.{run}
use aurelian_autonomous_ente.Engine.Rollback.{rollback, undo}
use aurelian_autonomous_ente.Engine.RunMoves.{Moves-run, Moves-rollback, Moves-claim_and_undo}
use aurelian_autonomous_ente.Api.Moves.{Moves-execute_claimed}
use aurelian_autonomous_ente.Api.Approvals.{
  execute_claimed, after_approval_claim, claim_and_execute, after_review, review, review_pending,
  approve,
}

-- What a sequence that returned has gone through, from here.
module _ {A B : Type 0} (m : Effect A) (f : A → Effect B) (w : World) where
  abbrev pub Through : B → Type 0
  Through b =
      (a : A) × ((m w).0 ≡ ok a) × ((f a (m w).1).0 ≡ ok b) × (((m >>= f) w).1 ≡ (f a (m w).1).1)

  go_on-Through :
      (b : B) (r : Result A)
      → (m w).0 ≡ r
      → (go_on r f (m w).1).0 ≡ ok b
      → (a : A) × (r ≡ ok a) × ((f a (m w).1).0 ≡ ok b) × ((go_on r f (m w).1).1 ≡ (f a (m w).1).1)
  go_on-Through b (ok a) e h = (a, refl, h, refl)
  go_on-Through b (raised x) e h = cc

  pub bind-Through : (b : B) → ((m >>= f) w).0 ≡ ok b → Through b
  unfolding ◌>>=◌
  bind-Through b h = go_on-Through b (m w).0 refl h

-- A statement that answered took effect.
pub commit-ok :
    {A : Type 0} (fault : Fault) (f : World → A × World) (w : World) (a : A)
    → (commit fault f w).0 ≡ ok a
    → ((f w).0 ≡ a) × ((commit fault f w).1 ≡ (f w).1)
commit-ok done f w a h = (ok_injective h, refl)
commit-ok (refused e) f w a h = cc
commit-ok (reply_lost e) f w a h = cc

find-passes :
    (p : ApprovalRow → Bool) (xs : List ApprovalRow) (a : ApprovalRow)
    → find p xs ≡ some a
    → p a ≡ true
find-passes p [] a h = cc
find-passes p (x ∷ xs) a h = elim (Bool-cases (p x)) [
  | inl here ↦ subst (λ y. p y ≡ true) (some_injective (rw here at h)) here
  | inr there ↦ find-passes p xs a (rw there at h)
]

-- A claim that changed a row leaves the approval decided.
claimed-is_decided :
    (t : String) (id : ℕ) (g : ApprovalRow → ApprovalRow) (xs : List ApprovalRow)
    → ((a : ApprovalRow) → is_approval t id (g a) ≡ is_approval t id a)
    → ((a : ApprovalRow) → is_pending (g a) ≡ false)
    → count_where (pending_here t id) xs ≢ 0
    → is_decided (find (is_approval t id) (update_where (pending_here t id) g xs)) ≡ true
claimed-is_decided t id g [] k n h = elim (h refl) [ ]
claimed-is_decided t id g (a ∷ xs) k n h = elim (Bool-cases (is_approval t id a)) [
  | inl here ↦ elim (Bool-cases (is_pending a)) [
    | inl p ↦ rw here (rw p (rw (k a) (rw here (rw (n a) refl))))
    | inr p ↦ rw here (rw p (rw here (rw p refl)))
  ]
  | inr there ↦
      let more = rw there at h in
      rw there (rw there (claimed-is_decided t id g xs k n (λ z. more (omega (arith, z)))))
]

abbrev pub decided_frame : String → ℕ → Frame
decided_frame t id = record {
  relates = λ w v. has_decided t id w ≡ true → has_decided t id v ≡ true;
  near = λ w v n. n.2 t id;
  trans = λ u v w h k x. k (h x);
}

-- `m` returns only with the approval decided.
abbrev pub Decides : {A : Type 0} → String → ℕ → Effect A → Type 0
Decides {A} t id m = (w : World) (o : A) → (m w).0 ≡ ok o → has_decided t id (m w).1 ≡ true

module _ {A B : Type 0} (t : String) (id : ℕ) where
  Decides-bind :
      (m : Effect A) (f : A → Effect B)
      → ((a : A) → Returns m a → Decides t id (f a))
      → Decides t id (m >>= f)
  Decides-bind m f k w o h =
      let (a, e, r, v) = bind-Through m f w o h in rw v (k a (w, e) (m w).1 o r)

module _ (env : Env) (p : Principal) (t : String) (id : ℕ) where
  pub call-decided :
      (key tool : String) (args : Fields)
      → Moves (decided_frame t id) (call_tool env p.tenant_id key tool args)
  unfolding call_tool
  call-decided key tool args = record { at = λ w h. h }

  pub execute-decided :
      (a : ApprovalRow) (d : PolicyDecision) (risk : String)
      → Moves
          (decided_frame t id)
          (execute_approved env a.task_id a.tool_name a.args p d.approval_tier risk)
  execute-decided a d risk =
      Moves-execute_approved (decided_frame t id) env a.task_id a.tool_name a.args p
        (λ key. call-decided key a.tool_name a.args) d.approval_tier risk

  pub run-decided : (i : ℕ) (request : Text) → Moves (decided_frame t id) (run env i p request)
  run-decided i request =
      Moves-run (decided_frame t id) env i p
        (λ plan risk d _ _ _.
          Moves-execute_approved (decided_frame t id) env i plan.tool plan.args p
            (λ key. call-decided key plan.tool plan.args) "none" risk)
        request

  undo-decided :
      (task : ℕ) (key : String) (comp : Fields)
      → Moves (decided_frame t id) (undo env task p key comp)
  unfolding undo
  undo-decided task key comp = search (call-decided, moves_rules)

  pub rollback-decided : (task : ℕ) → Moves (decided_frame t id) (rollback env task p)
  rollback-decided task = Moves-rollback (decided_frame t id) env task p (λ c comp risk _.
      Moves-claim_and_undo (decided_frame t id) env task p comp (λ key. undo-decided task key comp)
        c)

  claimed-decided :
      (a : ApprovalRow) (d : PolicyDecision) (risk : String)
      → (approval_authorized d p).0 ≡ true
      → Moves (decided_frame t id) (execute_claimed env p a d risk)
  claimed-decided a d risk h =
      Moves-execute_claimed (decided_frame t id) env p (λ a d risk _. execute-decided a d risk) a d
        risk h

module _ (env : Env) (p : Principal) (a : ApprovalRow) (d : PolicyDecision) (risk : String)
    (may : (approval_authorized d p).0 ≡ true) where
  after_claim-Decides :
      (n : ℕ) (v : World) (o : Outcome)
      → (n ≡ 1 → has_decided p.tenant_id a.id v ≡ true)
      → (after_approval_claim env p a d risk n v).0 ≡ ok o
      → has_decided p.tenant_id a.id (after_approval_claim env p a d risk n v).1 ≡ true
  unfolding after_approval_claim
  after_claim-Decides n v o k h = elim (Bool-cases (eqb n 1)) [
    | inl one ↦
        rw one
          ((claimed-decided env p p.tenant_id a.id a d risk may).at v (k ((eqb_iff n 1).0 one)))
    | inr other ↦ cc (rw other at h)
  ]

  claim-Decides : Decides p.tenant_id a.id (claim_and_execute env p a d risk)
  unfolding claim_and_execute query_at statement claim_approval
  claim-Decides w o h =
      let (n, e, r, v) =
        bind-Through (query_at env (claim_approval p.tenant_id a.id p.sub))
          (after_approval_claim env p a d risk) w o h in
      let (count, after) = commit-ok (env.fault w.tick) _ (advance w) n e in
      rw v (
        after_claim-Decides n _ o
          (λ one.
            subst (λ u. has_decided p.tenant_id a.id u ≡ true) (sym after)
              (claimed-is_decided p.tenant_id a.id
                (λ x. record x {
                  status = ApprovalStatus.executing;
                  reviewed_by = some p.sub;
                  started_at = some (env.clock (suc w.tick));
                })
                w.approvals (λ _. refl) (λ _. refl) (λ z. omega (arith, count, one, z))))
          r)

module _ (env : Env) (p : Principal) where
  review-Decides :
      (a : ApprovalRow) (d : PolicyDecision) (risk : String) (v : Bool × String)
      → (approval_authorized d p).0 ≡ v.0
      → Decides p.tenant_id a.id (after_review env p a d risk v)
  unfolding after_review
  review-Decides a d risk (false, reason) e w o h = cc
  review-Decides a d risk (true, reason) e w o h =
      elim (Bool-cases (d.approval_tier == a.approval_tier)) [
        | inl same ↦ rw same (claim-Decides env p a d risk e w o (rw same at h))
        | inr changed ↦ cc (rw changed at h)
      ]

  task-Decides :
      (a : ApprovalRow) (t : Option TaskRow) → Decides p.tenant_id a.id (review env p a t)
  unfolding review
  task-Decides a none = λ w o h. cc
  task-Decides a (some t) = Decides-bind p.tenant_id a.id _ _ (λ risk _.
      Decides-bind p.tenant_id a.id _ _
        (λ d _. review-Decides a d risk.risk (approval_authorized d p) refl))

  pending-Decides : (a : ApprovalRow) → Decides p.tenant_id a.id (review_pending env p (some a))
  unfolding review_pending
  pending-Decides a w o h = elim (Bool-cases (is_pending a)) [
    | inl x ↦ rw x (Decides-bind p.tenant_id a.id _ _ (λ row _. task-Decides a row) w o (rw x at h))
    | inr x ↦ cc (rw x at h)
  ]

  found-Decides :
      (id : ℕ) (a : Option ApprovalRow)
      → Returns (query env (select_approval p.tenant_id id)) a
      → Decides p.tenant_id id (review_pending env p a)
  unfolding query statement review_pending
  found-Decides id none h = λ w o x. cc
  found-Decides id (some a) (u, e) =
      let (found, _) = commit-ok (env.fault u.tick) _ (advance u) (some a) e in
      let passes = find-passes (is_approval p.tenant_id id) u.approvals a found in
      let same : a.id ≡ id = (eqb_iff a.id id).0 (ground (arith, passes)) in
      subst (λ i. Decides p.tenant_id i (unfold review_pending in review_pending env p (some a)))
        same (pending-Decides a)

  pub approve-Decides : (id : ℕ) → Decides p.tenant_id id (approve env p id)
  unfolding approve
  approve-Decides id = Decides-bind p.tenant_id id _ _ (found-Decides id)
