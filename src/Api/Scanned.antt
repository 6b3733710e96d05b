-- ===== src/Api/Scanned.antt =====
-- A recovery scan in which no statement fails leaves nothing stale behind (app/main.py).
use aurelian_autonomous_ente.Prelude.{
  ℕ, ◌+◌, String, ◌≡◌, inl, inr, subst, true, List, [], ◌∷◌, ◌==◌, eq_iff, eqb, contains,
  Bool-cases,
}
use aurelian_autonomous_ente.Result.{ok}
use aurelian_autonomous_ente.World.Rows.{World}
use aurelian_autonomous_ente.World.Effects.{pure, ◌>>◌, done, advance}
use aurelian_autonomous_ente.World.Statements.Tasks.{insert_audit}
use aurelian_autonomous_ente.Engine.Environment.{Env, query}
use aurelian_autonomous_ente.Api.Recovery.{
  Scan, Summary, note_scan, recover_tenant, recover_tenants, select_tenants, reconcile_stale_state,
}
use aurelian_autonomous_ente.Api.Runs.{Runs, Runs-bind, Runs-pure, Runs-query}
use aurelian_autonomous_ente.Api.Settled.{
  IsSettled, ApprovalsSettled, ExecutionsSettled, CompensationsSettled, TasksSettled, Settles,
  Settles-refl, Settles-trans,
}
use aurelian_autonomous_ente.Api.Phases.{
  after_approvals, after_executions, after_compensations, after_orphans,
}

module _ (env : Env) (fine : (n : ℕ) → env.fault n ≡ done) (scan : Scan) where
  abbrev cutoff : ℕ
  cutoff = scan.cutoff

  Runs-note :
      (tenant : String) (s : Summary) (start w : World)
      → Settles cutoff start w
      → Runs (note_scan env scan tenant s) w (λ u after. Settles cutoff w after)
  unfolding note_scan insert_audit
  Runs-note tenant s start w settles =
      elim (Bool-cases (eqb (s.approvals + s.executions + s.compensations + s.created_tasks) 0)) [
        | inl nothing ↦
            rw nothing (Runs-pure (λ u after. Settles cutoff w after) tt w (Settles-refl cutoff w))
        | inr some_ ↦ rw some_ (
            Runs-query (λ u after. Settles cutoff w after) env fine
              (insert_audit tenant "system" "recovery.scan" 0) w
              (record {
                approvals = λ t h. h;
                executions = λ t h. h;
                compensations = λ t h. h;
                tasks = λ t h. h;
              }))
      ]

  -- The end of the scan of a tenant, after the four phases.
  finish :
      (tenant : String) (w w1 w2 w3 w4 : World)
      → ApprovalsSettled cutoff tenant w1
      → Settles cutoff w w1
      → ExecutionsSettled cutoff tenant w2
      → Settles cutoff w1 w2
      → CompensationsSettled cutoff tenant w3
      → Settles cutoff w2 w3
      → TasksSettled cutoff tenant w4
      → Settles cutoff w3 w4
      → (summary : Summary)
      → Runs
          (note_scan env scan tenant summary >> pure summary)
          w4
          (λ s after. IsSettled cutoff tenant after × Settles cutoff w after)
  finish tenant w w1 w2 w3 w4 settled1 s1 settled2 s2 settled3 s3 settled4 s4 summary =
      let (u, w5, e, s5) = Runs-note tenant summary w4 w4 (Settles-refl cutoff w4) in
      let from3 = Settles-trans cutoff w3 w4 w5 s4 s5 in
      let from2 = Settles-trans cutoff w2 w3 w5 s3 from3 in
      let from1 = Settles-trans cutoff w1 w2 w5 s2 from2 in
      Runs-bind _ _ _ w4 (
        u,
        w5,
        e,
        Runs-pure _ summary w5 (
          (
            from1.approvals tenant settled1,
            from2.executions tenant settled2,
            from3.compensations tenant settled3,
            s5.tasks tenant settled4,
          ),
          Settles-trans cutoff w w1 w5 s1 from1,
        ),
      )

  Runs-recover_tenant :
      (tenant : String) (w : World)
      → Runs
          (recover_tenant env scan tenant)
          w
          (λ s after. IsSettled cutoff tenant after × Settles cutoff w after)
  unfolding recover_tenant
  Runs-recover_tenant tenant w =
      after_approvals cutoff env fine scan tenant _ _ w w (Settles-refl cutoff w)
        (λ a w1 settled1 s1.
          after_executions cutoff env fine scan tenant _ _ w1 w1 (Settles-refl cutoff w1)
            (λ e w2 settled2 s2.
              after_compensations cutoff env fine scan tenant _ _ w2 w2 (Settles-refl cutoff w2)
                (λ c w3 settled3 s3.
                  after_orphans cutoff env fine scan tenant _ _ w3 w3 (Settles-refl cutoff w3)
                    (λ t w4 settled4 s4.
                      finish tenant w w1 w2 w3 w4 settled1 s1 settled2 s2 settled3 s3 settled4 s4
                        _))))

  IsSettled-kept :
      (t : String) (w after : World)
      → Settles cutoff w after
      → IsSettled cutoff t w
      → IsSettled cutoff t after
  IsSettled-kept t w after s (a, e, c, r) =
      (s.approvals t a, s.executions t e, s.compensations t c, s.tasks t r)

  -- What the loop over tenants reaches.
  abbrev AllSettled : List String → World → World → Type 0
  AllSettled tenants w after =
      ((t : String) → contains t tenants ≡ true → IsSettled cutoff t after) × Settles cutoff w after

  Runs-recover_tenants :
      (tenants : List String) (w : World)
      → Runs (recover_tenants env scan tenants) w (λ s after. AllSettled tenants w after)
  Runs-recover_tenants [] w = Runs-pure _ _ w ((λ t h. cc), Settles-refl cutoff w)
  Runs-recover_tenants (tenant ∷ tenants) w =
      let (s, v, e, (settled, sv)) = Runs-recover_tenant tenant w in
      let (rest, u, e', (others, su)) = Runs-recover_tenants tenants v in
      Runs-bind _ _ _ w (
        s,
        v,
        e,
        Runs-bind _ _ _ v (
          rest,
          u,
          e',
          Runs-pure _ _ u (
            (λ t h. elim (Bool-cases (tenant == t)) [
              | inl same ↦
                  subst (λ x. IsSettled cutoff x u) ((eq_iff tenant t).0 same)
                    (IsSettled-kept tenant v u su settled)
              | inr other ↦ others t (rw other at h)
            ]),
            Settles-trans cutoff w v u sv su,
          ),
        ),
      )

  -- If no statement fails, the scan returns, and it leaves no approval, execution or compensation of a
  -- registered tenant that has been executing since before the cutoff, and no task of such a tenant
  -- that has been running in its first state since before it.
  pub reconcile-IsSettled :
      (w : World)
      → (summary : Summary) × (after : World) × (reconcile_stale_state env scan w
          ≡ (ok summary, after))
        × ((t : String) → contains t scan.tenants ≡ true → IsSettled scan.cutoff t after)
  unfolding reconcile_stale_state
  reconcile-IsSettled w =
      Runs-bind (query env (select_tenants scan)) (recover_tenants env scan)
        (λ s after. (t : String) → contains t scan.tenants ≡ true → IsSettled cutoff t after) w
        (Runs-query _ env fine (select_tenants scan) w (
          let (s, v, e, (settled, kept)) = Runs-recover_tenants scan.tenants (advance w) in
          (s, v, e, settled)))
