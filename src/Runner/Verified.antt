-- ===== src/Runner/Verified.antt =====
-- What the tool runner (tool_runner/app.py) lets through, and that the engine (app/agent.py) accepts
-- its answers.
use aurelian_autonomous_ente.Prelude.{
  String, ◌≡◌, ◌⊎◌, inl, inr, refl, sym, subst, true, ◌==◌, eq_iff, Bool-cases,
}
use aurelian_autonomous_ente.Json.{Value, Fields}
use aurelian_autonomous_ente.Result.{ok, ok_injective}
use aurelian_autonomous_ente.Engine.Output.{verify_output}
use aurelian_autonomous_ente.Runner.Execute.{
  health_output, restart_output, notice_output, run_named, execute_request,
}

-- A tool of the engine with an output that it verifies, or the tool that only waits.
abbrev pub IsAllowed : String → Fields → Type 0
IsAllowed tool out =
    (((tool ≡ "get_service_health") ⊎ ((tool ≡ "restart_service") ⊎ (tool ≡ "send_notice")))
      × ((verify_output tool out).0 ≡ true))
    ⊎ (tool ≡ "simulate_timeout")

module _ (repr : Value → String) (args : Fields) where
  verified :
      (name : String) (made : Fields)
      → (verify_output name made).0 ≡ true
      → (tool : String) (out : Fields) → (tool == name) ≡ true
      → made ≡ out
      → (tool ≡ name) × ((verify_output tool out).0 ≡ true)
  verified name made v tool out h e =
      let same = (eq_iff tool name).0 h in
      (
        same,
        subst (λ t. (verify_output t out).0 ≡ true) (sym same)
            (subst (λ o. (verify_output name o).0 ≡ true) e v),
      )

  run_named-IsAllowed :
      (tool : String) (out : Fields) → run_named repr tool args ≡ ok out → IsAllowed tool out
  unfolding verify_output
  run_named-IsAllowed tool out h = elim (Bool-cases (tool == "get_service_health")) [
    | inl a ↦
        let (same, v) =
          verified "get_service_health" (health_output args) refl tool out a
            (ok_injective (rw a at h)) in
        inl (inl same, v)
    | inr a ↦ elim (Bool-cases (tool == "restart_service")) [
      | inl b ↦
          let (same, v) =
            verified "restart_service" (restart_output args) refl tool out b
              (ok_injective (rw (a, b) at h)) in
          inl (inr (inl same), v)
      | inr b ↦ elim (Bool-cases (tool == "send_notice")) [
        | inl c ↦
            let (same, v) =
              verified "send_notice" (notice_output repr args) refl tool out c
                (ok_injective (rw (a, b, c) at h)) in
            inl (inr (inr same), v)
        | inr c ↦ elim (Bool-cases (tool == "simulate_timeout")) [
          | inl d ↦ inr ((eq_iff tool "simulate_timeout").0 d)
          | inr d ↦ cc (rw (a, b, c, d) at h)
        ]
      ]
    ]
  ]

  -- The runner answers with an output only to a caller who has its token, and only for the three
  -- tools that the engine leaves to it and the one that waits; and what it answers for the three,
  -- whatever their arguments, passes the engine's verification.
  pub execute_request-IsAllowed :
      (token given tool : String) (out : Fields)
      → execute_request repr token given tool args ≡ ok out
      → (given ≡ token) × IsAllowed tool out
  unfolding execute_request
  execute_request-IsAllowed token given tool out h = elim (Bool-cases (given == token)) [
    | inl same ↦ ((eq_iff given token).0 same, run_named-IsAllowed tool out (rw same at h))
    | inr other ↦ cc (rw other at h)
  ]
