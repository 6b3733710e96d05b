-- ===== src/Engine/Environment.antt =====
-- What surrounds the engine, at each tick: which statements fail, the clock, the guard model, the
-- policy engine, the planner and the tools. Any function may stand for each of these.
use aurelian_autonomous_ente.Prelude.{ℕ, suc, String, Bool, Text, ◌∷◌}
use aurelian_autonomous_ente.Json.{Fields}
use aurelian_autonomous_ente.Result.{Result, ok}
use aurelian_autonomous_ente.Auth.Roles.{Principal}
use aurelian_autonomous_ente.Policy.Decision.{PolicyDecision, PolicyDocument}
use aurelian_autonomous_ente.Policy.Evaluate.{OpaSettings, evaluate}
use aurelian_autonomous_ente.Security.Classify.{InputRisk}
use aurelian_autonomous_ente.Security.Guard.{GuardSettings, classify_untrusted_input_async}
use aurelian_autonomous_ente.World.Rows.{World, Store, Call}
use aurelian_autonomous_ente.World.Effects.{Effect, Fault, statement, outside}

-- `Plan` (app/planning.py)
pub record Plan : Type 0 where
  pub tool : String
  pub args : Fields
  pub fallback : Bool

pub record Env : Type 0 where
  pub fault : ℕ → Fault
  pub clock : ℕ → ℕ
  pub guard : ℕ → GuardSettings
  pub opa : ℕ → OpaSettings
  pub policy : PolicyDocument
  -- `WorkflowEngine.plan`: the planner service or `plan_request`
  pub plan : ℕ → Text → Result Plan
  -- `execute_tool(tenant_id, name, args)`
  pub run_tool : ℕ → String → String → Fields → Store → Result Fields × Store
  pub max_workflow_steps : ℕ
  pub max_tool_retries : ℕ

module _ (env : Env) where
  -- `await db...`
  unfoldable pub query : {A : Type 0} → (World → A × World) → Effect A
  query f = statement env.fault f

  -- A statement that writes the time.
  unfoldable pub query_at : {A : Type 0} → (ℕ → World → A × World) → Effect A
  query_at f = statement env.fault (λ w. f (env.clock w.tick) w)

  unfoldable pub classify : Text → Effect InputRisk
  classify text = outside (λ n. ok (classify_untrusted_input_async (env.guard n) text))

  -- `evaluate(action, p, "production", input_risk)`
  unfoldable pub decide_production : String → Principal → String → Effect PolicyDecision
  decide_production action p input_risk =
      outside (λ n. evaluate (env.opa n) env.policy action p "production" input_risk)

  unfoldable pub make_plan : Text → Effect Plan
  make_plan request = outside (λ n. env.plan n request)

  -- `execute_tool`, noted with the execution key under which it is called.
  unfoldable pub call_tool : String → String → String → Fields → Effect Fields
  call_tool tenant key tool args w =
      let call : Call = record {
        tenant_id = tenant;
        execution_key = key;
        tool = tool;
        args = args;
      } in
      let (r, s) = env.run_tool w.tick tenant tool args w.store in
      (r, record w { store = s; calls = call ∷ w.calls; tick = suc w.tick })
