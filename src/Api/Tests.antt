-- ===== src/Api/Tests.antt =====
-- A price change is asked for, approved twice and rolled back.
use aurelian_autonomous_ente.Prelude.{
  contains, ℕ, String, ◌≡◌, ◌≢◌, ◌≤◌, refl, map, Bool, true, false, List, [], ◌∷◌, some, none,
  codes, arith, eq_iff,
}
use aurelian_autonomous_ente.Json.{Value, Fields, end, field, bool, str, nat, dict}
use aurelian_autonomous_ente.Result.{ok, raised, error}
use aurelian_autonomous_ente.Auth.Roles.{Principal}
use aurelian_autonomous_ente.Policy.Evaluate.{evaluate, approval_authorized, OpaSettings}
use aurelian_autonomous_ente.Policy.Shipped.{shipped_policy}
use aurelian_autonomous_ente.Security.Guard.{classify_untrusted_input_async, GuardSettings}
use aurelian_autonomous_ente.Api.Settled.{IsSettled}
use aurelian_autonomous_ente.Api.Scanned.{reconcile-IsSettled}
use aurelian_autonomous_ente.World.Statements.Tasks.{
  insert_checkpoint, update_workflow_state, finish_task, insert_audit, new_task,
}
use aurelian_autonomous_ente.World.Statements.Approvals.{
  claim_approval, set_approval_status, new_approval,
}
use aurelian_autonomous_ente.Engine.Steps.{audit, checkpoint, finish, fail}
use aurelian_autonomous_ente.Security.Classify.{
  classify_untrusted_input, matched_patterns, normalize_untrusted_text,
}
use aurelian_autonomous_ente.Security.Patterns.{
  match_anywhere, match_here, match_alternatives, strip_literal, fold_case,
}
use aurelian_autonomous_ente.Policy.Decision.{
  local_decision, rule_of, rule_of_config, decide, below_minimum,
}
use aurelian_autonomous_ente.Engine.Execute.{
  execute_approved, jit_refusal, max_attempts, one_attempt,
}
use aurelian_autonomous_ente.Engine.Keys.{execution_key, decimal}
use aurelian_autonomous_ente.Tools.Specs.{has_side_effect}
use aurelian_autonomous_ente.Engine.Output.{verify_output}
use aurelian_autonomous_ente.World.Statements.Executions.{claim_execution, complete_execution}
use aurelian_autonomous_ente.World.Statements.Compensations.{insert_compensation}
use aurelian_autonomous_ente.World.Rows.{World, Outcome, ExecutionStatus}
use aurelian_autonomous_ente.World.Effects.{Fault, ◌>>=◌, statement, outside}
use aurelian_autonomous_ente.Engine.Environment.{
  classify, decide_production, call_tool, Env, query, query_at,
}
use aurelian_autonomous_ente.Engine.Once.{uses, side_calls}
use aurelian_autonomous_ente.Engine.Outage.{IsDown}
use aurelian_autonomous_ente.Api.Recovery.{Scan, Summary, reconcile_stale_state}
use aurelian_autonomous_ente.Api.Requests.{
  Request, create, approving, rolling_back, recovering, serve_all,
}
use aurelian_autonomous_ente.Api.Approvals.{approve}
use aurelian_autonomous_ente.Api.Finality.{approved_once}
use aurelian_autonomous_ente.Api.Guarantees.{
  at_most_once, outage_calls_nothing, unprivileged_no_effect,
}

abbrev user : String → List Value → Bool → Principal
user role scopes mfa = record {
  sub = "u";
  tenant_id = "meridian";
  role = role;
  scopes = scopes;
  mfa = mfa;
}

abbrev executive : Principal
executive = user "executive" (str "approve:executive" ∷ str "approve:team" ∷ []) true

abbrev operator : Principal
operator = user "operator" [] false

abbrev opa_at : String → OpaSettings
opa_at url = record {
  opa_url = url;
  opa_fingerprint = "f";
  query = λ input. raised (error "ConnectError");
  repr = λ v. "?";
}

abbrev no_guard : GuardSettings
no_guard = record { guard_model_url = ""; nfkc = λ t. t; ask = λ t. ok "LOW"; strip_upper = λ s. s }

abbrev price_args : ℕ → Fields
price_args price = field "sku" (str "AUR-101") (field "new_price" (nat price) end)

abbrev sample_output : Fields
sample_output = field "changed" (bool true) (
    field "previous_price" (nat 1) (
      field "new_price" (nat 2) (
        field "compensation"
          (dict
            (field "tool" (str "change_product_price") (field "args" (dict (price_args 1)) end)))
          end)))

-- A planner that always asks for a price, and a tool that always answers.
abbrev env_at : String → Env
env_at url = record {
  fault = λ n. Fault.done;
  clock = λ n. n;
  guard = λ n. no_guard;
  opa = λ n. opa_at url;
  policy = shipped_policy "h";
  plan = λ n request.
      ok (record { tool = "change_product_price"; args = price_args 2; fallback = false });
  run_tool = λ n tenant tool args s. (ok sample_output, s);
  max_workflow_steps = 12;
  max_tool_retries = 2;
}

abbrev empty : World
empty = record {
  tasks = [];
  checkpoints = [];
  approvals = [];
  executions = [];
  compensations = [];
  audit = [];
  store = record { incidents = []; products = []; customers = []; orders = [] };
  calls = [];
  tick = 0;
}

abbrev price_request : Request
price_request = create (codes "raise the price") (some " key-0001 ")

abbrev start_scan : Scan
start_scan = record { tenants = "meridian" ∷ []; row_level_security = true; cutoff = 1000 }

abbrev price_requests : String → List (Env × Principal × Request)
price_requests url =
    (env_at url, operator, price_request)
    ∷ (env_at url, executive, approving 1)
    ∷ (env_at url, executive, approving 1)
    ∷ (env_at url, executive, recovering start_scan)
    ∷ (env_at url, executive, rolling_back 1)
    ∷ []

-- The keys and tools of the calls that are made.
abbrev price_calls : List (String × String)
price_calls = map (λ c. (c.execution_key, c.tool)) (serve_all (price_requests "") empty).calls

at_most_once_example :
    uses "meridian" "primary:1:change_product_price" (serve_all (price_requests "") empty) ≤ 1
at_most_once_example =
    at_most_once (price_requests "") empty "meridian" "primary:1:change_product_price" refl

-- The policy engine of these requests never answers.
always-IsDown : IsDown (env_at "http://opa")
always-IsDown n = (ground (arith, eq_iff "http://opa" ""), error "ConnectError", λ input. refl)

outage_calls_nothing_example : (serve_all (price_requests "http://opa") empty).calls ≡ []
outage_calls_nothing_example =
    outage_calls_nothing (price_requests "http://opa") empty
      (always-IsDown, (always-IsDown, (always-IsDown, (always-IsDown, (always-IsDown, tt)))))

unprivileged_no_effect_example :
    side_calls (
      serve_all
        ((env_at "", operator, price_request) ∷ (env_at "", operator, approving 1) ∷ [])
        empty)
    ≡ []
unprivileged_no_effect_example =
    unprivileged_no_effect
      ((env_at "", operator, price_request) ∷ (env_at "", operator, approving 1) ∷ []) empty
      (
        (("h", refl, λ n. refl), (refl, refl, refl)),
        ((("h", refl, λ n. refl), (refl, refl, refl)), tt),
      )

-- The world with the approval of the price change, and the result of approving it.
abbrev waiting : World
waiting = record empty {
  tasks = new_task 1 "meridian" [] "u" "operator" none 0 ∷ [];
  approvals =
      new_approval 1 "meridian" 1 "change_product_price" (price_args 2) "u" "operator"
        "executive_mfa" "r"
      ∷ [];
}

abbrev sample_outcome : Outcome
sample_outcome =
    Outcome.completed "change_product_price" sample_output 1 "primary:1:change_product_price"

approved : (approve (env_at "") executive 1 waiting).0 ≡ ok sample_outcome
unfolding approve ◌>>=◌ query query_at statement outside audit checkpoint finish fail classify
    classify_untrusted_input_async classify_untrusted_input matched_patterns match_anywhere
    match_here match_alternatives strip_literal fold_case normalize_untrusted_text decide_production
    evaluate local_decision rule_of rule_of_config decide below_minimum approval_authorized
    execute_approved call_tool execution_key claim_approval set_approval_status has_side_effect
    verify_output insert_checkpoint update_workflow_state finish_task insert_audit claim_execution
    complete_execution insert_compensation jit_refusal decimal max_attempts one_attempt
approved = refl

approved_once_example :
    (approve (env_at "") executive 1 (
      serve_all
        ((env_at "", executive, rolling_back 1) ∷ [])
        (approve (env_at "") executive 1 waiting).1)).0
    ≢ ok sample_outcome
approved_once_example =
    approved_once (env_at "") (env_at "") executive executive 1
      ((env_at "", executive, rolling_back 1) ∷ []) waiting sample_outcome refl approved
      sample_outcome

-- An execution that a process has left behind.
abbrev interrupted : World
interrupted = record empty {
  executions =
      record {
        id = 1;
        tenant_id = "meridian";
        task_id = 1;
        phase = "primary";
        tool_name = "issue_refund";
        idempotency_key = "primary:1:issue_refund";
        status = ExecutionStatus.executing;
        output = none;
        error_type = none;
        started_at = 5;
      }
      ∷ [];
}

reconcile-IsSettled_example :
    (summary : Summary) × (after : World) × (reconcile_stale_state
        (env_at "")
        start_scan
        interrupted
      ≡ (ok summary, after))
    × ((t : String) → contains t ("meridian" ∷ []) ≡ true → IsSettled 1000 t after)
reconcile-IsSettled_example = reconcile-IsSettled (env_at "") (λ n. refl) start_scan interrupted
