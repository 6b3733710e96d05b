-- ===== src/Planner/Request.antt =====
-- `plan_request` (app/planning.py), `plan` of planner_runner/app.py and `WorkflowEngine.plan`
-- (app/agent.py). The service's telemetry is not modelled.
use aurelian_autonomous_ente.Prelude.{
  ℕ, String, Bool, true, false, not, ◌&&◌, List, [], ◌∷◌, Option, none, some, ◌==◌, any, leb, eqb,
  ◌/◌, ◌%◌, ◌^◌, length, take, occurs_in, codes, Text, if◌then◌else◌,
}
use Prim.Native.String.{◌++◌}
use aurelian_autonomous_ente.Json.{
  Value, Fields, bool, nat, float, str, dict, end, field, get, get_null, truthy, or_else, py_str,
}
use aurelian_autonomous_ente.Result.{error, http_exception, Result, ok, raised, ◌>>=◌}
use aurelian_autonomous_ente.Engine.Environment.{Plan}
use aurelian_autonomous_ente.Planner.Extract.{
  Unicode, first_match, user_here, order_here, amount_here, sku_here, customer_here,
}

-- `any(k in r for k in [...])`
unfoldable pub mentions : List String → Text → Bool
mentions ks r = any (λ k. occurs_in (codes k) r) ks

abbrev pub disable_words : List String
disable_words = "disable user" ∷ "disable account" ∷ "suspend user" ∷ []

abbrev pub refund_words : List String
refund_words = "refund" ∷ []

abbrev pub price_words : List String
price_words = "change price" ∷ "set price" ∷ "update price" ∷ []

abbrev pub reorder_words : List String
reorder_words = "reorder" ∷ "restock" ∷ "low stock" ∷ "inventory risk" ∷ []

abbrev pub inventory_words : List String
inventory_words = "inventory" ∷ "stock" ∷ []

abbrev pub backlog_words : List String
backlog_words = "order backlog" ∷ "open orders" ∷ "unfulfilled" ∷ "orders delayed" ∷ []

abbrev pub customer_words : List String
customer_words = "customer" ∷ []

abbrev pub restart_words : List String
restart_words = "restart" ∷ []

abbrev pub health_words : List String
health_words = "health" ∷ "status" ∷ "latency" ∷ "uptime" ∷ []

abbrev pub notice_words : List String
notice_words = "notify" ∷ "send notice" ∷ "alert ops" ∷ []

abbrev pub planned : String → Fields → Plan
planned tool args = record { tool = tool; args = args; fallback = false }

-- the bits of 199.0
abbrev default_price : ℕ
default_price = 4641205706609917952

-- A float is infinite or not a number if the bits of its exponent are all set.
abbrev is_finite : ℕ → Bool
is_finite w = not (eqb (w / 2 ^ 52 % 2048) 2047)

-- The floats of a plan's arguments, which hold no list or dict, are finite.
abbrev pub are_finite : Fields → Bool
are_finite end = true
are_finite (field k (float w) d) = is_finite w && are_finite d
are_finite (field k v d) = are_finite d

module _ (u : Unicode) (request : Text) where
  abbrev pub found_or : (Text → String) → String → Option Text → Value
  found_or f default none = str default
  found_or f default (some t) = str (f t)

  abbrev pub float_or : Value → Option Text → Value
  float_or default none = default
  float_or default (some t) = float (u.parse_float t)

  abbrev upper_text : Text → String
  upper_text t = u.text (u.upper t)

  abbrev pub plan_disable : Plan
  plan_disable = planned "disable_user_account" (
      field "user" (found_or u.text "demo.user@meridian.demo" (first_match (user_here u) request))
        end)

  abbrev pub plan_refund : Plan
  plan_refund = planned "issue_refund" (
      field "order_code"
        (found_or (λ t. "ORD-" ++ u.text t) "ORD-1001" (first_match (order_here u) request))
        (field "amount" (float_or (nat 0) (first_match (amount_here u) request)) end))

  abbrev pub plan_price : Plan
  plan_price = planned "change_product_price" (
      field "sku" (found_or upper_text "AUR-101" (first_match (sku_here u) request)) (
        field "new_price" (float_or (float default_price) (first_match (amount_here u) request))
          end))

  abbrev pub plan_inventory : Plan
  plan_inventory =
      planned "list_inventory"
        (field "sku" (found_or upper_text "" (first_match (sku_here u) request)) end)

  abbrev pub plan_customer : Plan
  plan_customer = planned "get_customer_profile" (
      field "customer_code" (found_or upper_text "CUST-001" (first_match (customer_here u) request))
        end)

  abbrev pub plan_service : String → Plan
  plan_service tool = planned tool (field "service" (str "core-api") end)

  abbrev pub plan_notice : Plan
  plan_notice =
      planned "send_notice"
        (field "channel" (str "ops") (field "message" (str (u.text (take 1000 request))) end))

  abbrev pub plan_search : Plan
  plan_search = record {
    tool = "search_knowledge";
    args =
        field "query" (str (u.text (take 3000 request)))
          (field "environment" (str "production") end);
    fallback = true;
  }

  unfoldable pub plan_request : Plan
  plan_request =
      let r = u.lower request in
      if mentions disable_words r
      then plan_disable
      else if mentions refund_words r
      then plan_refund
      else if mentions price_words r
      then plan_price
      else if mentions reorder_words r
      then planned "recommend_reorders" end
      else if mentions inventory_words r
      then plan_inventory
      else if mentions backlog_words r
      then planned "get_order_backlog" end
      else if mentions customer_words r
      then plan_customer
      else if mentions restart_words r
      then plan_service "restart_service"
      else if mentions health_words r
      then plan_service "get_service_health"
      else if mentions notice_words r
      then plan_notice
      else plan_search

  -- `plan` of the planner service, whose model wants 3 to 3000 characters. Its reply is JSON, in which
  -- no infinite number can be written, so that such a plan is an internal error.
  unfoldable pub service_plan : Result Fields
  service_plan =
      if leb 3 (length request) && leb (length request) 3000
      then (if are_finite plan_request.args
          then ok (
              field "tool" (str plan_request.tool) (
                field "args" (dict plan_request.args)
                  (field "fallback" (bool plan_request.fallback) end)))
          else raised (http_exception 500 ""))
      else raised (http_exception 422 "")

-- `dict(v)`
abbrev pub dict_of : Value → Result Fields
dict_of (dict d) = ok d
dict_of v = raised (error "TypeError")

-- `Plan(str(d["tool"]), dict(d.get("args") or {}), bool(d.get("fallback")))`
abbrev plan_of : (Value → String) → Fields → Option Value → Result Plan
plan_of repr d none = raised (error "KeyError")
plan_of repr d (some tool) = do
  args ← dict_of (or_else (get_null "args" d) (dict end))
  ok (record { tool = py_str repr tool; args = args; fallback = truthy (get_null "fallback" d) })

unfoldable pub read_plan : (Value → String) → Fields → Result Plan
read_plan repr d = plan_of repr d (get "tool" d)

-- `WorkflowEngine.plan`; `ask` is the reply to a POST to the planner, its status checked.
unfoldable pub engine_plan :
    Unicode → (Value → String) → String → (Text → Result Fields) → Text → Result Plan
engine_plan u repr planner_url ask request =
    if not (planner_url == "") then ask request >>= read_plan repr else ok (plan_request u request)
