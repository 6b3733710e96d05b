-- ===== src/Runner/Execute.antt =====
-- `execute` of tool_runner/app.py, on a request that its model accepts; the trace is telemetry, and
-- the pause of `simulate_timeout` is not seen.
use aurelian_autonomous_ente.Prelude.{ℕ, zero, suc, String, true, not, ◌==◌, get_or, if◌then◌else◌}
use aurelian_autonomous_ente.Json.{Value, Fields, bool, nat, str, end, field, get, py_str}
use aurelian_autonomous_ente.Result.{Result, ok, raised, http_exception}

-- `s[:n]`
abbrev pub first_chars : ℕ → String → String
first_chars zero s = ""
first_chars (suc n) String.[] = ""
first_chars (suc n) (String.◌∷◌ c s) = String.◌∷◌ c (first_chars n s)

-- `args.get(key, default)`
abbrev pub arg : Fields → String → Value → Value
arg args key default = get_or (get key args) default

abbrev pub health_output : Fields → Fields
health_output args = field "service" (arg args "service" (str "core-api")) (
    field "status" (str "healthy")
      (field "latency_ms" (nat 42) (field "sandbox" (str "dedicated-container") end)))

abbrev pub restart_output : Fields → Fields
restart_output args = field "service" (arg args "service" (str "core-api")) (
    field "restarted" (bool true) (
      field "sandbox" (str "dedicated-container")
        (field "mode" (str "simulated-safe-lab-action") end)))

abbrev pub notice_output : (Value → String) → Fields → Fields
notice_output repr args = field "delivered" (bool true) (
    field "channel" (arg args "channel" (str "ops")) (
      field "message" (str (first_chars 1000 (py_str repr (arg args "message" (str "")))))
        (field "sandbox" (str "dedicated-container") (field "mode" (str "demo-sink") end))))

-- `run_tool`
abbrev pub run_named : (Value → String) → String → Fields → Result Fields
run_named repr tool args =
    if tool == "get_service_health"
    then ok (health_output args)
    else if tool == "restart_service"
    then ok (restart_output args)
    else if tool == "send_notice"
    then ok (notice_output repr args)
    else if tool == "simulate_timeout"
    then ok (field "done" (bool true) end)
    else raised (http_exception 400 "tool not allow-listed")

unfoldable pub execute_request :
    (Value → String) → String → String → String → Fields → Result Fields
execute_request repr token given tool args =
    if not (given == token)
    then raised (http_exception 403 "invalid internal service token")
    else run_named repr tool args
