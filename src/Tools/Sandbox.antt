-- ===== src/Tools/Sandbox.antt =====
-- `_isolated` (app/tools.py) and the child process that it runs where no runner is configured
-- (app/sandbox_worker.py). The limits that the child sets itself are not modelled.
use aurelian_autonomous_ente.Prelude.{
  ℕ, String, Bool, true, false, Option, none, some, ◌==◌, contains, if◌then◌else◌,
}
use aurelian_autonomous_ente.Json.{Value, Fields, bool, nat, str, end, field, keys, append_fields}
use aurelian_autonomous_ente.Result.{error, Result, ok, raised}
use aurelian_autonomous_ente.Runner.Execute.{arg}
use aurelian_autonomous_ente.Tools.Host.{ToolHost}

-- How the child ends: it prints an output, exits with an error, or is still asleep at the timeout.
pub data WorkerEnd : Type 0 where
  printed : Fields → WorkerEnd
  exited : WorkerEnd
  asleep : WorkerEnd

abbrev pub worker_health : Fields → Fields
worker_health args = field "service" (arg args "service" (str "core-api")) (
    field "status" (str "healthy")
      (field "latency_ms" (nat 42) (field "sandbox" (str "subprocess") end)))

abbrev pub worker_restart : Fields → Fields
worker_restart args = field "service" (arg args "service" (str "core-api")) (
    field "restarted" (bool true)
      (field "sandbox" (str "subprocess") (field "mode" (str "simulated-safe-lab-action") end)))

abbrev pub worker_notice : Fields → Fields
worker_notice args = field "delivered" (bool true) (
    field "channel" (arg args "channel" (str "ops")) (
      field "message" (arg args "message" (str ""))
        (field "sandbox" (str "subprocess") (field "mode" (str "demo-sink") end))))

unfoldable pub worker : String → Fields → WorkerEnd
worker tool args =
    if tool == "get_service_health"
    then printed (worker_health args)
    else if tool == "restart_service"
    then printed (worker_restart args)
    else if tool == "send_notice"
    then printed (worker_notice args)
    else if tool == "simulate_timeout"
    then asleep
    else exited

-- `d.setdefault(k, v)`
abbrev pub set_default : String → Value → Fields → Fields
set_default k v d = if contains k (keys d) then d else append_fields d (field k v end)

module _ (h : ToolHost) where
  abbrev with_trace : Option String → Fields → Fields
  with_trace none out = out
  with_trace (some t) out = if t == "" then out else set_default "trace_id" (str t) out

  abbrev pub traced : Option String → Result Fields → Result Fields
  traced t (ok out) = ok (with_trace t out)
  traced t (raised e) = raised e

  -- The end of the child, seen by the parent. Even a child that prints may be over the timeout.
  abbrev pub outcome : Bool → WorkerEnd → Result Fields
  outcome true w = raised (error "TimeoutError")
  outcome false asleep = raised (error "TimeoutError")
  outcome false exited = raised (error "RuntimeError")
  outcome false (printed out) = ok out

  unfoldable pub isolated : ℕ → String → Fields → Result Fields
  isolated n name args =
      if h.tool_runner_url == ""
      then outcome (h.is_late n) (worker name args)
      else traced (h.trace_id n) (h.runner n name args)
