-- ===== src/Runner/Tests.antt =====
-- A restart and a tool that is not listed.
use aurelian_autonomous_ente.Prelude.{String, ◌≡◌, refl}
use aurelian_autonomous_ente.Json.{Value, Fields, field, end, str}
use aurelian_autonomous_ente.Result.{raised, http_exception}
use aurelian_autonomous_ente.Runner.Execute.{execute_request, restart_output}
use aurelian_autonomous_ente.Runner.Verified.{IsAllowed, execute_request-IsAllowed}

abbrev print : Value → String
print v = "?"

abbrev secret : String
secret = "t"

abbrev web : Fields
web = field "service" (str "web") end

shell_refused :
    execute_request print "t" "t" "shell" web ≡ raised (http_exception 400 "tool not allow-listed")
unfolding execute_request
shell_refused = refl

execute_request-IsAllowed_example :
    (secret ≡ secret) × IsAllowed "restart_service" (restart_output web)
execute_request-IsAllowed_example =
    execute_request-IsAllowed print web secret secret "restart_service" (restart_output web)
      (unfold execute_request in refl)
