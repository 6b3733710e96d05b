-- ===== src/Engine/Output.antt =====
-- `_verify_output`, `_validate_compensation` and the tables that they read (app/agent.py).
use Prim.Native.String.{◌++◌}
use aurelian_autonomous_ente.Prelude.{
  String, Bool, true, false, not, ◌&&◌, ◌||◌, List, [], ◌∷◌, none, some, ◌==◌, lookup, get_or,
  select, contains, concat, if◌then◌else◌,
}
use aurelian_autonomous_ente.Json.{Value, Fields, dict, keys, get_null, is_text}

-- `",".join(names)`
abbrev pub join_commas : List String → String
join_commas [] = ""
join_commas (w ∷ []) = w
join_commas (w ∷ v ∷ ws) = w ++ ("," ++ join_commas (v ∷ ws))

-- `required - set(d)`; each row of the tables is in order, so what is missing is sorted.
abbrev pub missing_keys : List String → Fields → List String
missing_keys required d = select (λ k. not (contains k (keys d))) required

abbrev pub required_output : List (String × List String)
required_output =
    ("search_knowledge", "matches" ∷ [])
    ∷ ("get_service_health", "status" ∷ [])
    ∷ ("list_inventory", [])
    ∷ ("recommend_reorders", "recommendations" ∷ [])
    ∷ ("get_customer_profile", "customer" ∷ "recent_orders" ∷ [])
    ∷ ("get_order_backlog", "open_orders" ∷ [])
    ∷ ("send_notice", "delivered" ∷ [])
    ∷ ("restart_service", "restarted" ∷ [])
    ∷ ("change_product_price", "changed" ∷ [])
    ∷ ("issue_refund", "refunded" ∷ [])
    ∷ ("disable_user_account", "disabled" ∷ [])
    ∷ []

abbrev verdict : String → String → List String → Bool × String
verdict fine complaint [] = (true, fine)
verdict fine complaint (k ∷ ks) = (false, concat (complaint ∷ join_commas (k ∷ ks) ∷ []))

-- The output of a tool is an object here.
unfoldable pub verify_output : String → Fields → Bool × String
verify_output tool output =
    if tool == "list_inventory"
      && not (contains "product" (keys output) || contains "products" (keys output))
    then (false, "inventory output missing product(s)")
    else verdict "tool output schema satisfied" "missing output keys: "
        (missing_keys (get_or (lookup tool required_output) []) output)

-- `COMPENSATION_PAIRS`
abbrev pub compensation_pairs : List (String × String)
compensation_pairs =
    ("change_product_price", "change_product_price")
    ∷ ("issue_refund", "void_refund")
    ∷ ("disable_user_account", "enable_user_account")
    ∷ []

abbrev pub required_args : List (String × List String)
required_args =
    ("change_product_price", "new_price" ∷ "sku" ∷ [])
    ∷ ("void_refund", "amount" ∷ "order_code" ∷ [])
    ∷ ("enable_user_account", "user" ∷ [])
    ∷ []

abbrev validate_args : String → Value → Bool × String
validate_args expected (dict args) =
    verdict "registered compensation relation validated" "compensation missing required args: "
      (missing_keys (get_or (lookup expected required_args) []) args)
validate_args expected v = (false, "compensation args must be an object")

unfoldable pub validate_compensation : String → Fields → Bool × String
validate_compensation original comp = elim (lookup original compensation_pairs) [
  | none ↦ (false, "original tool has no registered compensation")
  | some expected ↦
      if not (is_text expected (get_null "tool" comp))
      then (false, "compensation tool does not match original tool")
      else validate_args expected (get_null "args" comp)
]
