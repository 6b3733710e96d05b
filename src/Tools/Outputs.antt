-- ===== src/Tools/Outputs.antt =====
-- The engine's checks of an output and of a compensation (app/agent.py) pass on what the tools of
-- app/tools.py answer.
use aurelian_autonomous_ente.Prelude.{
  ℕ, String, ◌≡◌, ◌≢◌, inl, inr, refl, subst, Bool, true, false, [], ◌∷◌, Option, none, some, ◌==◌,
  eq_iff, contains, find, Bool-cases, if◌then◌else◌,
}
use aurelian_autonomous_ente.Json.{Fields, nat, dict, get}
use aurelian_autonomous_ente.Result.{Result, ok, raised, Ensures, Ensures-bind}
use aurelian_autonomous_ente.World.Effects.{Fault, done, refused, reply_lost}
use aurelian_autonomous_ente.World.Rows.{ProductRow, OrderRow, Store}
use aurelian_autonomous_ente.Engine.Output.{verify_output, validate_compensation}
use aurelian_autonomous_ente.Runner.Execute.{arg}
use aurelian_autonomous_ente.Tools.Host.{ToolHost, read, write, to_float}
use aurelian_autonomous_ente.Tools.Sandbox.{
  worker_health, worker_restart, worker_notice, worker, outcome, isolated,
}
use aurelian_autonomous_ente.Tools.Execute.{
  upper_arg, after_product, after_new_price, after_order, set_price, price_output, refund_output,
  refund_amount, is_product, list_inventory, recommend_reorders, get_customer_profile,
  get_order_backlog, change_product_price, issue_refund, disable_user_account, privileged_tool,
  execute_tool,
}

-- The engine accepts the output, and the compensation in it, if there is one.
abbrev pub IsAccepted : String → Fields → Type 0
IsAccepted tool out =
    ((verify_output tool out).0 ≡ true)
    × ((comp : Fields)
        → get "compensation" out ≡ some (dict comp)
        → (validate_compensation tool comp).0 ≡ true)

compensated :
    (tool : String) (made comp : Fields)
    → (validate_compensation tool made).0 ≡ true
    → some (dict made) ≡ some (dict comp)
    → (validate_compensation tool comp).0 ≡ true
compensated tool made comp v e =
    let same : made ≡ comp = cc in subst (λ x. (validate_compensation tool x).0 ≡ true) same v

-- A tool that is called by its name.
named :
    (literal name : String) (out : Fields)
    → (name == literal) ≡ true
    → IsAccepted literal out
    → IsAccepted name out
named literal name out e a = rw ((eq_iff name literal).0 e) a

module _ (h : ToolHost) (n : ℕ) (tenant : String) (args : Fields) (s : Store) where
  list_inventory-IsAccepted :
      Ensures (IsAccepted "list_inventory") (list_inventory h n tenant args s)
  unfolding list_inventory verify_output
  list_inventory-IsAccepted = elim (Bool-cases (upper_arg h n tenant args s "sku" "" == "")) [
    | inl whole ↦
        rw whole (Ensures-bind _ (read (h.first_fault n) _) _ (λ ps e. (refl, λ comp c. cc)))
    | inr one ↦ rw one (Ensures-bind _ (read (h.first_fault n) _) _ (λ p e. (refl, λ comp c. cc)))
  ]

  recommend_reorders-IsAccepted :
      Ensures (IsAccepted "recommend_reorders") (recommend_reorders h n tenant args s)
  unfolding recommend_reorders verify_output
  recommend_reorders-IsAccepted =
      Ensures-bind _ (read (h.first_fault n) _) _ (λ ps e. (refl, λ comp c. cc))

  get_customer_profile-IsAccepted :
      Ensures (IsAccepted "get_customer_profile") (get_customer_profile h n tenant args s)
  unfolding get_customer_profile verify_output
  get_customer_profile-IsAccepted =
      Ensures-bind _ (read (h.first_fault n) _) _
        (λ c e. Ensures-bind _ (read (h.second_fault n) _) _ (λ o e'. (refl, λ comp d. cc)))

  get_order_backlog-IsAccepted :
      Ensures (IsAccepted "get_order_backlog") (get_order_backlog h n tenant args s)
  unfolding get_order_backlog verify_output
  get_order_backlog-IsAccepted =
      Ensures-bind _ (read (h.first_fault n) _) _ (λ o e. (refl, λ comp c. cc))

  price_output-IsAccepted :
      (sku : String) (old new : ℕ)
      → IsAccepted "change_product_price" (price_output h n tenant args s sku old new)
  unfolding verify_output validate_compensation
  price_output-IsAccepted sku old new =
      (refl, λ comp c. compensated "change_product_price" _ comp refl c)

  written-IsAccepted :
      (f : Fault) (sku : String) (old new : ℕ) (s' : Store)
      → Ensures
          (IsAccepted "change_product_price")
          (write f s' (price_output h n tenant args s sku old new) s).0
  written-IsAccepted done sku old new s' = price_output-IsAccepted sku old new
  written-IsAccepted (refused e) sku old new s' = tt
  written-IsAccepted (reply_lost e) sku old new s' = tt

  after_product-IsAccepted :
      (sku : String) (new : ℕ) (r : Result (Option ProductRow))
      → Ensures (IsAccepted "change_product_price") (after_product h n tenant args s sku new r).0
  unfolding verify_output
  after_product-IsAccepted sku new (raised e) = tt
  after_product-IsAccepted sku new (ok none) = (refl, λ comp c. cc)
  after_product-IsAccepted sku new (ok (some p)) =
      written-IsAccepted (h.second_fault n) sku p.price new (set_price h n tenant args s sku new)

  after_new_price-IsAccepted :
      (sku : String) (r : Result ℕ)
      → Ensures (IsAccepted "change_product_price") (after_new_price h n tenant args s sku r).0
  after_new_price-IsAccepted sku (raised e) = tt
  after_new_price-IsAccepted sku (ok new) =
      after_product-IsAccepted sku new
        (read (h.first_fault n) (find (is_product tenant sku) s.products))

  change_product_price-IsAccepted :
      Ensures (IsAccepted "change_product_price") (change_product_price h n tenant args s).0
  unfolding change_product_price
  change_product_price-IsAccepted =
      after_new_price-IsAccepted (upper_arg h n tenant args s "sku" "AUR-101")
        (to_float h (arg args "new_price" (nat 0)))

  after_order-IsAccepted :
      (code : String) (o : Option OrderRow)
      → Ensures (IsAccepted "issue_refund") (after_order h n tenant args s code o)
  unfolding verify_output validate_compensation
  after_order-IsAccepted code none = (refl, λ comp c. cc)
  after_order-IsAccepted code (some o) =
      Ensures-bind (IsAccepted "issue_refund") (refund_amount h n tenant args s o)
        (λ amount. ok (refund_output h n tenant args s code amount))
        (λ amount e. (refl, λ comp c. compensated "issue_refund" _ comp refl c))

  issue_refund-IsAccepted : Ensures (IsAccepted "issue_refund") (issue_refund h n tenant args s)
  unfolding issue_refund
  issue_refund-IsAccepted =
      Ensures-bind _ (read (h.first_fault n) _) _ (λ o e. after_order-IsAccepted _ o)

  disable_user_account-IsAccepted :
      Ensures (IsAccepted "disable_user_account") (disable_user_account h n tenant args s)
  unfolding disable_user_account verify_output validate_compensation
  disable_user_account-IsAccepted =
      (refl, λ comp c. compensated "disable_user_account" _ comp refl c)

  worker-IsAccepted :
      (name : String) (late : Bool) → Ensures (IsAccepted name) (outcome h late (worker name args))
  unfolding worker verify_output
  worker-IsAccepted name true = tt
  worker-IsAccepted name false = elim (Bool-cases (name == "get_service_health")) [
    | inl a ↦ rw a (named "get_service_health" name (worker_health args) a (refl, λ comp c. cc))
    | inr a ↦ elim (Bool-cases (name == "restart_service")) [
      | inl b ↦
          rw (a, b) (named "restart_service" name (worker_restart args) b (refl, λ comp c. cc))
      | inr b ↦ elim (Bool-cases (name == "send_notice")) [
        | inl c ↦
            rw (a, b, c) (named "send_notice" name (worker_notice args) c (refl, λ comp d. cc))
        | inr c ↦ elim (Bool-cases (name == "simulate_timeout")) [
          | inl d ↦ rw (a, b, c, d) tt
          | inr d ↦ rw (a, b, c, d) tt
        ]
      ]
    ]
  ]

  isolated-IsAccepted :
      (name : String) → h.tool_runner_url ≡ "" → Ensures (IsAccepted name) (isolated h n name args)
  unfolding isolated
  isolated-IsAccepted name local =
      rw ((eq_iff h.tool_runner_url "").1 local) (worker-IsAccepted name (h.is_late n))

  -- A branch of `execute_tool` for a tool that is called by its name.
  Accepts : String → Result Fields × Store → Type 0
  Accepts name r = Ensures (IsAccepted name) r.0

  when :
      (literal name : String) (r q : Result Fields × Store)
      → Accepts literal r
      → Accepts name q
      → Accepts name (if name == literal then r else q)
  unfolding Accepts
  when literal name r q a b = elim (Bool-cases (name == literal)) [
    | inl same ↦ rw same (rw ((eq_iff name literal).0 same) a)
    | inr other ↦ rw other b
  ]

  either :
      (name : String) (t : Bool) (r q : Result Fields × Store)
      → Accepts name r
      → Accepts name q
      → Accepts name (if t then r else q)
  unfolding Accepts
  either name true r q a b = a
  either name false r q a b = b

  -- The branches that write or make something to undo, and the last one.
  privileged-Accepts : (name : String) → Accepts name (privileged_tool h n tenant name args s)
  unfolding Accepts
  privileged-Accepts name = when "change_product_price" name _ _ change_product_price-IsAccepted (
      when "issue_refund" name _ _ issue_refund-IsAccepted
        (when "disable_user_account" name _ _ disable_user_account-IsAccepted tt))

  -- In a deployment without a remote runner, whatever a tool other than the search answers, for any
  -- arguments and tables and whichever statements fail, the engine's check of its output passes, and
  -- so does the check of the compensation in it, if there is one.
  pub execute_tool-IsAccepted :
      (name : String)
      → h.tool_runner_url ≡ ""
      → name ≢ "search_knowledge"
      → Ensures (IsAccepted name) (execute_tool h n tenant name args s).0
  unfolding execute_tool Accepts
  execute_tool-IsAccepted name local other =
      let remote = isolated-IsAccepted name local in
      elim (Bool-cases (name == "search_knowledge")) [
        | inl search ↦ absurd (other ((eq_iff name "search_knowledge").0 search))
        | inr no_search ↦ rw no_search (
            when "list_inventory" name _ _ list_inventory-IsAccepted (
              when "recommend_reorders" name _ _ recommend_reorders-IsAccepted (
                when "get_customer_profile" name _ _ get_customer_profile-IsAccepted (
                  when "get_order_backlog" name _ _ get_order_backlog-IsAccepted (
                    either name (name == "get_service_health") (isolated h n name args, s) _ remote
                      (either name (contains name ("send_notice" ∷ "restart_service" ∷ []))
                        (isolated h n name args, s) (privileged_tool h n tenant name args s) remote
                        (privileged-Accepts name)))))))
      ]
