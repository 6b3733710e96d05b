-- ===== src/Tools/Arguments.antt =====
-- The arguments that each tool of app/tools.py reads; all else that it is given it passes over.
use aurelian_autonomous_ente.Prelude.{
  ℕ, String, ◌≡◌, refl, ap, subst, ◌∙◌, ◌&&◌, take, select, find, Option, none, some, Bool, true,
  false, List, [], ◌∷◌, inl, inr, ◌==◌, eq_iff, lookup, get_or, contains, Bool-cases, if◌then◌else◌,
}
use aurelian_autonomous_ente.Json.{
  Value, Fields, list, end, field, null, nat, float, str, get, or_else, py_str,
}
use aurelian_autonomous_ente.Result.{Result, ok, raised, ◌>>=◌}
use aurelian_autonomous_ente.Floats.{min_float}
use aurelian_autonomous_ente.World.Effects.{Fault, done, refused, reply_lost}
use aurelian_autonomous_ente.World.Rows.{Store, ProductRow, OrderRow}
use aurelian_autonomous_ente.Tools.Host.{
  items_of, product_fields, customer_fields, order_fields, row_or_null, ToolHost, read, to_float,
}
use aurelian_autonomous_ente.Tools.Sandbox.{worker, outcome, isolated}
use aurelian_autonomous_ente.Tools.Execute.{
  list_inventory, recommend_reorders, get_customer_profile, get_order_backlog, change_product_price,
  issue_refund, refund_amount, products_of, upper_arg, is_customer, by_stock, latest_first,
  after_order, refund_output, is_order, is_product, after_product, after_new_price,
  disable_user_account, search_knowledge, privileged_tool, execute_tool,
}

-- The arguments that `execute_tool` reads, by the tool; for the tools of a process of their own, those
-- that app/sandbox_worker.py reads.
abbrev pub read_args : List (String × List String)
read_args =
    ("search_knowledge", "query" ∷ "environment" ∷ "service" ∷ [])
    ∷ ("get_service_health", "service" ∷ [])
    ∷ ("list_inventory", "sku" ∷ [])
    ∷ ("recommend_reorders", [])
    ∷ ("get_customer_profile", "customer_code" ∷ [])
    ∷ ("get_order_backlog", [])
    ∷ ("send_notice", "channel" ∷ "message" ∷ [])
    ∷ ("restart_service", "service" ∷ [])
    ∷ ("change_product_price", "sku" ∷ "new_price" ∷ [])
    ∷ ("issue_refund", "order_code" ∷ "amount" ∷ [])
    ∷ ("disable_user_account", "user" ∷ [])
    ∷ []

abbrev pub reads_of : String → List String
reads_of name = get_or (lookup name read_args) []

-- Arguments that are the same under each of some keys.
abbrev pub AgreeOn : List String → Fields → Fields → Type 0
AgreeOn ks a b = (k : String) → contains k ks ≡ true → get k a ≡ get k b

-- Two runs of a branch for a tool that is called by its name.
when_same {ℓ} :
    {A : Type ℓ} (literal name : String) (r r' q q' : A)
    → (name ≡ literal → r ≡ r')
    → q ≡ q'
    → (if name == literal then r else q) ≡ (if name == literal then r' else q')
when_same literal name r r' q q' same rest = elim (Bool-cases (name == literal)) [
  | inl here ↦ rw here (same ((eq_iff name literal).0 here))
  | inr other ↦ rw other rest
]

either_same {ℓ} :
    {A : Type ℓ} (t : Bool) (r r' q q' : A)
    → r ≡ r'
    → q ≡ q'
    → (if t then r else q) ≡ (if t then r' else q')
either_same true r r' q q' same rest = same
either_same false r r' q q' same rest = rest

module _ (args given : Fields) (name : String) (agree : AgreeOn (reads_of name) args given) where
  -- What the two have in common under a key that the tool of a branch reads.
  at_key :
      (literal k : String)
      → name ≡ literal
      → contains k (reads_of literal) ≡ true
      → get k args ≡ get k given
  at_key literal k e h = subst (λ x. AgreeOn (reads_of x) args given) e agree k h

  worker_same : worker name args ≡ worker name given
  unfolding worker
  worker_same =
      when_same "get_service_health" name _ _ _ _
        (λ e. rw (at_key "get_service_health" "service" e refl) refl)
        (when_same "restart_service" name _ _ _ _
          (λ e. rw (at_key "restart_service" "service" e refl) refl)
          (when_same "send_notice" name _ _ _ _
            (λ e.
              rw (at_key "send_notice" "channel" e refl, at_key "send_notice" "message" e refl)
                refl)
            refl))

  module _ (h : ToolHost) (n : ℕ) (tenant : String) (s : Store)
      (local : h.tool_runner_url ≡ "") where
    isolated_same : isolated h n name args ≡ isolated h n name given
    unfolding isolated
    isolated_same =
        rw ((eq_iff h.tool_runner_url "").1 local) (ap (λ w. outcome h (h.is_late n) w) worker_same)

    search_same :
        name ≡ "search_knowledge"
        → search_knowledge h n tenant args s ≡ search_knowledge h n tenant given s
    unfolding search_knowledge
    search_same e =
        let at = at_key "search_knowledge" in
        let run = λ (q v o : Option Value).
          h.search_documents n tenant (get_or q (str "")) (get_or v (str "production"))
            (get_or o null) in
        ap (λ q. run q (get "environment" args) (get "service" args)) (at "query" e refl)
        ∙ ap (λ v. run (get "query" given) v (get "service" args)) (at "environment" e refl)
        ∙ ap (run (get "query" given) (get "environment" given)) (at "service" e refl)

    upper_same :
        (literal k default : String)
        → name ≡ literal
        → contains k (reads_of literal) ≡ true
        → upper_arg h n tenant args s k default ≡ upper_arg h n tenant given s k default
    upper_same literal k default e listed =
        ap (λ o. h.upper (py_str h.repr (get_or o (str default)))) (at_key literal k e listed)

    list_same :
        name ≡ "list_inventory"
        → list_inventory h n tenant args s ≡ list_inventory h n tenant given s
    unfolding list_inventory
    list_same e =
        ap
          (λ sku.
            if sku == ""
            then (read (h.first_fault n) (by_stock (products_of tenant s)) >>= λ ps.
                ok (field "products" (list (items_of product_fields ps)) end))
            else read (h.first_fault n) (find (is_product tenant sku) s.products) >>= λ p.
                ok (field "product" (row_or_null product_fields p) end))
          (upper_same "list_inventory" "sku" "" e refl)

    profile_same :
        name ≡ "get_customer_profile"
        → get_customer_profile h n tenant args s ≡ get_customer_profile h n tenant given s
    unfolding get_customer_profile
    profile_same e =
        ap
          (λ code. read (h.first_fault n) (find (is_customer tenant code) s.customers) >>= λ c.
            let own =
              select (λ (o : OrderRow). o.tenant_id == tenant && o.customer_code == code)
                s.orders in
            read (h.second_fault n) (take 5 (latest_first own)) >>= λ o. ok (
              field "customer" (row_or_null customer_fields c)
                (field "recent_orders" (list (items_of order_fields o)) end)))
          (upper_same "get_customer_profile" "customer_code" "CUST-001" e refl)

    disable_same :
        name ≡ "disable_user_account"
        → disable_user_account h n tenant args s ≡ disable_user_account h n tenant given s
    unfolding disable_user_account
    disable_same e = rw (at_key "disable_user_account" "user" e refl) refl

    after_new_price_same :
        (sku : String) (r : Result ℕ)
        → after_new_price h n tenant args s sku r ≡ after_new_price h n tenant given s sku r
    after_new_price_same sku (raised e) = refl
    after_new_price_same sku (ok new) =
        found_same (read (h.first_fault n) (find (is_product tenant sku) s.products))
      where
        found_same :
            (p : Result (Option ProductRow))
            → after_product h n tenant args s sku new p ≡ after_product h n tenant given s sku new p
        found_same (raised e) = refl
        found_same (ok none) = refl
        found_same (ok (some p)) = refl

    price_same :
        name ≡ "change_product_price"
        → change_product_price h n tenant args s ≡ change_product_price h n tenant given s
    unfolding change_product_price
    price_same e =
        let at = at_key "change_product_price" in
        let new = λ (o : Option Value). to_float h (get_or o (nat 0)) in
        ap (λ sku. after_new_price h n tenant args s sku (new (get "new_price" args)))
          (upper_same "change_product_price" "sku" "AUR-101" e refl)
        ∙ ap
            (λ o.
              after_new_price h n tenant args s (upper_arg h n tenant given s "sku" "AUR-101")
                (new o))
            (at "new_price" e refl)
        ∙ after_new_price_same _ _

    refund_amount_same :
        name ≡ "issue_refund"
        → (o : OrderRow) → refund_amount h n tenant args s o ≡ refund_amount h n tenant given s o
    unfolding refund_amount
    refund_amount_same e o =
        ap
          (λ v. to_float h (or_else (get_or v null) (float o.total)) >>= λ asked.
            ok (min_float h.floats asked o.total))
          (at_key "issue_refund" "amount" e refl)

    after_order_same :
        name ≡ "issue_refund"
        → (code : String) (o : Option OrderRow)
        → after_order h n tenant args s code o ≡ after_order h n tenant given s code o
    after_order_same e code none = refl
    after_order_same e code (some o) =
        ap (λ r. r >>= λ amount. ok (refund_output h n tenant args s code amount))
          (refund_amount_same e o)

    refund_same :
        name ≡ "issue_refund" → issue_refund h n tenant args s ≡ issue_refund h n tenant given s
    unfolding issue_refund
    refund_same e =
        ap
          (λ code.
            read (h.first_fault n) (find (is_order tenant code) s.orders)
            >>= after_order h n tenant args s code)
          (upper_same "issue_refund" "order_code" "ORD-1001" e refl)
        ∙ then_same (h.first_fault n) _
      where
        then_same :
            (f : Fault) (code : String)
            → (read f (find (is_order tenant code) s.orders) >>= after_order h n tenant args s code)
              ≡ (read f (find (is_order tenant code) s.orders)
                  >>= after_order h n tenant given s code)
        then_same done code = after_order_same e code _
        then_same (refused x) code = refl
        then_same (reply_lost x) code = refl

    privileged_same :
        privileged_tool h n tenant name args s ≡ privileged_tool h n tenant name given s
    privileged_same = when_same "change_product_price" name _ _ _ _ price_same (
        when_same "issue_refund" name _ _ _ _ (λ e. ap (λ r. (r, s)) (refund_same e))
          (when_same "disable_user_account" name _ _ _ _ (λ e. ap (λ r. (r, s)) (disable_same e))
            refl))

    -- In a deployment without a remote runner, whatever tool is run on whatever tables, and whichever
    -- statements fail, two runs whose arguments agree under the keys that `read_args` lists for the tool
    -- give the same output and leave the same tables.
    pub execute_tool-reads :
        execute_tool h n tenant name args s ≡ execute_tool h n tenant name given s
    unfolding execute_tool recommend_reorders get_order_backlog
    execute_tool-reads =
        when_same "search_knowledge" name _ _ _ _ (λ e. ap (λ r. (r, s)) (search_same e))
          (when_same "list_inventory" name _ _ _ _ (λ e. ap (λ r. (r, s)) (list_same e))
            (when_same "recommend_reorders" name _ _ _ _ (λ e. refl)
              (when_same "get_customer_profile" name _ _ _ _
                (λ e. ap (λ r. (r, s)) (profile_same e))
                (when_same "get_order_backlog" name _ _ _ _ (λ e. refl)
                  (either_same (name == "get_service_health") _ _ _ _
                    (ap (λ r. (r, s)) isolated_same)
                    (either_same (contains name ("send_notice" ∷ "restart_service" ∷ [])) _ _ _ _
                      (ap (λ r. (r, s)) isolated_same) privileged_same))))))
