-- ===== src/Tools/Execute.antt =====
-- `execute_tool` (app/tools.py), one function per tool. A value that is JSON's is a `Fields` here.
use aurelian_autonomous_ente.Prelude.{
  ℕ, ◌-◌, ◌*◌, String, Bool, true, false, not, ◌&&◌, List, [], ◌∷◌, map, Option, none, some, ◌==◌,
  ltb, leb, length, take, select, find, update_where, concat, contains, if◌then◌else◌,
}
use aurelian_autonomous_ente.Json.{
  Value, Fields, bool, nat, float, str, list, dict, end, field, get_null, py_str, or_else,
}
use aurelian_autonomous_ente.Result.{error, Result, ok, raised, ◌>>=◌}
use aurelian_autonomous_ente.Floats.{min_float, sum_from}
use aurelian_autonomous_ente.World.Rows.{ProductRow, CustomerRow, OrderRow, Store}
use aurelian_autonomous_ente.Runner.Execute.{arg}
use aurelian_autonomous_ente.Tools.Host.{
  ToolHost, read, write, to_float, order_by, product_fields, customer_fields, order_fields,
  row_or_null, items_of,
}
use aurelian_autonomous_ente.Tools.Sandbox.{isolated}

-- What the statements select.
abbrev pub products_of : String → Store → List ProductRow
products_of tenant s = select (λ (p : ProductRow). p.tenant_id == tenant) s.products

abbrev pub is_product : String → String → ProductRow → Bool
is_product tenant sku p = p.tenant_id == tenant && p.sku == sku

abbrev pub is_customer : String → String → CustomerRow → Bool
is_customer tenant code c = c.tenant_id == tenant && c.customer_code == code

abbrev pub is_order : String → String → OrderRow → Bool
is_order tenant code o = o.tenant_id == tenant && o.order_code == code

abbrev pub by_stock : List ProductRow → List ProductRow
by_stock = order_by (λ (p q : ProductRow). leb p.stock q.stock)

abbrev pub latest_first : List OrderRow → List OrderRow
latest_first = order_by (λ (p q : OrderRow). leb q.id p.id)

-- `max(p["reorder_point"]*3,30)`
abbrev pub target_of : ProductRow → ℕ
target_of p = if ltb (p.reorder_point * 3) 30 then 30 else p.reorder_point * 3

-- `max(target-p["stock"],0)`; subtraction on ℕ stops at 0.
abbrev pub units_of : ProductRow → ℕ
units_of p = target_of p - p.stock

pub record Recommendation : Type 0 where
  pub sku : String
  pub name : String
  pub current_stock : ℕ
  pub recommended_units : ℕ
  pub demand_trend : String

abbrev recommendation : ProductRow → Recommendation
recommendation p = record {
  sku = p.sku;
  name = p.name;
  current_stock = p.stock;
  recommended_units = units_of p;
  demand_trend = p.demand_trend;
}

-- The loop of `recommend_reorders`.
unfoldable pub recommend : List ProductRow → List Recommendation
recommend [] = []
recommend (p ∷ ps) =
    if leb p.stock p.reorder_point then recommendation p ∷ recommend ps else recommend ps

abbrev pub recommendation_fields : Recommendation → Fields
recommendation_fields r = field "sku" (str r.sku) (
    field "name" (str r.name) (
      field "current_stock" (nat r.current_stock) (
        field "recommended_units" (nat r.recommended_units) (
          field "reason" (str (concat ("Below reorder point; demand " ∷ r.demand_trend ∷ "." ∷ [])))
            end))))

-- `{"tool": tool, "args": args}`
abbrev pub compensation_fields : String → Fields → Value
compensation_fields tool args = dict (field "tool" (str tool) (field "args" (dict args) end))

module _ (h : ToolHost) (n : ℕ) (tenant : String) (args : Fields) (s : Store) where
  -- `str(args.get(key, default)).upper()`
  abbrev pub upper_arg : String → String → String
  upper_arg key default = h.upper (py_str h.repr (arg args key (str default)))

  unfoldable pub list_inventory : Result Fields
  list_inventory =
      let sku = upper_arg "sku" "" in
      if sku == ""
      then (read (h.first_fault n) (by_stock (products_of tenant s)) >>= λ ps.
          ok (field "products" (list (items_of product_fields ps)) end))
      else read (h.first_fault n) (find (is_product tenant sku) s.products) >>= λ p.
          ok (field "product" (row_or_null product_fields p) end)

  unfoldable pub recommend_reorders : Result Fields
  recommend_reorders = do
    ps ← read (h.first_fault n) (by_stock (products_of tenant s))
    let found = recommend ps
    ok (
        field "recommendations" (list (items_of recommendation_fields found))
          (field "count" (nat (length found)) end))

  unfoldable pub get_customer_profile : Result Fields
  get_customer_profile = do
    let code = upper_arg "customer_code" "CUST-001"
    c ← read (h.first_fault n) (find (is_customer tenant code) s.customers)
    let own = select (λ (o : OrderRow). o.tenant_id == tenant && o.customer_code == code) s.orders
    o ← read (h.second_fault n) (take 5 (latest_first own))
    ok (
        field "customer" (row_or_null customer_fields c)
          (field "recent_orders" (list (items_of order_fields o)) end))

  unfoldable pub get_order_backlog : Result Fields
  get_order_backlog = do
    let open_ =
        select (λ (o : OrderRow). o.tenant_id == tenant && not (o.status == "fulfilled")) s.orders
    o ← read (h.first_fault n) (latest_first open_)
    let value = h.floats.round (sum_from h.floats 0 (map (λ (x : OrderRow). x.total) o)) 2
    ok (
        field "open_orders" (list (items_of order_fields o))
          (field "count" (nat (length o)) (field "open_value" (float value) end)))

  -- `UPDATE products SET price=?`
  abbrev pub set_price : String → ℕ → Store
  set_price sku price = record s {
    products =
        update_where (is_product tenant sku) (λ (p : ProductRow). record p { price = price })
          s.products;
  }

  abbrev pub price_output : String → ℕ → ℕ → Fields
  price_output sku old new = field "changed" (bool true) (
      field "sku" (str sku) (
        field "old_price" (float old) (
          field "new_price" (float new) (
            field "compensation"
              (compensation_fields "change_product_price"
                (field "sku" (str sku) (field "new_price" (float old) end)))
              end))))

  abbrev pub after_product : String → ℕ → Result (Option ProductRow) → Result Fields × Store
  after_product sku new (raised e) = (raised e, s)
  after_product sku new (ok none) =
      (ok (field "changed" (bool false) (field "reason" (str "SKU not found") end)), s)
  after_product sku new (ok (some p)) =
      write (h.second_fault n) (set_price sku new) (price_output sku p.price new) s

  abbrev pub after_new_price : String → Result ℕ → Result Fields × Store
  after_new_price sku (raised e) = (raised e, s)
  after_new_price sku (ok new) =
      after_product sku new (read (h.first_fault n) (find (is_product tenant sku) s.products))

  unfoldable pub change_product_price : Result Fields × Store
  change_product_price =
      after_new_price (upper_arg "sku" "AUR-101") (to_float h (arg args "new_price" (nat 0)))

  abbrev pub refund_output : String → ℕ → Fields
  refund_output code amount = field "refunded" (bool true) (
      field "order_code" (str code) (
        field "amount" (float (h.floats.round amount 2)) (
          field "mode" (str "simulated-financial-write") (
            field "compensation"
              (compensation_fields "void_refund"
                (field "order_code" (str code) (field "amount" (float amount) end)))
              end))))

  -- `min(float(args.get("amount") or order["total"]), float(order["total"]))`
  unfoldable pub refund_amount : OrderRow → Result ℕ
  refund_amount o = to_float h (or_else (get_null "amount" args) (float o.total)) >>= λ asked.
      ok (min_float h.floats asked o.total)

  abbrev pub after_order : String → Option OrderRow → Result Fields
  after_order code none =
      ok (field "refunded" (bool false) (field "reason" (str "Order not found") end))
  after_order code (some o) = refund_amount o >>= λ amount. ok (refund_output code amount)

  unfoldable pub issue_refund : Result Fields
  issue_refund =
      let code = upper_arg "order_code" "ORD-1001" in
      read (h.first_fault n) (find (is_order tenant code) s.orders) >>= after_order code

  unfoldable pub disable_user_account : Result Fields
  disable_user_account =
      let user = py_str h.repr (arg args "user" (str "unknown")) in
      ok (
        field "user" (str user) (
          field "disabled" (bool true) (
            field "mode" (str "simulated-identity-write") (
              field "compensation"
                (compensation_fields "enable_user_account" (field "user" (str user) end)) end))))

  unfoldable pub search_knowledge : Result Fields
  search_knowledge =
      h.search_documents n tenant (arg args "query" (str ""))
        (arg args "environment" (str "production")) (get_null "service" args)

-- The last branches of `execute_tool`: only a change of a price writes.
abbrev pub privileged_tool : ToolHost → ℕ → String → String → Fields → Store → Result Fields × Store
privileged_tool h n tenant name args s =
    if name == "change_product_price"
    then change_product_price h n tenant args s
    else if name == "issue_refund"
    then (issue_refund h n tenant args s, s)
    else if name == "disable_user_account"
    then (disable_user_account h n tenant args s, s)
    else (raised (error "ValueError"), s)

-- `execute_tool`
unfoldable pub execute_tool :
    ToolHost → ℕ → String → String → Fields → Store → Result Fields × Store
execute_tool h n tenant name args s =
    if name == "search_knowledge"
    then (search_knowledge h n tenant args s, s)
    else if name == "list_inventory"
    then (list_inventory h n tenant args s, s)
    else if name == "recommend_reorders"
    then (recommend_reorders h n tenant args s, s)
    else if name == "get_customer_profile"
    then (get_customer_profile h n tenant args s, s)
    else if name == "get_order_backlog"
    then (get_order_backlog h n tenant args s, s)
    else if name == "get_service_health"
    then (isolated h n name args, s)
    else if contains name ("send_notice" ∷ "restart_service" ∷ [])
    then (isolated h n name args, s)
    else privileged_tool h n tenant name args s
