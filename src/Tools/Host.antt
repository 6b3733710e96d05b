-- ===== src/Tools/Host.antt =====
-- What the tools of app/tools.py stand on: the business tables, each statement of which may fail,
-- conversions of Python, and the two ways to run a tool in isolation.
use aurelian_autonomous_ente.Prelude.{
  ℕ, String, Bool, true, false, List, [], ◌∷◌, Option, none, some, if◌then◌else◌,
}
use aurelian_autonomous_ente.Json.{
  Value, Items, Fields, null, bool, nat, negative, float, str, list, dict, nil, cons, field,
}
use aurelian_autonomous_ente.Result.{error, Result, ok, raised}
use aurelian_autonomous_ente.Floats.{Floats}
use aurelian_autonomous_ente.World.Effects.{Fault, done, refused, reply_lost}
use aurelian_autonomous_ente.World.Rows.{ProductRow, CustomerRow, OrderRow, Store}

pub record ToolHost : Type 0 where
  pub floats : Floats
  -- `.upper()`, the print of numbers, lists and dicts, and `float(s)` of a text
  pub upper : String → String
  pub repr : Value → String
  pub parse_float : String → Result ℕ
  -- how the first and the second statement of a call end
  pub first_fault : ℕ → Fault
  pub second_fault : ℕ → Fault
  pub tool_runner_url : String
  -- the runner's reply, read as JSON, and the current trace, if there is one
  pub runner : ℕ → String → Fields → Result Fields
  pub trace_id : ℕ → Option String
  -- whether the child process is over the timeout
  pub is_late : ℕ → Bool
  -- `search(tenant_id, query, environment, service)`, its result as a dict
  pub search_documents : ℕ → String → Value → Value → Value → Result Fields

module _ {A : Type 0} where
  -- A statement that reads.
  abbrev pub read : Fault → A → Result A
  read done a = ok a
  read (refused e) a = raised e
  read (reply_lost e) a = raised e

  -- A statement that writes, and what follows it.
  abbrev pub write : Fault → Store → A → Store → Result A × Store
  write done changed a s = (ok a, changed)
  write (refused e) changed a s = (raised e, s)
  write (reply_lost e) changed a s = (raised e, changed)

-- `float(v)`
unfoldable pub to_float : ToolHost → Value → Result ℕ
to_float h null = raised (error "TypeError")
to_float h (bool true) = ok (h.floats.of_nat 1)
to_float h (bool false) = ok (h.floats.of_nat 0)
to_float h (nat n) = ok (h.floats.of_nat n)
to_float h (negative n) = ok (h.floats.neg (h.floats.of_nat n))
to_float h (float w) = ok w
to_float h (str s) = h.parse_float s
to_float h (list vs) = raised (error "TypeError")
to_float h (dict d) = raised (error "TypeError")

-- `ORDER BY`: the test says which of two rows may come first.
module _ {A : Type 0} (before : A → A → Bool) where
  unfoldable pub insert_by : A → List A → List A
  insert_by a [] = a ∷ []
  insert_by a (x ∷ xs) = if before a x then a ∷ x ∷ xs else x ∷ insert_by a xs

  unfoldable pub order_by : List A → List A
  order_by [] = []
  order_by (x ∷ xs) = insert_by x (order_by xs)

-- Rows as the dicts that a `SELECT *` returns.
unfoldable pub product_fields : ProductRow → Fields
product_fields p = field "tenant_id" (str p.tenant_id) (
    field "sku" (str p.sku) (
      field "name" (str p.name) (
        field "price" (float p.price) (
          field "stock" (nat p.stock) (
            field "reorder_point" (nat p.reorder_point)
              (field "demand_trend" (str p.demand_trend) p.others))))))

unfoldable pub customer_fields : CustomerRow → Fields
customer_fields c = field "tenant_id" (str c.tenant_id) (
    field "customer_code" (str c.customer_code)
      (field "lifetime_value" (float c.lifetime_value) c.others))

unfoldable pub order_fields : OrderRow → Fields
order_fields o = field "id" (nat o.id) (
    field "tenant_id" (str o.tenant_id) (
      field "order_code" (str o.order_code) (
        field "customer_code" (str o.customer_code)
          (field "total" (float o.total) (field "status" (str o.status) o.others)))))

module _ {A : Type 0} (fields : A → Fields) where
  abbrev pub row_or_null : Option A → Value
  row_or_null none = null
  row_or_null (some a) = dict (fields a)

  abbrev pub items_of : List A → Items
  items_of [] = nil
  items_of (a ∷ rest) = cons (dict (fields a)) (items_of rest)
