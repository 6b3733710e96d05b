-- ===== src/Tools/Amounts.antt =====
-- The amounts that the tools of app/tools.py recommend and refund.
use aurelian_autonomous_ente.Prelude.{
  ℕ, ◌+◌, ◌*◌, ◌≤◌, ◌<◌, String, ◌≡◌, ◌⊎◌, inl, inr, refl, ◌∙◌, ap, sym, true, false, List, [], ◌∷◌,
  Option, none, some, leb, arith, select, find, Bool-cases,
}
use aurelian_autonomous_ente.Json.{
  Fields, bool, str, float, dict, get, end, field, get_null, or_else,
}
use aurelian_autonomous_ente.Result.{ok, Ensures, Ensures-bind, Ensures-ok, ok_injective}
use aurelian_autonomous_ente.Floats.{min_float, IsAsymmetric}
use aurelian_autonomous_ente.World.Effects.{Fault, done, refused, reply_lost}
use aurelian_autonomous_ente.World.Rows.{ProductRow, OrderRow, Store}
use aurelian_autonomous_ente.Tools.Host.{ToolHost, read, to_float}
use aurelian_autonomous_ente.Tools.Execute.{
  upper_arg, Recommendation, recommend, is_order, refund_amount, refund_output, after_order,
  issue_refund,
}

-- Something is recommended, and enough for 30 in stock and for three times the reorder point.
abbrev Replenishes : ProductRow → Recommendation → Type 0
Replenishes p r =
    (r.sku ≡ p.sku)
    × (0 < r.recommended_units)
    × (30 ≤ p.stock + r.recommended_units)
    × (p.reorder_point * 3 ≤ p.stock + r.recommended_units)

-- A recommendation for each product, in order.
abbrev pub ReplenishAll : List ProductRow → List Recommendation → Type 0
ReplenishAll [] [] = Unit
ReplenishAll (p ∷ ps) (r ∷ rs) = Replenishes p r × ReplenishAll ps rs
ReplenishAll _ _ = ⊥

-- Exactly the products at or below their reorder point are recommended, in order, each with a number
-- of units above 0 that brings its stock to at least 30 and at least three times the reorder point.
pub recommend-ReplenishAll :
    (ps : List ProductRow)
    → ReplenishAll (select (λ (p : ProductRow). leb p.stock p.reorder_point) ps) (recommend ps)
unfolding recommend
recommend-ReplenishAll [] = tt
recommend-ReplenishAll (p ∷ ps) = elim (Bool-cases (leb p.stock p.reorder_point)) [
  | inl low ↦ rw low ((refl, ground arith, ground arith, ground arith), recommend-ReplenishAll ps)
  | inr enough ↦ rw enough (recommend-ReplenishAll ps)
]

-- A statement that returns has returned what it reads.
read-ok : {A : Type 0} (f : Fault) (a b : A) → read f a ≡ ok b → a ≡ b
read-ok done a b h = ok_injective h
read-ok (refused e) a b h = cc
read-ok (reply_lost e) a b h = cc

module _ (h : ToolHost) (n : ℕ) (tenant : String) (args : Fields) (s : Store) where
  -- An amount that is the order's total or the one that was asked for, and that the total is not less
  -- than.
  abbrev pub IsRefundable : OrderRow → ℕ → Type 0
  IsRefundable o amount =
      (h.floats.lt o.total amount ≡ false)
      × ((amount ≡ o.total)
          ⊎ (to_float h (or_else (get_null "amount" args) (float o.total)) ≡ ok amount))

  -- The answer that there is no such order; or one of an order of the tenant, which shows a refundable
  -- amount rounded to cents and whose compensation has it as it is.
  abbrev pub IsRefund : String → Fields → Type 0
  IsRefund code out =
      (out ≡ field "refunded" (bool false) (field "reason" (str "Order not found") end))
      ⊎ ((o : OrderRow) × (amount : ℕ) × (find (is_order tenant code) s.orders ≡ some o)
          × IsRefundable o amount
          × (get "refunded" out ≡ some (bool true))
          × (get "order_code" out ≡ some (str code))
          × (get "amount" out ≡ some (float (h.floats.round amount 2)))
          × (get "compensation" out
              ≡ some (
                  dict (
                    field "tool" (str "void_refund") (
                      field "args"
                        (dict (field "order_code" (str code) (field "amount" (float amount) end)))
                        end)))))

  module _ (asym : IsAsymmetric h.floats) where
    min-le : (a b : ℕ) → h.floats.lt b (min_float h.floats a b) ≡ false
    min-le a b = elim (Bool-cases (h.floats.lt b a)) [
      | inr above ↦ rw above above
      | inl below ↦ rw below (elim (Bool-cases (h.floats.lt b b)) [
        | inl loop ↦ cc (asym b b loop, loop)
        | inr fine ↦ fine
      ])
    ]

    min-either : (a b : ℕ) → (min_float h.floats a b ≡ b) ⊎ (min_float h.floats a b ≡ a)
    min-either a b = elim (Bool-cases (h.floats.lt b a)) [
      | inl above ↦ rw above (inl refl)
      | inr below ↦ rw below (inr refl)
    ]

    refund_amount-IsRefundable :
        (o : OrderRow) → Ensures (IsRefundable o) (refund_amount h n tenant args s o)
    unfolding refund_amount
    refund_amount-IsRefundable o =
        let wanted = to_float h (or_else (get_null "amount" args) (float o.total)) in
        Ensures-bind (IsRefundable o) wanted _ (λ asked e. (
          min-le asked o.total,
          elim (min-either asked o.total) [
            | inl total ↦ inl total
            | inr same ↦ inr (e ∙ ap ok (sym same))
          ],
        ))

    after_order-IsRefund :
        (code : String) (o : Option OrderRow)
        → find (is_order tenant code) s.orders ≡ o
        → Ensures (IsRefund code) (after_order h n tenant args s code o)
    after_order-IsRefund code none found = inl refl
    after_order-IsRefund code (some o) found =
        Ensures-bind (IsRefund code) (refund_amount h n tenant args s o)
          (λ amount. ok (refund_output h n tenant args s code amount))
          (λ amount e. inr (
            o,
            amount,
            found,
            Ensures-ok _ _ (refund_amount-IsRefundable o) e,
            refl,
            refl,
            refl,
            refl,
          ))

    -- If less is never both ways, a refund that is answered is of an order of the tenant with the code
    -- that was asked for. Its amount, before it is rounded to cents for the answer, is the order's total
    -- or the amount that was asked for, and the total is not less than it, whatever was asked for; the
    -- compensation has that very amount. Or the answer is that there is no such order.
    pub issue_refund-IsRefund :
        Ensures
          (IsRefund (upper_arg h n tenant args s "order_code" "ORD-1001"))
          (issue_refund h n tenant args s)
    unfolding issue_refund
    issue_refund-IsRefund =
        let code = upper_arg h n tenant args s "order_code" "ORD-1001" in
        let rows = find (is_order tenant code) s.orders in
        Ensures-bind (IsRefund code) (read (h.first_fault n) rows)
          (after_order h n tenant args s code)
          (λ o e. after_order-IsRefund code o (read-ok (h.first_fault n) rows o e))
