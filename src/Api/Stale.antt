-- ===== src/Api/Stale.antt =====
-- What an interrupted process has left behind: the rows that the recovery scan is to set aside.
use aurelian_autonomous_ente.Prelude.{
  ℕ, String, ◌≡◌, inl, inr, refl, sym, subst, Bool, true, false, ◌&&◌, List, [], ◌∷◌, ◌==◌, eqb,
  eqb_iff, ltb, All, any, select, update_where, Bool-cases,
}
use aurelian_autonomous_ente.World.Rows.{
  TaskRow, ApprovalRow, ExecutionRow, CompensationRow, CompensationStatus,
}
use aurelian_autonomous_ente.World.Statements.Executions.{is_executing}
use aurelian_autonomous_ente.World.Statements.Compensations.{has_status}
use aurelian_autonomous_ente.World.Statements.Recovery.{
  is_executing_approval, is_running, is_created, is_before,
}

module _ (cutoff : ℕ) (tenant : String) where
  abbrev pub is_stale_approval : ApprovalRow → Bool
  is_stale_approval a =
      a.tenant_id == tenant && (is_executing_approval a && is_before cutoff a.started_at)

  abbrev pub is_stale_execution : ExecutionRow → Bool
  is_stale_execution e = e.tenant_id == tenant && (is_executing e && ltb e.started_at cutoff)

  abbrev pub is_stale_compensation : CompensationRow → Bool
  is_stale_compensation c =
      c.tenant_id == tenant
      && (has_status CompensationStatus.executing c && ltb c.created_at cutoff)

  abbrev pub is_orphan : TaskRow → Bool
  is_orphan t = t.tenant_id == tenant && (is_running t && (is_created t && ltb t.updated_at cutoff))

-- Updates of a table, for a test that no marked row passes.
module _ {A : Type 0} (stale : A → Bool) (id : A → ℕ) where
  -- Whatever is stale is among the rows that are left to do.
  abbrev pub Left : List A → List A → Type 0
  Left rows table = All (λ a. stale a ≡ true → any (λ r. eqb (id r) (id a)) rows ≡ true) table

  abbrev pub Settled : List A → Type 0
  Settled table = All (λ a. stale a ≡ false) table

  pub Left-Settled : (table : List A) → Left [] table → Settled table
  Left-Settled [] h = tt
  Left-Settled (a ∷ table) (h, hs) = (
    elim (Bool-cases (stale a)) [ inl old ↦ cc (h old) | inr fresh ↦ fresh ],
    Left-Settled table hs,
  )

  module _ (hit : A → Bool) (mark : A → A) (cleared : (a : A) → stale (mark a) ≡ false) where
    pub Settled-update : (table : List A) → Settled table → Settled (update_where hit mark table)
    Settled-update [] h = tt
    Settled-update (a ∷ table) (h, hs) = elim (Bool-cases (hit a)) [
      | inl found ↦ rw found (cleared a, Settled-update table hs)
      | inr other ↦ rw other (h, Settled-update table hs)
    ]

    pub Left-update :
        (r : A) (rows table : List A)
        → ((a : A) → stale a ≡ true → eqb (id r) (id a) ≡ true → hit a ≡ true)
        → Left (r ∷ rows) table
        → Left rows (update_where hit mark table)
    Left-update r rows [] hits h = tt
    Left-update r rows (a ∷ table) hits (h, hs) = elim (Bool-cases (hit a)) [
      | inl found ↦ rw found ((λ old. cc (cleared a, old)), Left-update r rows table hits hs)
      | inr other ↦ rw other (
        (λ old. elim (Bool-cases (eqb (id r) (id a))) [
          | inl same ↦ cc (hits a old same, other)
          | inr later ↦ rw later at (h old)
        ]),
        Left-update r rows table hits hs,
      )
    ]

-- A selection that sees every stale row has them all to do.
module _ {A : Type 0} (stale seen : A → Bool) (id : A → ℕ) where
  Left-more :
      (r : A) (rows table : List A) → Left stale id rows table → Left stale id (r ∷ rows) table
  Left-more r rows [] h = tt
  Left-more r rows (a ∷ table) (h, hs) = (
    (λ old. elim (Bool-cases (eqb (id r) (id a))) [
      | inl same ↦ rw same refl
      | inr other ↦ rw other (h old)
    ]),
    Left-more r rows table hs,
  )

  pub Left-select :
      (table : List A)
      → ((a : A) → stale a ≡ true → seen a ≡ true)
      → Left stale id (select seen table) table
  Left-select [] sees_all = tt
  Left-select (a ∷ table) sees_all = elim (Bool-cases (seen a)) [
    | inl here ↦
        let kept : select seen (a ∷ table) ≡ a ∷ select seen table = rw here refl in
        subst (λ rows. Left stale id rows (a ∷ table)) (sym kept)
          (
            (λ old. rw ((eqb_iff (id a) (id a)).1 refl) refl),
            Left-more a (select seen table) table (Left-select table sees_all),
          )
    | inr unseen ↦
        let kept : select seen (a ∷ table) ≡ select seen table = rw unseen refl in
        subst (λ rows. Left stale id rows (a ∷ table)) (sym kept)
          ((λ old. cc (sees_all a old, unseen)), Left-select table sees_all)
  ]
