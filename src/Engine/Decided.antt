-- ===== src/Engine/Decided.antt =====
-- Approvals that have left `pending` (app/agent.py, app/main.py) under insertions and updates.
use aurelian_autonomous_ente.Prelude.{
  ◌≡◌, refl, Bool, true, false, List, [], ◌∷◌, ◌++◌, find, update_where, Bool-cases, inl, inr,
}
use aurelian_autonomous_ente.World.Rows.{ApprovalRow, ApprovalStatus}
use aurelian_autonomous_ente.World.Statements.Approvals.{is_pending}
use aurelian_autonomous_ente.Engine.Frames.{is_decided}

pub decided-append :
    (p : ApprovalRow → Bool) (xs ys : List ApprovalRow)
    → is_decided (find p xs) ≡ true
    → is_decided (find p (xs ++ ys)) ≡ true
decided-append p [] ys h = cc
decided-append p (a ∷ xs) ys h = elim (Bool-cases (p a)) [
  | inl here ↦ rw here (rw here at h)
  | inr there ↦ rw there (decided-append p xs ys (rw there at h))
]

-- An update that keeps what identifies a row, and makes no row pending.
pub decided-update :
    (p q : ApprovalRow → Bool) (g : ApprovalRow → ApprovalRow) (xs : List ApprovalRow)
    → ((a : ApprovalRow) → p (g a) ≡ p a)
    → ((a : ApprovalRow) → is_pending (g a) ≡ false)
    → is_decided (find p xs) ≡ true
    → is_decided (find p (update_where q g xs)) ≡ true
decided-update p q g [] k n h = h
decided-update p q g (a ∷ xs) k n h = elim (Bool-cases (p a)) [
  | inl here ↦ elim (Bool-cases (q a)) [
    | inl x ↦ rw x (rw (k a) (rw here (rw (n a) refl)))
    | inr x ↦ rw x (rw here (rw here at h))
  ]
  | inr there ↦ elim (Bool-cases (q a)) [
    | inl x ↦ rw x (rw (k a) (rw there (decided-update p q g xs k n (rw there at h))))
    | inr x ↦ rw x (rw there (decided-update p q g xs k n (rw there at h)))
  ]
]

-- A status other than `pending`.
abbrev pub IsFinal : ApprovalStatus → Type 0
IsFinal s = elim s [ ApprovalStatus.pending ↦ ⊥ | _ ↦ Unit {0} ]

pub not_pending :
    (a : ApprovalRow) (s : ApprovalStatus)
    → IsFinal s
    → is_pending (record a { status = s }) ≡ false
not_pending a ApprovalStatus.pending h = elim h [ ]
not_pending a ApprovalStatus.executing h = refl
not_pending a ApprovalStatus.approved h = refl
not_pending a ApprovalStatus.denied h = refl
not_pending a ApprovalStatus.recovery_required h = refl
not_pending a ApprovalStatus.execution_failed h = refl
