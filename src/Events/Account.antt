-- ===== src/Events/Account.antt =====
-- The books of a stream of the bus: what came for it, and what it yielded, held and lost.
use mathlib.Core.List.{append_assoc, append-nil}
use aurelian_autonomous_ente.Prelude.{
  ℕ, String, ◌≡◌, inl, inr, refl, sym, ap, ◌∙◌, true, false, List, [], ◌∷◌, ◌++◌, ◌==◌, eqb,
  Bool-cases, if◌then◌else◌,
}
use aurelian_autonomous_ente.Json.{Fields}
use aurelian_autonomous_ente.Events.Bus.{
  Stream, connected, ping, event, stamped, Yields, BusAction, announce,
}

-- The events published for a tenant, in order.
abbrev pub published : String → List BusAction → List Fields
published t [] = []
published t (announce tenant trace_id e ∷ actions) =
    if t == tenant then stamped trace_id e ∷ published t actions else published t actions
published t (a ∷ actions) = published t actions

-- The events that a stream has yielded, in order.
abbrev pub received : ℕ → Yields → List Fields
received i [] = []
received i ((j, event e) ∷ ys) = if eqb j i then e ∷ received i ys else received i ys
received i ((j, f) ∷ ys) = received i ys

pub received-append :
    (i : ℕ) (ys zs : Yields) → received i (ys ++ zs) ≡ received i ys ++ received i zs
received-append i [] zs = refl
received-append i ((j, connected) ∷ ys) zs = received-append i ys zs
received-append i ((j, ping) ∷ ys) zs = received-append i ys zs
received-append i ((j, event e) ∷ ys) zs = elim (Bool-cases (eqb j i)) [
  | inl own ↦ rw own (ap (λ l. e ∷ l) (received-append i ys zs))
  | inr other ↦ rw other (received-append i ys zs)
]

-- The books of a stream over some steps: what it held and what came is what it has yielded, what it
-- holds and what it lost. It loses only what came after the bus took it off.
abbrev pub Account : Stream → List Fields → List Fields → Stream → Type 0
Account s came got after =
    (after.tenant_id ≡ s.tenant_id)
    × (s.is_registered ≡ false → (s.events ≡ got ++ after.events) × (after.is_registered ≡ false))
    × (s.is_registered ≡ true
        → (lost : List Fields) × (s.events ++ came ≡ got ++ (after.events ++ lost))
          × (after.is_registered ≡ true → lost ≡ []))

module _ {A : Type 0} (held came more got next : List A) where
  books_dropped :
      (kept lost left : List A)
      → held ++ came ≡ got ++ (kept ++ lost)
      → kept ≡ next ++ left
      → held ++ (came ++ more) ≡ got ++ next ++ (left ++ (lost ++ more))
  books_dropped kept lost left books split =
      sym (append_assoc held came more)
      ∙ ap (λ l. l ++ more) (books ∙ ap (λ l. got ++ (l ++ lost)) split)
      ∙ simp append_assoc

  books_kept :
      (kept lost left : List A)
      → held ++ came ≡ got ++ (kept ++ [])
      → kept ++ more ≡ next ++ (left ++ lost)
      → held ++ (came ++ more) ≡ got ++ next ++ (left ++ lost)
  books_kept kept lost left books split =
      sym (append_assoc held came more)
      ∙ ap (λ l. l ++ more) (books ∙ ap (λ l. got ++ l) (append-nil kept))
      ∙ append_assoc got kept more
      ∙ ap (λ l. got ++ l) split
      ∙ sym (append_assoc got next (left ++ lost))

pub Account-refl : (s : Stream) → Account s [] [] s
Account-refl s = (refl, (λ off. (refl, off)), λ on. ([], refl, λ on'. refl))

pub Account-trans :
    (s m t : Stream) (came more got next : List Fields)
    → Account s came got m
    → Account m more next t
    → Account s (came ++ more) (got ++ next) t
Account-trans s m t came more got next (same, off, on) (same', off', on') = (
  same' ∙ same,
  λ o.
      let (held, o') = off o in
      let (held', o'') = off' o' in
      (held ∙ ap (λ l. got ++ l) held' ∙ sym (append_assoc got next t.events), o''),
  λ o.
      let (lost, books, none_lost) = on o in
      elim (Bool-cases m.is_registered) [
        | inr dropped ↦
            let (held, o') = off' dropped in
            (
              lost ++ more,
              books_dropped s.events came more got next m.events lost t.events books held,
              λ o''. cc,
            )
        | inl kept ↦
            let (lost', books', none_lost') = on' kept in
            let whole = books ∙ ap (λ l. got ++ (m.events ++ l)) (none_lost kept) in
            (
              lost',
              books_kept s.events came more got next m.events lost' t.events whole books',
              none_lost',
            )
      ],
)
