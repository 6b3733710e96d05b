-- ===== src/Events/Delivery.antt =====
-- What a stream of the bus receives, step by step and over any sequence of steps.
use mathlib.Core.List.{append-nil}
use aurelian_autonomous_ente.Prelude.{
  ℕ, String, ◌≡◌, inl, inr, refl, sym, ap, subst, false, List, [], ◌∷◌, ◌++◌, some, ◌==◌, eqb,
  eqb_iff, ltb, length, Bool-cases, Option-cases, if◌then◌else◌,
}
use aurelian_autonomous_ente.Json.{Fields}
use aurelian_autonomous_ente.Events.Bus.{
  Stream, Bus, Frame, connected, ping, event, max_queue, offer, publish_to, stamped, new_stream,
  nth, next_event, take_next, close, BusAction, subscribe, announce, advance, leave, bus_step,
  run_bus,
}
use aurelian_autonomous_ente.Events.Places.{nth-map, nth-append, nth-update, nth-update_other}
use aurelian_autonomous_ente.Events.Account.{
  published, received, received-append, Account, Account-refl, Account-trans,
}

-- The stream of a number after a step, with its books for that step.
abbrev Moves : ℕ → Stream → BusAction → Bus → Type 0
Moves i s a bus =
    (after : Stream) × (nth i (bus_step a bus).1 ≡ some after)
    × Account s (published s.tenant_id (a ∷ [])) (received i (bus_step a bus).0) after

Account-take :
    (s : Stream) (i : ℕ)
    → Account s [] (received i ((i, (next_event s.events).0) ∷ [])) (take_next s)
Account-take s i = go s.events refl
  where
    go :
        (es : List Fields)
        → s.events ≡ es
        → Account s []
            (received i ((i, (next_event es).0) ∷ []))
            (record s { events = (next_event es).1 })
    go [] e = (refl, (λ off. (e, off)), λ on. ([], ap (λ l. l ++ []) e, λ on'. refl))
    go (x ∷ es) e =
        rw ((eqb_iff i i).1 refl)
          (refl, (λ off. (e, off)), λ on. ([], ap (λ l. l ++ []) e, λ on'. refl))

Account-publish :
    (s : Stream) (tenant : String) (e : Fields)
    → Account s (if s.tenant_id == tenant then e ∷ [] else []) [] (publish_to tenant e s)
unfolding publish_to offer
Account-publish s tenant e = elim (Bool-cases s.is_registered) [
  | inr off ↦ rw off (refl, (λ o. (refl, refl)), λ on. cc)
  | inl on ↦ elim (Bool-cases (s.tenant_id == tenant)) [
    | inr other ↦ rw (on, other) (refl, (λ off. cc), λ o. ([], refl, λ o'. refl))
    | inl own ↦
        rw (on, own)
          (elim (Bool-cases (ltb (length s.events) max_queue)) [
            | inl room ↦
                rw room
                  (refl, (λ off. cc), λ o. ([], sym (append-nil (s.events ++ e ∷ [])), λ o'. refl))
            | inr full ↦ rw full (refl, (λ off. cc), λ o. (e ∷ [], refl, λ o'. cc))
          ])
  ]
]

received-other : (j i : ℕ) (f : Frame) → eqb j i ≡ false → received i ((j, f) ∷ []) ≡ []
received-other j i connected other = refl
received-other j i ping other = refl
received-other j i (event e) other = rw other refl

step-Moves : (a : BusAction) (i : ℕ) (bus : Bus) (s : Stream) → nth i bus ≡ some s → Moves i s a bus
unfolding bus_step
step-Moves (subscribe tenant) i bus s here =
    (s, nth-append (new_stream tenant) i bus s here, Account-refl s)
step-Moves (announce tenant trace_id e) i bus s here =
    let given = stamped trace_id e in
    (
      publish_to tenant given s,
      nth-map (publish_to tenant given) i bus s here,
      Account-publish s tenant given,
    )
step-Moves (advance j) i bus s here = elim (Bool-cases (eqb j i)) [
  | inl own ↦
      let same = (eqb_iff j i).0 own in
      rw (same, here)
        (elim (Bool-cases s.is_open) [
          | inl present ↦
              rw present (take_next s, nth-update take_next i bus s here, Account-take s i)
          | inr left ↦ rw left (s, here, Account-refl s)
        ])
  | inr other ↦ elim (Option-cases (nth j bus)) [
    | inl absent ↦ rw absent (s, here, Account-refl s)
    | inr (o, there) ↦ rw there (elim (Bool-cases o.is_open) [
      | inr left ↦ rw left (s, here, Account-refl s)
      | inl present ↦
          rw (present, received-other j i (next_event o.events).0 other)
            (s, rw (nth-update_other take_next j i bus other) here, Account-refl s)
    ])
  ]
]
step-Moves (leave j) i bus s here = elim (Bool-cases (eqb j i)) [
  | inl own ↦ rw ((eqb_iff j i).0 own) (
    close s,
    nth-update close i bus s here,
    (refl, (λ off. (refl, refl)), λ on. ([], refl, λ on'. refl)),
  )
  | inr other ↦ (s, rw (nth-update_other close j i bus other) here, Account-refl s)
]

published-cons :
    (t : String) (a : BusAction) (actions : List BusAction)
    → published t (a ∷ actions) ≡ published t (a ∷ []) ++ published t actions
published-cons t (subscribe tenant) actions = refl
published-cons t (advance j) actions = refl
published-cons t (leave j) actions = refl
published-cons t (announce tenant trace_id e) actions = elim (Bool-cases (t == tenant)) [
  | inl own ↦ rw own refl
  | inr other ↦ rw other refl
]

Account-cons :
    (s m t : Stream) (a : BusAction) (actions : List BusAction) (got next whole : List Fields)
    → whole ≡ got ++ next
    → Account s (published s.tenant_id (a ∷ [])) got m
    → Account m (published m.tenant_id actions) next t
    → Account s (published s.tenant_id (a ∷ actions)) whole t
Account-cons s m t a actions got next whole e books rest =
    let later = subst (λ x. Account m (published x actions) next t) books.0 rest in
    let all =
      Account-trans s m t (published s.tenant_id (a ∷ [])) (published s.tenant_id actions) got next
        books later in
    subst (λ c. Account s c whole t) (sym (published-cons s.tenant_id a actions))
      (subst (λ g. Account s (published s.tenant_id (a ∷ []) ++ published s.tenant_id actions) g t)
        (sym e) all)

-- Over any sequence of steps, a stream's books hold: what it held and the events published for its
-- tenant, in order, are what it yields, what it then holds and what it lost; and it lost nothing
-- while the bus has its queue.
pub run_bus-Account :
    (actions : List BusAction) (i : ℕ) (bus : Bus) (s : Stream)
    → nth i bus ≡ some s
    → (after : Stream) × (nth i (run_bus actions bus).1 ≡ some after)
      × Account s (published s.tenant_id actions) (received i (run_bus actions bus).0) after
unfolding run_bus
run_bus-Account [] i bus s here = (s, here, Account-refl s)
run_bus-Account (a ∷ actions) i bus s here =
    let (m, there, books) = step-Moves a i bus s here in
    let (t, last, rest) = run_bus-Account actions i (bus_step a bus).1 m there in
    (
      t,
      last,
      Account-cons s m t a actions _ _ _
          (received-append i (bus_step a bus).0 (run_bus actions (bus_step a bus).1).0) books rest,
    )
