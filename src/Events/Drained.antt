-- ===== src/Events/Drained.antt =====
-- A stream whose client stays yields what it holds.
use aurelian_autonomous_ente.Prelude.{
  ℕ, suc, zero, ◌≡◌, refl, ap, ◌∙◌, true, List, [], ◌∷◌, ◌++◌, some, eqb_iff, length,
}
use aurelian_autonomous_ente.Json.{Fields}
use aurelian_autonomous_ente.Events.Bus.{
  Stream, Bus, nth, next_event, take_next, update_nth, BusAction, advance, bus_step, run_bus,
}
use aurelian_autonomous_ente.Events.Places.{nth-update}
use aurelian_autonomous_ente.Events.Account.{received, received-append}

abbrev pub turns : ℕ → ℕ → List BusAction
turns zero i = []
turns (suc n) i = advance i ∷ turns n i

step-yields :
    (i : ℕ) (bus : Bus) (s : Stream) (e : Fields) (es : List Fields)
    → s.events ≡ e ∷ es
    → nth i bus ≡ some s
    → s.is_open ≡ true
    → (received i (bus_step (advance i) bus).0 ≡ e ∷ [])
      × ((bus_step (advance i) bus).1 ≡ update_nth i take_next bus)
unfolding bus_step
step-yields i bus s e es held here present =
    rw (here, present, held, (eqb_iff i i).1 refl) (refl, refl)

drain :
    (es : List Fields) (i : ℕ) (bus : Bus) (s : Stream)
    → s.events ≡ es
    → nth i bus ≡ some s
    → s.is_open ≡ true
    → received i (run_bus (turns (length es) i) bus).0 ≡ es
unfolding run_bus
drain [] i bus s held here present = refl
drain (e ∷ es) i bus s held here present =
    let (yields, next) = step-yields i bus s e es held here present in
    let rest = (run_bus (turns (length es) i) (bus_step (advance i) bus).1).0 in
    received-append i (bus_step (advance i) bus).0 rest
    ∙ ap (λ l. l ++ received i rest) yields
    ∙ ap (λ l. e ∷ l)
        (ap (λ b. received i (run_bus (turns (length es) i) b).0) next
          ∙ drain es i (update_nth i take_next bus) (take_next s) (ap (λ l. (next_event l).1) held)
              (nth-update take_next i bus s here) present)

-- A stream that is still read yields, in as many turns as it holds events, exactly those, in order.
pub run_bus_drains :
    (i : ℕ) (bus : Bus) (s : Stream)
    → nth i bus ≡ some s
    → s.is_open ≡ true
    → received i (run_bus (turns (length s.events) i) bus).0 ≡ s.events
run_bus_drains i bus s here present = drain s.events i bus s refl here present
