-- ===== src/Events/Bounded.antt =====
-- No queue of the bus grows beyond its bound.
use aurelian_autonomous_ente.Prelude.{
  ℕ, suc, zero, ◌≤◌, String, inl, inr, ◌&&◌, List, [], ◌∷◌, ◌++◌, map, ◌==◌, arith, All, ltb,
  length, length-append, Bool-cases, Option-cases,
}
use aurelian_autonomous_ente.Json.{Fields}
use aurelian_autonomous_ente.Events.Bus.{
  Stream, Bus, max_queue, offer, publish_to, stamped, new_stream, nth, update_nth, next_event,
  take_next, close, BusAction, subscribe, announce, advance, leave, bus_step, run_bus,
}

abbrev pub IsWithin : Stream → Type 0
IsWithin s = length s.events ≤ max_queue

module _ (P : Stream → Type 0) (f : Stream → Stream) (keeps : (s : Stream) → P s → P (f s)) where
  All-map : (bus : Bus) → All P bus → All P (map f bus)
  All-map [] a = tt
  All-map (s ∷ bus) (h, a) = (keeps s h, All-map bus a)

  All-update : (i : ℕ) (bus : Bus) → All P bus → All P (update_nth i f bus)
  All-update i [] a = tt
  All-update zero (s ∷ bus) (h, a) = (keeps s h, a)
  All-update (suc i) (s ∷ bus) (h, a) = (h, All-update i bus a)

All-snoc : (P : Stream → Type 0) (s : Stream) (bus : Bus) → P s → All P bus → All P (bus ++ s ∷ [])
All-snoc P s [] h a = (h, tt)
All-snoc P s (x ∷ bus) h (hx, a) = (hx, All-snoc P s bus h a)

publish-IsWithin :
    (tenant : String) (e : Fields) (s : Stream) → IsWithin s → IsWithin (publish_to tenant e s)
unfolding publish_to offer
publish-IsWithin tenant e s h = elim (Bool-cases (s.is_registered && s.tenant_id == tenant)) [
  | inr other ↦ rw other h
  | inl own ↦ rw own (elim (Bool-cases (ltb (length s.events) max_queue)) [
    | inl room ↦ rw room (ground (arith, length-append s.events (e ∷ [])))
    | inr full ↦ rw full h
  ])
]

take_next-IsWithin : (s : Stream) → IsWithin s → IsWithin (take_next s)
take_next-IsWithin s h = shorter s.events h
  where
    shorter : (es : List Fields) → length es ≤ max_queue → length (next_event es).1 ≤ max_queue
    shorter [] h = h
    shorter (e ∷ es) h = omega arith

step-IsWithin : (a : BusAction) (bus : Bus) → All IsWithin bus → All IsWithin (bus_step a bus).1
unfolding bus_step
step-IsWithin (subscribe tenant) bus h = All-snoc IsWithin (new_stream tenant) bus (omega arith) h
step-IsWithin (announce tenant trace_id e) bus h =
    All-map IsWithin (publish_to tenant (stamped trace_id e))
      (publish-IsWithin tenant (stamped trace_id e)) bus h
step-IsWithin (advance i) bus h = elim (Option-cases (nth i bus)) [
  | inl gone ↦ rw gone h
  | inr (s, there) ↦ rw there (elim (Bool-cases s.is_open) [
    | inl present ↦ rw present (All-update IsWithin take_next take_next-IsWithin i bus h)
    | inr left ↦ rw left h
  ])
]
step-IsWithin (leave i) bus h = All-update IsWithin close (λ s w. w) i bus h

-- Whatever clients and events come and go, no queue has more than 100 events if none had before.
pub run_bus-IsWithin :
    (actions : List BusAction) (bus : Bus) → All IsWithin bus → All IsWithin (run_bus actions bus).1
unfolding run_bus
run_bus-IsWithin [] bus h = h
run_bus-IsWithin (a ∷ actions) bus h =
    run_bus-IsWithin actions (bus_step a bus).1 (step-IsWithin a bus h)
