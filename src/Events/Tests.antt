-- ===== src/Events/Tests.antt =====
-- Two streams of two tenants.
use aurelian_autonomous_ente.Prelude.{◌≡◌, refl, List, [], ◌∷◌, some, All}
use aurelian_autonomous_ente.Json.{Fields, str, end, field}
use aurelian_autonomous_ente.Events.Bus.{
  Stream, connected, ping, event, offer, publish_to, nth, new_stream, BusAction, subscribe,
  announce, advance, leave, bus_step, run_bus,
}
use aurelian_autonomous_ente.Events.Bounded.{IsWithin, run_bus-IsWithin}
use aurelian_autonomous_ente.Events.Account.{published, received, Account}
use aurelian_autonomous_ente.Events.Delivery.{run_bus-Account}
use aurelian_autonomous_ente.Events.Drained.{turns, run_bus_drains}

abbrev done_event : Fields
done_event = field "type" (str "task.completed") end

abbrev steps : List BusAction
steps =
    subscribe "meridian"
    ∷ subscribe "northstar"
    ∷ announce "meridian" "" done_event
    ∷ advance 0
    ∷ advance 0
    ∷ advance 1
    ∷ leave 1
    ∷ advance 1
    ∷ []

yielded :
    (run_bus steps []).0
    ≡ (0, connected) ∷ (1, connected) ∷ (0, event done_event) ∷ (0, ping) ∷ (1, ping) ∷ []
unfolding run_bus bus_step publish_to offer
yielded = refl

run_bus-IsWithin_example : All IsWithin (run_bus steps []).1
run_bus-IsWithin_example = run_bus-IsWithin steps [] tt

abbrev waiting : Stream
waiting = record (new_stream "meridian") { events = done_event ∷ [] }

run_bus-Account_example :
    (after : Stream) × (nth 0 (run_bus steps (waiting ∷ [])).1 ≡ some after)
    × Account waiting
        (published "meridian" steps)
        (received 0 (run_bus steps (waiting ∷ [])).0)
        after
run_bus-Account_example = run_bus-Account steps 0 (waiting ∷ []) waiting refl

run_bus_drains_example : received 0 (run_bus (turns 1 0) (waiting ∷ [])).0 ≡ done_event ∷ []
run_bus_drains_example = run_bus_drains 0 (waiting ∷ []) waiting refl refl
