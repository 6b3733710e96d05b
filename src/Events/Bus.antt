-- ===== src/Events/Bus.antt =====
-- `EventBus` (app/events.py). A stream is known by its number: streams are numbered as they open, and
-- a closed one keeps its number.
use aurelian_autonomous_ente.Prelude.{
  ℕ, suc, zero, String, Bool, true, false, ◌&&◌, List, [], ◌∷◌, ◌++◌, map, Option, none, some, ◌==◌,
  ltb, length, get_or, concat, if◌then◌else◌,
}
use aurelian_autonomous_ente.Json.{Value, Fields, str, get}
use aurelian_autonomous_ente.Tools.Sandbox.{set_default}

-- A stream with its queue, oldest event first; whether the bus still has the queue; and whether the
-- client is still there.
pub record Stream : Type 0 where
  pub tenant_id : String
  pub events : List Fields
  pub is_registered : Bool
  pub is_open : Bool

abbrev pub Bus : Type 0
Bus = List Stream

-- What a stream yields.
pub data Frame : Type 0 where
  connected : Frame
  ping : Frame
  event : Fields → Frame

-- The text of a frame, over Python's print of values and `json.dumps`.
unfoldable pub frame_text : (Value → String) → (Fields → String) → Frame → String
frame_text show dumps connected = "event: connected\ndata: {}\n\n"
frame_text show dumps ping = "event: ping\ndata: {}\n\n"
frame_text show dumps (event e) =
    concat (
      "event: " ∷ show (get_or (get "type" e) (str "message")) ∷ "\ndata: " ∷ dumps e ∷ "\n\n" ∷ [])

-- `asyncio.Queue(maxsize=100)`
abbrev pub max_queue : ℕ
max_queue = 100

-- `event = dict(event)`, with the trace's id if there is a trace
abbrev pub stamped : String → Fields → Fields
stamped trace_id e = if trace_id == "" then e else set_default "trace_id" (str trace_id) e

-- `q.put_nowait(event)`, and the removal of a queue that is full
unfoldable pub offer : Fields → Stream → Stream
offer e s =
    if ltb (length s.events) max_queue
    then record s { events = s.events ++ e ∷ [] }
    else record s { is_registered = false }

unfoldable pub publish_to : String → Fields → Stream → Stream
publish_to tenant e s = if s.is_registered && s.tenant_id == tenant then offer e s else s

abbrev pub publish : String → String → Fields → Bus → Bus
publish tenant trace_id e bus = map (publish_to tenant (stamped trace_id e)) bus

abbrev pub new_stream : String → Stream
new_stream tenant = record { tenant_id = tenant; events = []; is_registered = true; is_open = true }

abbrev pub nth : ℕ → Bus → Option Stream
nth i [] = none
nth zero (s ∷ bus) = some s
nth (suc i) (s ∷ bus) = nth i bus

abbrev pub update_nth : ℕ → (Stream → Stream) → Bus → Bus
update_nth i f [] = []
update_nth zero f (s ∷ bus) = f s ∷ bus
update_nth (suc i) f (s ∷ bus) = s ∷ update_nth i f bus

-- `await asyncio.wait_for(q.get(), timeout=15)`: the next event, or the timeout.
abbrev pub next_event : List Fields → Frame × List Fields
next_event [] = (ping, [])
next_event (e ∷ es) = (event e, es)

abbrev pub take_next : Stream → Stream
take_next s = record s { events = (next_event s.events).1 }

-- The generator's `finally`
abbrev pub close : Stream → Stream
close s = record s { is_registered = false; is_open = false }

-- One step: a client comes, an event is published with the current trace, a stream goes once around
-- its loop, a client goes.
pub data BusAction : Type 0 where
  subscribe : String → BusAction
  announce : String → String → Fields → BusAction
  advance : ℕ → BusAction
  leave : ℕ → BusAction

-- The frames that streams yield, each with the stream's number.
abbrev pub Yields : Type 0
Yields = List (ℕ × Frame)

abbrev yield_next : ℕ → Option Stream → Bus → Yields × Bus
yield_next i none bus = ([], bus)
yield_next i (some s) bus =
    if s.is_open then ((i, (next_event s.events).0) ∷ [], update_nth i take_next bus) else ([], bus)

unfoldable pub bus_step : BusAction → Bus → Yields × Bus
bus_step (subscribe tenant) bus = ((length bus, connected) ∷ [], bus ++ new_stream tenant ∷ [])
bus_step (announce tenant trace_id e) bus = ([], publish tenant trace_id e bus)
bus_step (advance i) bus = yield_next i (nth i bus) bus
bus_step (leave i) bus = ([], update_nth i close bus)

unfoldable pub run_bus : List BusAction → Bus → Yields × Bus
run_bus [] bus = ([], bus)
run_bus (a ∷ actions) bus =
    let (ys, next) = bus_step a bus in let (zs, last) = run_bus actions next in (ys ++ zs, last)
