-- ===== src/Agent/EventBus/Tests.antt =====
-- An event bus (event_bus.py) with two handlers, one of which raises, and the theorem about it there.
use codelab_ai_service.Prelude.{
  length, String, Option, none, some, List, [], ◌∷◌, str_eq, false, if◌then◌else◌, refl, true, ◌+◌,
  ◌≡◌, insert, lookup, ◌++◌,
}
use codelab_ai_service.Prelude.Int.{pos, negsuc}
use codelab_ai_service.Prelude.Json.{Json, null}
use codelab_ai_service.Agent.EventBus.{
  run_tasks, Event, EventBus, Functions, nothing, schedule, count_published, new_bus, subscribe,
  publish, get_handlers_for_event, apply_middleware,
}
use codelab_ai_service.Agent.EventBus.Delivery.{
  run_all, outcomes, answer_of, successes, failures, publish-delivers,
}

abbrev answer : String → Option Json
answer name = if str_eq name "bad" then none else some null

-- Handlers that leave their names.
abbrev functions : Functions
functions = record {
  State = List String;
  handle = λ name e s. (answer name, name ∷ s);
  filter = λ name e s. (some (some e), s);
}

abbrev event : Event
event = record {
  event_type = "agent.switched";
  event_category = "agent";
  session_id = none;
  payload = [];
}

abbrev bus : EventBus
bus =
    record (subscribe none none "all" (pos 5) (
      subscribe (some "agent.switched") none "bad" (pos 7)
        (subscribe none (some "agent") "metrics" (negsuc 0) new_bus))) { middleware = "audit" ∷ [] }

passes : apply_middleware functions bus.middleware event [] ≡ (some (some event), [])
unfolding apply_middleware
passes = refl

abbrev answered : List (Option Json)
answered = outcomes functions event (get_handlers_for_event event bus) []

publish-delivers_example :
    let hs = get_handlers_for_event event bus in
    let (answer, bus', s'') = publish functions 9 true event bus [] in
    let (later, bus'', s_later) = publish functions 9 false event bus [] in
    (answer ≡ answer_of answered)
    × (s'' ≡ run_all functions event hs [])
    × (bus'.stats.successful_handlers ≡ bus.stats.successful_handlers + successes answered)
    × (bus'.stats.failed_handlers ≡ bus.stats.failed_handlers + failures answered)
    × (bus'.stats.total_published ≡ bus.stats.total_published + 1)
    × (later ≡ nothing)
    × (s_later ≡ [])
    × (bus''.tasks ≡ bus.tasks ++ schedule event hs)
    × (bus''.stats ≡ (count_published functions 9 bus).stats)
    × (run_tasks functions (length hs) (record bus'' { tasks = schedule event hs }) s_later
        ≡ (record bus' { tasks = [] }, s''))
publish-delivers_example = publish-delivers functions 9 event event bus [] [] passes

one_failed : (successes answered ≡ 2) × (failures answered ≡ 1)
unfolding get_handlers_for_event codelab_ai_service.Prelude.lookup subscribe
    codelab_ai_service.Prelude.insert codelab_ai_service.Agent.EventBus.insert_by_priority
one_failed = (refl, refl)

called :
    run_all functions event (get_handlers_for_event event bus) [] ≡ "metrics" ∷ "all" ∷ "bad" ∷ []
unfolding get_handlers_for_event codelab_ai_service.Prelude.lookup subscribe
    codelab_ai_service.Prelude.insert codelab_ai_service.Agent.EventBus.insert_by_priority
called = refl
