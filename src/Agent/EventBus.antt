-- ===== src/Agent/EventBus.antt =====
-- agent-runtime/app/events/event_bus.py. The functions that subscribe are known by their names, and
-- what they do is an interface: they change a state of their own and may raise. The bus holds its lock
-- only while it counts, so that the lock is left out. `tasks` are the handlers that asyncio has yet to
-- run; a handler runs to its end at once. The task that only makes a task for each handler is left
-- out: it changes no order.
mod Tests
pub mod Order
pub mod Delivery
pub mod Unsubscribing
use codelab_ai_service.Prelude.{
  Bool, ℕ, String, Option, none, some, List, [], ◌∷◌, ◌++◌, Dict, lookup, insert, get_or, str_eq,
  keep, not, ◌+◌, if◌then◌else◌, zero, suc,
}
use codelab_ai_service.Prelude.Int.{ℤ, leb_ℤ}
use codelab_ai_service.Prelude.Json.{Json, null}

-- agent-runtime/app/events/base_event.py: what the bus reads of an event, and its `data`.
pub record Event : Type 0 where
  pub event_type : String
  pub event_category : String
  pub session_id : Option String
  pub payload : Dict Json

pub record EventHandler : Type 0 where
  pub handler : String
  pub priority : ℤ
  pub event_type : Option String
  pub event_category : Option String

pub record EventBusStats : Type 0 where
  pub total_published : ℕ
  pub successful_handlers : ℕ
  pub failed_handlers : ℕ
  pub last_event_time : Option ℕ

pub record EventBus : Type 0 where
  pub subscribers : Dict (List EventHandler)
  pub category_subscribers : Dict (List EventHandler)
  pub wildcard_subscribers : List EventHandler
  pub middleware : List String
  pub stats : EventBusStats
  pub tasks : List (Event × EventHandler)

abbrev pub new_bus : EventBus
new_bus = record {
  subscribers = [];
  category_subscribers = [];
  wildcard_subscribers = [];
  middleware = [];
  stats = record {
    total_published = 0;
    successful_handlers = 0;
    failed_handlers = 0;
    last_event_time = none;
  };
  tasks = [];
}

-- `sort(key=priority, reverse=True)`, which keeps the order of handlers of one priority.
unfoldable pub insert_by_priority : EventHandler → List EventHandler → List EventHandler
insert_by_priority h [] = h ∷ []
insert_by_priority h (g ∷ hs) =
    let rest = insert_by_priority h hs in
    if leb_ℤ g.priority h.priority then h ∷ g ∷ hs else g ∷ rest

unfoldable pub sort_handlers : List EventHandler → List EventHandler
sort_handlers [] = []
sort_handlers (h ∷ hs) = insert_by_priority h (sort_handlers hs)

abbrev pub handlers_of : String → Dict (List EventHandler) → List EventHandler
handlers_of key d = get_or (lookup key d) []

abbrev add_to : String → EventHandler → Dict (List EventHandler) → Dict (List EventHandler)
add_to key h d = insert key (sort_handlers (handlers_of key d ++ h ∷ [])) d

unfoldable pub subscribe : Option String → Option String → String → ℤ → EventBus → EventBus
subscribe event_type event_category handler priority bus =
    let h : EventHandler = record {
      handler = handler;
      priority = priority;
      event_type = event_type;
      event_category = event_category;
    } in
    elim event_type [
      | some type ↦ record bus { subscribers = add_to type h bus.subscribers }
      | none ↦ elim event_category [
        | some category ↦ record bus {
          category_subscribers = add_to category h bus.category_subscribers;
        }
        | none ↦ record bus {
          wildcard_subscribers = sort_handlers (bus.wildcard_subscribers ++ h ∷ []);
        }
      ]
    ]

abbrev pub without : String → List EventHandler → List EventHandler
without handler hs = keep (λ h. not (str_eq h.handler handler)) hs

abbrev remove_from : String → String → Dict (List EventHandler) → Dict (List EventHandler)
remove_from key handler d = insert key (without handler (handlers_of key d)) d

unfoldable pub unsubscribe : String → Option String → Option String → EventBus → EventBus
unsubscribe handler event_type event_category bus = elim event_type [
  | some type ↦ record bus { subscribers = remove_from type handler bus.subscribers }
  | none ↦ elim event_category [
    | some category ↦ record bus {
      category_subscribers = remove_from category handler bus.category_subscribers;
    }
    | none ↦ record bus { wildcard_subscribers = without handler bus.wildcard_subscribers }
  ]
]

unfoldable pub add_middleware : String → EventBus → EventBus
add_middleware name bus = record bus { middleware = bus.middleware ++ name ∷ [] }

-- The statistics stay.
unfoldable pub clear : EventBus → EventBus
clear bus = record bus {
  subscribers = [];
  category_subscribers = [];
  wildcard_subscribers = [];
  middleware = [];
}

-- The subscribers of an event, before they are sorted.
abbrev pub subscribed : Event → EventBus → List EventHandler
subscribed e bus =
    handlers_of e.event_type bus.subscribers
    ++ (handlers_of e.event_category bus.category_subscribers ++ bus.wildcard_subscribers)

unfoldable pub get_handlers_for_event : Event → EventBus → List EventHandler
unfolding sort_handlers
get_handlers_for_event e bus = sort_handlers (subscribed e bus)

-- What the functions do: a handler returns a result or raises (`none`); a middleware returns an event,
-- cancels it (`none` inside), or raises.
pub record Functions : Type 1 where
  pub State : Type 0
  pub handle : String → Event → State → Option Json × State
  pub filter : String → Event → State → Option (Option Event) × State

abbrev pub count_success : EventBusStats → EventBusStats
count_success s = record s { successful_handlers = s.successful_handlers + 1 }

abbrev pub count_failure : EventBusStats → EventBusStats
count_failure s = record s { failed_handlers = s.failed_handlers + 1 }

-- The statistics after a handler.
abbrev pub counted : Option Json → EventBusStats → EventBusStats
counted none stats = count_failure stats
counted (some r) stats = count_success stats

-- How `publish` ends: it returns nothing, or the results of the handlers, or a middleware raised.
pub data Answer : Type 0 where
  nothing : Answer
  results : List Json → Answer
  raised : Answer

abbrev pub schedule : Event → List EventHandler → List (Event × EventHandler)
schedule e [] = []
schedule e (h ∷ hs) = (e, h) ∷ schedule e hs

module _ (f : Functions) where
  abbrev State : Type 0
  State = f.State

  unfoldable pub execute_handlers_sync :
      Event → List EventHandler → EventBusStats → State → List Json × EventBusStats × State
  execute_handlers_sync e [] stats s = ([], stats, s)
  execute_handlers_sync e (h ∷ hs) stats s =
      let (result, s') = f.handle h.handler e s in
      let stats' = counted result stats in
      let (more, stats'', s'') = execute_handlers_sync e hs stats' s' in
      (get_or result null ∷ more, stats'', s'')

  unfoldable pub apply_middleware : List String → Event → State → Option (Option Event) × State
  apply_middleware [] e s = (some (some e), s)
  apply_middleware (m ∷ ms) e s =
      let (answer, s') = f.filter m e s in
      elim answer [
        | none ↦ (none, s')
        | some passed ↦ elim passed [ none ↦ (some none, s') | some e' ↦ apply_middleware ms e' s' ]
      ]

  abbrev pub count_published : ℕ → EventBus → EventBus
  count_published now bus = record bus {
    stats = record bus.stats {
      total_published = bus.stats.total_published + 1;
      last_event_time = some now;
    };
  }

  -- A publisher that does not wait leaves a task for each handler.
  deliver : Bool → Event → List EventHandler → EventBus → State → Answer × EventBus × State
  unfolding execute_handlers_sync
  deliver wait e [] bus s = (nothing, bus, s)
  deliver wait e (h ∷ hs) bus s =
      let (values, stats, s') = execute_handlers_sync e (h ∷ hs) bus.stats s in
      if wait
      then (results values, record bus { stats = stats }, s')
      else (nothing, record bus { tasks = bus.tasks ++ schedule e (h ∷ hs) }, s)

  after_middleware : Bool → Option (Option Event) × State → EventBus → Answer × EventBus × State
  unfolding deliver
  after_middleware wait (none, s) bus = (raised, bus, s)
  after_middleware wait (some none, s) bus = (nothing, bus, s)
  after_middleware wait (some (some e), s) bus = deliver wait e (get_handlers_for_event e bus) bus s

  unfoldable pub publish : ℕ → Bool → Event → EventBus → State → Answer × EventBus × State
  unfolding after_middleware apply_middleware
  publish now wait e bus s =
      after_middleware wait (apply_middleware bus.middleware e s) (count_published now bus)

  unfoldable pub execute_single_handler : Event → EventHandler → EventBus → State → EventBus × State
  execute_single_handler e h bus s =
      let (result, s') = f.handle h.handler e s in
      (record bus { stats = counted result bus.stats }, s')

  -- The first task runs: tasks start in the order in which they were made.
  unfoldable pub run_task : EventBus → State → EventBus × State
  unfolding execute_single_handler
  run_task bus s = elim bus.tasks [
    | [] ↦ (bus, s)
    | (e, h) ∷ rest ↦ execute_single_handler e h (record bus { tasks = rest }) s
  ]

  unfoldable pub run_tasks : ℕ → EventBus → State → EventBus × State
  unfolding run_task
  run_tasks zero bus s = (bus, s)
  run_tasks (suc n) bus s = let (bus', s') = run_task bus s in run_tasks n bus' s'
