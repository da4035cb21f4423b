-- ===== src/Agent/EventBus/Delivery.antt =====
-- What the bus (event_bus.py) does with an event: every handler gets it, whatever the others do.
use mathlib.Core.List.{append-nil}
use codelab_ai_service.Prelude.{
  List, [], ◌∷◌, ℕ, ◌+◌, some, true, arith, false, ◌≡◌, Option, none, refl, ◌∙◌, ap, get_or, map,
  length, suc, sym, ◌++◌,
}
use codelab_ai_service.Agent.EventBus.{
  EventHandler, EventBus, Event, EventBusStats, Functions, execute_handlers_sync, publish,
  apply_middleware, get_handlers_for_event, Answer, nothing, results, count_published, deliver,
  schedule, counted, run_tasks, execute_single_handler,
}
use codelab_ai_service.Prelude.Json.{Json, null}

-- The results among the answers of handlers, where `none` is an exception, and the exceptions.
abbrev pub successes : List (Option Json) → ℕ
successes [] = 0
successes (none ∷ rs) = successes rs
successes (some r ∷ rs) = suc (successes rs)

abbrev pub failures : List (Option Json) → ℕ
failures [] = 0
failures (none ∷ rs) = suc (failures rs)
failures (some r ∷ rs) = failures rs

-- A handler that raised has `None` in the list.
abbrev pub shown : Option Json → Json
shown none = null
shown (some r) = r

-- No handlers, no list.
abbrev pub answer_of : List (Option Json) → Answer
answer_of [] = nothing
answer_of (r ∷ rs) = results (map shown (r ∷ rs))

module _ (f : Functions) where
  -- What the handlers leave when each runs to its end or its exception, one after another.
  abbrev pub run_all : Event → List EventHandler → f.State → f.State
  run_all e [] s = s
  run_all e (h ∷ hs) s = run_all e hs (f.handle h.handler e s).1

  -- What each of them answers.
  abbrev pub outcomes : Event → List EventHandler → f.State → List (Option Json)
  outcomes e [] s = []
  outcomes e (h ∷ hs) s = (f.handle h.handler e s).0 ∷ outcomes e hs (f.handle h.handler e s).1

  counted-adds :
      (result : Option Json) (rs : List (Option Json)) (stats : EventBusStats)
      → ((counted result stats).successful_handlers + successes rs
          ≡ stats.successful_handlers + successes (result ∷ rs))
        × ((counted result stats).failed_handlers + failures rs
            ≡ stats.failed_handlers + failures (result ∷ rs))
        × ((counted result stats).total_published ≡ stats.total_published)
  counted-adds none rs stats = (refl, omega arith, refl)
  counted-adds (some r) rs stats = (omega arith, refl, refl)

  get_or-shown : (r : Option Json) → get_or r null ≡ shown r
  get_or-shown none = refl
  get_or-shown (some r) = refl

  execute-all :
      (e : Event) (hs : List EventHandler) (stats : EventBusStats) (s : f.State)
      → let (values, stats', s') = execute_handlers_sync f e hs stats s in
        (values ≡ map shown (outcomes e hs s))
        × (s' ≡ run_all e hs s)
        × (stats'.successful_handlers ≡ stats.successful_handlers + successes (outcomes e hs s))
        × (stats'.failed_handlers ≡ stats.failed_handlers + failures (outcomes e hs s))
        × (stats'.total_published ≡ stats.total_published)
  unfolding execute_handlers_sync
  execute-all e [] stats s = (refl, refl, omega arith, omega arith, refl)
  execute-all e (h ∷ hs) stats s =
      let (result, s') = f.handle h.handler e s in
      let (good, bad, same) = counted-adds result (outcomes e hs s') stats in
      let (values, end, more, worse, total) = execute-all e hs (counted result stats) s' in
      (
        ap (λ v. v ∷ (execute_handlers_sync f e hs (counted result stats) s').0)
              (get_or-shown result)
            ∙ ap (λ vs. shown result ∷ vs) values,
        end,
        more ∙ good,
        worse ∙ bad,
        total ∙ same,
      )

  -- The tasks of an event, run one after another, do what a publisher that waits does.
  run_tasks-schedule :
      (e : Event) (hs : List EventHandler) (bus : EventBus) (s : f.State)
      → let (values, stats, s') = execute_handlers_sync f e hs bus.stats s in
        run_tasks f (length hs) (record bus { tasks = schedule e hs }) s
        ≡ (record bus { tasks = []; stats = stats }, s')
  unfolding execute_handlers_sync run_tasks execute_single_handler
  run_tasks-schedule e [] bus s = refl
  run_tasks-schedule e (h ∷ hs) bus s =
      let (result, s') = f.handle h.handler e s in
      run_tasks-schedule e hs (record bus { stats = counted result bus.stats }) s'

  deliver-all :
      (e : Event) (hs : List EventHandler) (bus : EventBus) (s : f.State)
      → let (answer, bus', s') = deliver f true e hs bus s in
        let (later, bus'', s'') = deliver f false e hs bus s in
        (answer ≡ answer_of (outcomes e hs s))
        × (s' ≡ run_all e hs s)
        × (bus'.stats.successful_handlers
            ≡ bus.stats.successful_handlers + successes (outcomes e hs s))
        × (bus'.stats.failed_handlers ≡ bus.stats.failed_handlers + failures (outcomes e hs s))
        × (bus'.stats.total_published ≡ bus.stats.total_published)
        × (later ≡ nothing)
        × (s'' ≡ s)
        × (bus''.tasks ≡ bus.tasks ++ schedule e hs)
        × (bus''.stats ≡ bus.stats)
        × (run_tasks f (length hs) (record bus'' { tasks = schedule e hs }) s''
            ≡ (record bus' { tasks = [] }, s'))
  unfolding deliver
  deliver-all e [] bus s = (
    refl,
    refl,
    omega arith,
    omega arith,
    refl,
    refl,
    refl,
    sym (append-nil bus.tasks),
    refl,
    run_tasks-schedule e [] bus s,
  )
  deliver-all e (h ∷ hs) bus s =
      let (values, end, good, bad, total) = execute-all e (h ∷ hs) bus.stats s in
      (
        ap results values,
        end,
        good,
        bad,
        total,
        refl,
        refl,
        refl,
        refl,
        run_tasks-schedule e (h ∷ hs) bus s,
      )

  -- When the middleware lets an event pass, perhaps changed: a publisher that waits gets the
  -- results of all handlers of the event in the order of the handlers, with null for each that
  -- raised, and nothing if there is none; every handler has run on the state that those before it
  -- left, and exactly those that returned and those that raised are added to the two counts. A
  -- publisher that does not wait gets nothing, no handler has run, and a task for each handler, in
  -- the same order, is added to the tasks; these tasks, run one after another, leave the statistics
  -- and the state that waiting leaves.
  pub publish-delivers :
      (now : ℕ) (e e' : Event) (bus : EventBus) (s s' : f.State)
      → apply_middleware f bus.middleware e s ≡ (some (some e'), s')
      → let hs = get_handlers_for_event e' bus in
        let (answer, bus', s'') = publish f now true e bus s in
        let (later, bus'', s_later) = publish f now false e bus s in
        (answer ≡ answer_of (outcomes e' hs s'))
        × (s'' ≡ run_all e' hs s')
        × (bus'.stats.successful_handlers
            ≡ bus.stats.successful_handlers + successes (outcomes e' hs s'))
        × (bus'.stats.failed_handlers ≡ bus.stats.failed_handlers + failures (outcomes e' hs s'))
        × (bus'.stats.total_published ≡ bus.stats.total_published + 1)
        × (later ≡ nothing)
        × (s_later ≡ s')
        × (bus''.tasks ≡ bus.tasks ++ schedule e' hs)
        × (bus''.stats ≡ (count_published f now bus).stats)
        × (run_tasks f (length hs) (record bus'' { tasks = schedule e' hs }) s_later
            ≡ (record bus' { tasks = [] }, s''))
  unfolding publish get_handlers_for_event
  publish-delivers now e e' bus s s' h =
      let hs = get_handlers_for_event e' bus in
      rw (h, publish) (deliver-all e' hs (count_published f now bus) s')
