-- ===== src/Agent/EventBus/Unsubscribing.antt =====
-- What a handler gets after it has unsubscribed (event_bus.py).
use codelab_ai_service.Prelude.{
  List, [], ◌∷◌, ◌++◌, String, not, str_eq, All, Bool-cases, arith, if◌then◌else◌, inl, inr, refl,
  ◌≡◌, Dict, ap, eq_refl, insert, lookup-insert, none, some, sym, ◌∙◌,
}
use codelab_ai_service.Agent.EventBus.{
  EventHandler, sort_handlers, insert_by_priority, without, get_handlers_for_event, handlers_of,
  unsubscribe, Event, EventBus, subscribed,
}
use codelab_ai_service.Agent.EventBus.Order.{Descends, All-weaken, sort-Descends}
use codelab_ai_service.Prelude.Int.{leb_ℤ, ℤ, ◌≤ℤ◌}

without-append :
    (name : String) (xs ys : List EventHandler)
    → without name (xs ++ ys) ≡ without name xs ++ without name ys
without-append name [] ys = refl
without-append name (h ∷ xs) ys = ground (arith, without-append name xs ys)

All-without :
    (p : ℤ) (name : String) (hs : List EventHandler)
    → All (λ g. g.priority ≤ℤ p) hs
    → All (λ g. g.priority ≤ℤ p) (without name hs)
All-without p name [] all = tt
All-without p name (h ∷ hs) all = elim (Bool-cases (not (str_eq h.handler name))) [
  | inl other ↦ rw other (all.0, All-without p name hs all.1)
  | inr same ↦ rw same (All-without p name hs all.1)
]

-- A handler of a priority as high as all others stands first.
insert-first :
    (h : EventHandler) (hs : List EventHandler)
    → All (λ g. g.priority ≤ℤ h.priority) hs
    → insert_by_priority h hs ≡ h ∷ hs
unfolding insert_by_priority
insert-first h [] all = refl
insert-first h (g ∷ hs) all = ground (arith, all.0)

without-insert :
    (name : String) (h : EventHandler) (hs : List EventHandler)
    → Descends hs
    → without name (insert_by_priority h hs) ≡ (
        if not (str_eq h.handler name)
        then insert_by_priority h (without name hs)
        else without name hs)
unfolding insert_by_priority
without-insert name h [] d = refl
without-insert name h (g ∷ hs) d = elim (Bool-cases (leb_ℤ g.priority h.priority)) [
  | inl low ↦
      let le : g.priority ≤ℤ h.priority = ground arith in
      let all = All-without h.priority name hs (All-weaken g.priority h.priority hs le d.0) in
      ground (arith, insert-first h (without name hs) all)
  | inr high ↦ ground (arith, without-insert name h hs d.1)
]

without-sort :
    (name : String) (hs : List EventHandler)
    → without name (sort_handlers hs) ≡ sort_handlers (without name hs)
unfolding sort_handlers
without-sort name [] = refl
without-sort name (h ∷ hs) =
    let here = without-insert name h (sort_handlers hs) (sort-Descends hs) in
    let rest = ap (insert_by_priority h) (without-sort name hs) in
    ground (arith, here, rest, without-sort name hs)

handlers_of-insert :
    (key : String) (hs : List EventHandler) (d : Dict (List EventHandler))
    → handlers_of key (insert key hs d) ≡ hs
handlers_of-insert key hs d = ground (arith, lookup-insert key key hs d, eq_refl key)

-- After a handler has unsubscribed from the type of an event, from its category and from all events, it
-- gets the event no more, and the other handlers get it in the order of before.
get_handlers-unsubscribe :
    (name : String) (e : Event) (bus : EventBus)
    → get_handlers_for_event e (
        unsubscribe name
          (some e.event_type)
          none
          (unsubscribe name none (some e.event_category) (unsubscribe name none none bus)))
      ≡ without name (get_handlers_for_event e bus)
unfolding get_handlers_for_event unsubscribe
get_handlers-unsubscribe name e bus =
    let types = handlers_of e.event_type bus.subscribers in
    let categories = handlers_of e.event_category bus.category_subscribers in
    let rest = without name categories ++ without name bus.wildcard_subscribers in
    rw
      (
        handlers_of-insert e.event_type (without name types) bus.subscribers,
        handlers_of-insert e.event_category (without name categories) bus.category_subscribers,
      )
      (ap sort_handlers (
          ap (λ (hs : List EventHandler). without name types ++ hs)
            (sym (without-append name categories bus.wildcard_subscribers))
          ∙ sym (without-append name types (categories ++ bus.wildcard_subscribers)))
        ∙ sym (without-sort name (subscribed e bus)))
