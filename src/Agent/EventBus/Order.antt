-- ===== src/Agent/EventBus/Order.antt =====
-- In which order the handlers of an event (event_bus.py) are called.
use codelab_ai_service.Prelude.{
  List, [], ◌∷◌, keep, All, Bool-cases, arith, inl, inr, refl, ◌&&◌, ◌∙◌, ◌≡◌,
}
use codelab_ai_service.Prelude.Int.{ℤ, leb_ℤ, ◌≤ℤ◌}
use codelab_ai_service.Agent.EventBus.{
  EventHandler, insert_by_priority, sort_handlers, get_handlers_for_event, subscribed, EventBus,
  Event,
}

-- From one handler to the next the priority does not rise.
abbrev pub Descends : List EventHandler → Type 0
Descends [] = Unit
Descends (h ∷ hs) = All (λ g. g.priority ≤ℤ h.priority) hs × Descends hs

-- The handlers of one priority.
abbrev pub at_priority : ℤ → List EventHandler → List EventHandler
at_priority p hs = keep (λ h. leb_ℤ h.priority p && leb_ℤ p h.priority) hs

All-insert :
    (p : ℤ) (h : EventHandler) (hs : List EventHandler)
    → h.priority ≤ℤ p
    → All (λ g. g.priority ≤ℤ p) hs
    → All (λ g. g.priority ≤ℤ p) (insert_by_priority h hs)
unfolding insert_by_priority
All-insert p h [] le all = (le, tt)
All-insert p h (g ∷ hs) le all = elim (Bool-cases (leb_ℤ g.priority h.priority)) [
  | inl low ↦ rw low (le, all)
  | inr high ↦ rw high (all.0, All-insert p h hs le all.1)
]

pub All-weaken :
    (p q : ℤ) (hs : List EventHandler)
    → p ≤ℤ q
    → All (λ g. g.priority ≤ℤ p) hs
    → All (λ g. g.priority ≤ℤ q) hs
All-weaken p q [] le all = tt
All-weaken p q (g ∷ hs) le all = (omega (arith, all.0, le), All-weaken p q hs le all.1)

insert-Descends :
    (h : EventHandler) (hs : List EventHandler) → Descends hs → Descends (insert_by_priority h hs)
unfolding insert_by_priority
insert-Descends h [] d = (tt, tt)
insert-Descends h (g ∷ hs) d = elim (Bool-cases (leb_ℤ g.priority h.priority)) [
  | inl low ↦
      let le : g.priority ≤ℤ h.priority = ground arith in
      rw low ((le, All-weaken g.priority h.priority hs le d.0), d)
  | inr high ↦
      let le : h.priority ≤ℤ g.priority = ground arith in
      rw high (All-insert g.priority h hs le d.0, insert-Descends h hs d.1)
]

pub sort-Descends : (hs : List EventHandler) → Descends (sort_handlers hs)
unfolding sort_handlers
sort-Descends [] = tt
sort-Descends (h ∷ hs) = insert-Descends h (sort_handlers hs) (sort-Descends hs)

at_priority-insert :
    (p : ℤ) (h : EventHandler) (hs : List EventHandler)
    → at_priority p (insert_by_priority h hs) ≡ at_priority p (h ∷ hs)
unfolding insert_by_priority
at_priority-insert p h [] = refl
at_priority-insert p h (g ∷ hs) = ground (arith, at_priority-insert p h hs)

at_priority-sort :
    (p : ℤ) (hs : List EventHandler) → at_priority p (sort_handlers hs) ≡ at_priority p hs
unfolding sort_handlers
at_priority-sort p [] = refl
at_priority-sort p (h ∷ hs) =
    at_priority-insert p h (sort_handlers hs) ∙ ground (arith, at_priority-sort p hs)

-- The handlers of an event are called by priority, the highest first; those of one priority are called
-- in the order of their subscription lists: first those of the event's type, then those of its
-- category, then those of all events. None is left out and none is added.
get_handlers_for_event-order :
    (e : Event) (bus : EventBus)
    → Descends (get_handlers_for_event e bus)
      × ((p : ℤ) → at_priority p (get_handlers_for_event e bus) ≡ at_priority p (subscribed e bus))
unfolding get_handlers_for_event
get_handlers_for_event-order e bus =
    (sort-Descends (subscribed e bus), λ p. at_priority-sort p (subscribed e bus))
