-- ===== src/Agent/RateLimit/Tests.antt =====
-- Requests of two clients (rate_limit.py), and the theorem about them there.
use codelab_ai_service.Prelude.{List, [], ◌∷◌, length, arith, refl, ◌≡◌, ◌≤◌, insert, lookup}
use codelab_ai_service.Agent.RateLimit.{Event, request, sweep, RateLimitMiddleware}
use codelab_ai_service.Agent.RateLimit.Window.{admitted, in_minute, in_minute-admitted_new}

abbrev events : List Event
events =
    request 1 "a"
    ∷ request 2 "b"
    ∷ request 3 "a"
    ∷ request 4 "a"
    ∷ sweep 50000000
    ∷ request 60000002 "a"
    ∷ []

abbrev empty : RateLimitMiddleware
empty = record { requests_per_minute = 2; requests = [] }

passed : admitted "a" events empty ≡ 1 ∷ 3 ∷ 60000002 ∷ []
unfolding admitted codelab_ai_service.Agent.RateLimit.dispatch codelab_ai_service.Prelude.lookup
    codelab_ai_service.Prelude.insert codelab_ai_service.Agent.RateLimit.cleanup
passed = refl

in_minute-admitted_new_example : length (in_minute 2 (admitted "a" events empty)) ≤ 2
in_minute-admitted_new_example =
    in_minute-admitted_new "a" events 2 0 2
      (omega arith, (omega arith, (omega arith, (omega arith, (omega arith, (omega arith, tt))))))
