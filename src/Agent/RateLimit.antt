-- ===== src/Agent/RateLimit.antt =====
-- agent-runtime/app/api/middleware/rate_limit.py: the requests of a client in the last minute. The
-- clock is an argument, in microseconds; the handler that follows an admitted request is left out.
mod Tests
pub mod Window
use codelab_ai_service.Prelude.{
  Bool, ℕ, String, List, [], ◌∷◌, ◌++◌, Dict, lookup, insert, remove, get_or, keep, length, leb,
  ltb, true, false, ◌+◌, if◌then◌else◌,
}

pub record RateLimitMiddleware : Type 0 where
  pub requests_per_minute : ℕ
  pub requests : Dict (List ℕ)

abbrev pub minute : ℕ
minute = 60000000

-- `now - req_time < 60`
abbrev pub is_recent : ℕ → ℕ → Bool
is_recent now time = ltb now (time + minute)

-- `self.requests[client_id]`, of a `defaultdict`.
abbrev pub requests_of : String → Dict (List ℕ) → List ℕ
requests_of client d = get_or (lookup client d) []

-- Whether the request goes on; else the answer is 429.
unfoldable pub dispatch : ℕ → String → RateLimitMiddleware → Bool × RateLimitMiddleware
dispatch now client w =
    let times = keep (is_recent now) (requests_of client w.requests) in
    if leb w.requests_per_minute (length times)
    then (false, record w { requests = insert client times w.requests })
    else (true, record w { requests = insert client (times ++ now ∷ []) w.requests })

-- What `cleanup` does for a client: its old requests go, and it goes with the last of them.
unfoldable pub clean_client : ℕ → String → Dict (List ℕ) → Dict (List ℕ)
clean_client now client d = elim (keep (is_recent now) (requests_of client d)) [
  | [] ↦ remove client d
  | time ∷ times ↦ insert client (time ∷ times) d
]

abbrev pub keys : Dict (List ℕ) → List String
keys [] = []
keys ((client, times) ∷ d) = client ∷ keys d

unfoldable pub clean_all : ℕ → List String → Dict (List ℕ) → Dict (List ℕ)
unfolding clean_client
clean_all now [] d = d
clean_all now (client ∷ clients) d = clean_all now clients (clean_client now client d)

unfoldable pub cleanup : ℕ → RateLimitMiddleware → RateLimitMiddleware
unfolding clean_all
cleanup now w = record w { requests = clean_all now (keys w.requests) w.requests }

-- What reaches the middleware, with its time.
pub data Event : Type 0 where
  request : ℕ → String → Event
  sweep : ℕ → Event
