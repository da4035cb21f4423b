-- ===== src/Agent/RetryHandler.antt =====
-- agent-runtime/app/infrastructure/resilience/retry_handler.py. The function that is wrapped changes a
-- state of its own; the delays are natural numbers, as those of the defaults are.
mod Tests
pub mod Attempts
use codelab_ai_service.Prelude.{
  ℕ, Bool, List, [], ◌∷◌, ◌+◌, ◌*◌, ◌^◌, min, true, false, ◌==◌, ◌||◌, suc, zero,
}

pub record RetryHandler : Type 0 where
  pub max_retries : ℕ
  pub base_delay : ℕ
  pub max_delay : ℕ
  pub exponential_base : ℕ

abbrev pub default_handler : RetryHandler
default_handler = record { max_retries = 3; base_delay = 1; max_delay = 60; exponential_base = 2 }

-- What the function does: it returns or raises.
pub data Result (A E : Type 0) : Type 0 where
  returned : A → Result A E
  raised : E → Result A E

-- The errors of httpx that the code tells apart, and all others.
pub data HttpError : Type 0 where
  timeout connect_error read_timeout other : HttpError
  status_error : ℕ → HttpError

unfoldable pub is_retryable_http_error : HttpError → Bool
is_retryable_http_error timeout = true
is_retryable_http_error connect_error = true
is_retryable_http_error read_timeout = true
is_retryable_http_error other = false
is_retryable_http_error (status_error code) = code == 429 || code == 503 || code == 504

-- `min(base_delay * exponential_base ** attempt, max_delay)`
unfoldable pub delay : RetryHandler → ℕ → ℕ
delay h attempt = min (h.base_delay * h.exponential_base ^ attempt) h.max_delay

module _ {A E S : Type 0} (f : S → Result A E × S) (h : RetryHandler) where
  -- After an attempt: its result, or that of the rest, and the wait before it.
  abbrev pub conclude : ℕ → Result A E → S → Result A E × List ℕ × S → Result A E × List ℕ × S
  conclude attempt (returned a) s rest = (returned a, [], s)
  conclude attempt (raised e) s (last, waits, s') = (last, delay h attempt ∷ waits, s')

  -- The attempts from `attempt` on, with `left` retries left: how the last one ends, the waits between
  -- them, and the state at the end.
  unfoldable pub attempts : ℕ → ℕ → S → Result A E × List ℕ × S
  attempts zero attempt s = let (result, s') = f s in (result, [], s')
  attempts (suc left) attempt s =
      let (result, s') = f s in
      let rest = attempts left (attempt + 1) s' in conclude attempt result s' rest

  -- The wrapped function.
  unfoldable pub wrapper : S → Result A E × List ℕ × S
  unfolding attempts
  wrapper s = attempts h.max_retries 0 s
