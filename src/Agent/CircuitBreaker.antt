-- ===== src/Agent/CircuitBreaker.antt =====
-- agent-runtime/app/infrastructure/resilience/circuit_breaker.py. `call` is cut where it awaits the
-- function: `admit` is what it does before, `settle` what it does after, and `call` runs both. The
-- clock is an argument, in microseconds.
mod Tests
pub mod Threshold
pub mod Isolation
pub mod Recovery
use codelab_ai_service.Prelude.{
  Bool, ℕ, Option, none, some, false, if◌then◌else◌, leb, ltb, ◌+◌, ◌*◌, List, [], ◌∷◌,
}

-- `opened` is `OPEN`.
pub data CircuitState : Type 0 where
  closed opened half_open : CircuitState

pub record CircuitBreaker : Type 0 where
  pub failure_threshold : ℕ
  pub recovery_timeout : ℕ
  pub state : CircuitState
  pub failure_count : ℕ
  pub last_failure_time : Option ℕ

-- `CircuitBreaker(failure_threshold, recovery_timeout)`
abbrev pub new_breaker : ℕ → ℕ → CircuitBreaker
new_breaker threshold timeout = record {
  failure_threshold = threshold;
  recovery_timeout = timeout;
  state = closed;
  failure_count = 0;
  last_failure_time = none;
}

unfoldable pub should_attempt_reset : ℕ → CircuitBreaker → Bool
should_attempt_reset now b = elim b.last_failure_time [
  | none ↦ false
  | some t ↦ ltb (t + b.recovery_timeout * 1000000) now
]

unfoldable pub on_success : CircuitBreaker → CircuitBreaker
on_success b = record b { failure_count = 0; state = closed }

unfoldable pub on_failure : ℕ → CircuitBreaker → CircuitBreaker
on_failure now b =
    let count = b.failure_count + 1 in
    record b {
      failure_count = count;
      last_failure_time = some now;
      state = if leb b.failure_threshold count then opened else b.state;
    }

unfoldable pub reset : CircuitBreaker → CircuitBreaker
reset b = record b { failure_count = 0; state = closed; last_failure_time = none }

-- Whether a call may go on to the function: `rejected` is the exception of an open breaker.
pub data Admission : Type 0 where
  admitted rejected : Admission

unfoldable pub admit : ℕ → CircuitBreaker → Admission × CircuitBreaker
unfolding should_attempt_reset
admit now b = elim b.state [
  | opened ↦
      if should_attempt_reset now b
      then (admitted, record b { state = half_open })
      else (rejected, b)
  | _ ↦ (admitted, b)
]

-- What the awaited function does: it returns, or raises what the breaker counts, or something else.
pub data Outcome : Type 0 where
  returned failed interrupted : Outcome

unfoldable pub settle : ℕ → Outcome → CircuitBreaker → CircuitBreaker
unfolding on_success on_failure
settle now returned b = on_success b
settle now failed b = on_failure now b
settle now interrupted b = b

-- A call without others beside it: begun at `start`, with its outcome at `finish`.
unfoldable pub call : ℕ → ℕ → Outcome → CircuitBreaker → Admission × CircuitBreaker
unfolding admit settle
call start finish outcome b =
    let (admission, b') = admit start b in
    elim admission [ admitted ↦ (admitted, settle finish outcome b') | rejected ↦ (rejected, b') ]

-- The steps of concurrent calls, in the order in which they happen.
pub data Step : Type 0 where
  begin : ℕ → Step
  end : ℕ → Outcome → Step
  restart : Step

unfoldable pub step : Step → CircuitBreaker → CircuitBreaker
unfolding admit settle reset
step (begin now) b = (admit now b).1
step (end now outcome) b = settle now outcome b
step restart b = reset b

unfoldable pub run : List Step → CircuitBreaker → CircuitBreaker
unfolding step
run [] b = b
run (s ∷ steps) b = run steps (step s b)
