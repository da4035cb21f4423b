-- ===== src/Agent/CircuitBreaker/Threshold.antt =====
-- What the state of a breaker (circuit_breaker.py) says of its failures.
use codelab_ai_service.Prelude.{List, arith, is_some, true, ℕ, ◌<◌, ◌≡◌, ◌≤◌, Option, ◌∷◌, []}
use codelab_ai_service.Agent.CircuitBreaker.{
  begin, closed, end, failed, interrupted, restart, returned, CircuitBreaker, Step, step, run,
  new_breaker, CircuitState,
}

-- What holds in a state, of the threshold, the count of failures and the time of the last.
abbrev Tells : CircuitState → ℕ → ℕ → Option ℕ → Type 0
Tells closed threshold count last = count < threshold
Tells _ threshold count last = (threshold ≤ count) × (is_some last ≡ true)

abbrev pub IsSound : CircuitBreaker → Type 0
IsSound b = Tells b.state b.failure_threshold b.failure_count b.last_failure_time

step-failure_threshold :
    (s : Step) (b : CircuitBreaker)
    → ((step s b).failure_threshold ≡ b.failure_threshold)
      × ((step s b).recovery_timeout ≡ b.recovery_timeout)
unfolding step
step-failure_threshold (begin now) b = ground arith
step-failure_threshold (end now returned) b = ground arith
step-failure_threshold (end now failed) b = ground arith
step-failure_threshold (end now interrupted) b = ground arith
step-failure_threshold restart b = ground arith

step-IsSound :
    (s : Step) (b : CircuitBreaker) → 0 < b.failure_threshold → IsSound b → IsSound (step s b)
unfolding step
step-IsSound (begin now) b pos h = ground arith
step-IsSound (end now returned) b pos h = ground arith
step-IsSound (end now failed) b pos h = ground arith
step-IsSound (end now interrupted) b pos h = ground arith
step-IsSound restart b pos h = ground arith

run-IsSound_from :
    (steps : List Step) (b : CircuitBreaker)
    → 0 < b.failure_threshold
    → IsSound b
    → IsSound (run steps b)
unfolding run
run-IsSound_from [] b pos h = h
run-IsSound_from (s ∷ steps) b pos h =
    run-IsSound_from steps (step s b) (omega (arith, (step-failure_threshold s b).0))
      (step-IsSound s b pos h)

-- Whatever calls begin and end, in whatever order, a breaker with a positive threshold is closed
-- exactly while its count of failures is below the threshold; one
-- that is open or half open knows when a call has last failed.
pub run-IsSound :
    (steps : List Step) (threshold timeout : ℕ)
    → 0 < threshold
    → IsSound (run steps (new_breaker threshold timeout))
run-IsSound steps threshold timeout pos =
    run-IsSound_from steps (new_breaker threshold timeout) pos pos
