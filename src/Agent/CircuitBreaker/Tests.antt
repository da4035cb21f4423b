-- ===== src/Agent/CircuitBreaker/Tests.antt =====
-- A circuit breaker (circuit_breaker.py) at concrete times, and the theorems about it there.
use codelab_ai_service.Agent.CircuitBreaker.{
  CircuitBreaker, new_breaker, begin, end, failed, opened, closed, run, Step,
}
use codelab_ai_service.Agent.CircuitBreaker.Threshold.{run-IsSound, IsSound}
use codelab_ai_service.Agent.CircuitBreaker.Isolation.{admissions, admissions-Shut}
use codelab_ai_service.Agent.CircuitBreaker.Recovery.{state-all_fail, all_fail}
use codelab_ai_service.Prelude.{List, arith, if◌then◌else◌, leb, refl, some, ◌∷◌, ◌≡◌, []}

abbrev two_calls : List Step
two_calls = begin 1 ∷ begin 2 ∷ end 3 failed ∷ end 4 failed ∷ begin 5 ∷ []

abbrev broken : CircuitBreaker
broken = record {
  failure_threshold = 2;
  recovery_timeout = 60;
  state = opened;
  failure_count = 2;
  last_failure_time = some 4;
}

opens : run two_calls (new_breaker 2 60) ≡ broken
unfolding run
opens = refl

run-IsSound_example : IsSound (run two_calls (new_breaker 2 60))
run-IsSound_example = run-IsSound two_calls 2 60 (omega arith)

admissions-Shut_example :
    (admissions (begin 5 ∷ end 6 failed ∷ begin 60000004 ∷ []) broken ≡ 0)
    × ((run (begin 5 ∷ end 6 failed ∷ begin 60000004 ∷ []) broken).state ≡ opened)
admissions-Shut_example =
    admissions-Shut 4 (begin 5 ∷ end 6 failed ∷ begin 60000004 ∷ []) broken refl refl
      (omega arith, (omega arith, (omega arith, tt)))

state-all_fail_example :
    (all_fail ((1, 2) ∷ (3, 4) ∷ (5, 6) ∷ []) (new_breaker 2 60)).state
    ≡ (if leb 2 3 then opened else closed)
state-all_fail_example = state-all_fail ((1, 2) ∷ (3, 4) ∷ (5, 6) ∷ []) 2 60 (omega arith)
