-- ===== src/Agent/CircuitBreaker/Recovery.antt =====
-- How a breaker (circuit_breaker.py) opens in calls one after another.
use codelab_ai_service.Agent.CircuitBreaker.{
  CircuitBreaker, call, new_breaker, opened, closed, failed,
}
use codelab_ai_service.Prelude.{
  List, if◌then◌else◌, leb, length, ℕ, ◌+◌, ◌<◌, ◌∷◌, ◌≡◌, ◌≤◌, ◌⊎◌, [], arith, inl, refl,
}

-- Calls one after another that all fail, with their beginnings and their ends.
pub all_fail : List (ℕ × ℕ) → CircuitBreaker → CircuitBreaker
all_fail [] b = b
all_fail ((start, finish) ∷ rest) b = all_fail rest (call start finish failed b).1

-- Where a breaker is after `n` failures, the last ones perhaps while it was open.
abbrev After : ℕ → CircuitBreaker → Type 0
After n b =
    ((b.state ≡ closed) × (b.failure_count ≡ n) × (n < b.failure_threshold))
    ⊎ ((b.state ≡ opened) × (b.failure_threshold ≤ b.failure_count) × (b.failure_threshold ≤ n))

call-After :
    (n start finish : ℕ) (b : CircuitBreaker)
    → After n b
    → After (n + 1) (call start finish failed b).1
      × ((call start finish failed b).1.failure_threshold ≡ b.failure_threshold)
unfolding call
call-After n start finish b h = ground arith

all_fail-After :
    (calls : List (ℕ × ℕ)) (n : ℕ) (b : CircuitBreaker)
    → After n b
    → After (n + length calls) (all_fail calls b)
      × ((all_fail calls b).failure_threshold ≡ b.failure_threshold)
unfolding all_fail
all_fail-After [] n b h = ground arith
all_fail-After ((start, finish) ∷ calls) n b h =
    let one = call-After n start finish b h in
    let rest = all_fail-After calls (n + 1) (call start finish failed b).1 one.0 in ground arith

-- A new breaker with a positive threshold whose calls all fail, one after another, is closed while
-- fewer of them than the threshold have been made, and open from then on, whenever they are made.
pub state-all_fail :
    (calls : List (ℕ × ℕ)) (threshold timeout : ℕ)
    → 0 < threshold
    → (all_fail calls (new_breaker threshold timeout)).state
      ≡ (if leb threshold (length calls) then opened else closed)
state-all_fail calls threshold timeout pos =
    let all = all_fail-After calls 0 (new_breaker threshold timeout) (inl (refl, refl, pos)) in
    ground arith
