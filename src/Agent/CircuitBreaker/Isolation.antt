-- ===== src/Agent/CircuitBreaker/Isolation.antt =====
-- An open breaker (circuit_breaker.py) keeps calls away from the service until its timeout is over.
use mathlib.Core.Path.{subst}
use codelab_ai_service.Agent.CircuitBreaker.{
  CircuitBreaker, Step, step, run, admit, begin, end, restart, opened, failed, returned,
  interrupted, admitted, rejected, should_attempt_reset, Admission,
}
use codelab_ai_service.Prelude.{
  All, List, Option-cases, ap, arith, get_or, inl, inr, is_some, some, true, ℕ, ◌*◌, ◌+◌, ◌∷◌, ◌≡◌,
  ◌≤◌, [], refl, sym,
}

-- The calls that a run of steps lets through.
abbrev pub count_one : Admission → ℕ
count_one admitted = 1
count_one rejected = 0

pub admissions : List Step → CircuitBreaker → ℕ
admissions [] b = 0
admissions (begin now ∷ steps) b = count_one (admit now b).0 + admissions steps (step (begin now) b)
admissions (end now outcome ∷ steps) b = admissions steps (step (end now outcome) b)
admissions (restart ∷ steps) b = admissions steps (step restart b)

-- A step within the timeout after `t` that is neither a success nor a reset.
abbrev pub Within : ℕ → ℕ → Step → Type 0
Within t timeout (begin now) = now ≤ t + timeout * 1000000
Within t timeout (end now returned) = ⊥
Within t timeout (end now failed) = t ≤ now
Within t timeout (end now interrupted) = Unit
Within t timeout restart = ⊥

-- An open breaker that last saw a failure at `t` or later.
abbrev pub Shut : ℕ → ℕ → CircuitBreaker → Type 0
Shut t timeout b =
    (b.state ≡ opened)
    × (b.recovery_timeout ≡ timeout)
    × (t ≤ get_or b.last_failure_time 0)
    × (is_some b.last_failure_time ≡ true)

admit-Shut :
    (t timeout now : ℕ) (b : CircuitBreaker)
    → Shut t timeout b
    → now ≤ t + timeout * 1000000
    → admit now b ≡ (rejected, b)
unfolding admit should_attempt_reset
admit-Shut t timeout now b (shut, same, late, known) h = elim (Option-cases b.last_failure_time) [
  | inl unknown ↦ ground arith
  | inr (last, e) ↦
      let lim : b.recovery_timeout * 1000000 ≡ timeout * 1000000 =
        ap (λ (n : ℕ). n * 1000000) same in
      ground arith
]

failed-Shut :
    (t timeout now : ℕ) (b : CircuitBreaker)
    → Shut t timeout b
    → t ≤ now
    → Shut t timeout (step (end now failed) b)
unfolding step
failed-Shut t timeout now b shut h = ground arith

admissions-Within :
    (t timeout : ℕ) (steps : List Step) (b : CircuitBreaker)
    → Shut t timeout b
    → All (Within t timeout) steps
    → (admissions steps b ≡ 0) × ((run steps b).state ≡ opened)
unfolding admissions run step
admissions-Within t timeout [] b shut within = (refl, shut.0)
admissions-Within t timeout (begin now ∷ steps) b shut within =
    let same = admit-Shut t timeout now b shut within.0 in
    let first : count_one (admit now b).0 ≡ 0 =
      ap (λ (p : Admission × CircuitBreaker). count_one p.0) same in
    let rest =
      subst (λ c. (admissions steps c ≡ 0) × ((run steps c).state ≡ opened))
        (sym (ap (λ (p : Admission × CircuitBreaker). p.1) same))
        (admissions-Within t timeout steps b shut within.1) in
    (omega (arith, first, rest.0), rest.1)
admissions-Within t timeout (end now returned ∷ steps) b shut within = absurd within.0
admissions-Within t timeout (end now failed ∷ steps) b shut within =
    admissions-Within t timeout steps (step (end now failed) b)
      (failed-Shut t timeout now b shut within.0) within.1
admissions-Within t timeout (end now interrupted ∷ steps) b shut within =
    admissions-Within t timeout steps b shut within.1
admissions-Within t timeout (restart ∷ steps) b shut within = absurd within.0

-- An open breaker whose last failure was at `t` stays open and lets no call through, as long as
-- every call begins within the timeout after `t`, no call that was under way succeeds, the clock
-- does not run back behind `t`, and nobody resets it; further failures do not matter.
pub admissions-Shut :
    (t : ℕ) (steps : List Step) (b : CircuitBreaker)
    → b.state ≡ opened
    → b.last_failure_time ≡ some t
    → All (Within t b.recovery_timeout) steps
    → (admissions steps b ≡ 0) × ((run steps b).state ≡ opened)
admissions-Shut t steps b shut last within =
    admissions-Within t b.recovery_timeout steps b (ground arith) within
