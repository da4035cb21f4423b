-- ===== src/Agent/RetryHandler/Attempts.antt =====
-- How often a function that is retried (retry_handler.py) is called, and how long it waits.
use mathlib.Core.Path.{subst}
use codelab_ai_service.Prelude.{
  ℕ, List, [], ◌∷◌, length, Bool, true, false, ◌+◌, ◌≤◌, ◌<◌, ◌≡◌, All, suc, zero, ◌⊎◌, ap, arith,
  inl, inr, refl, sym, ◌∙◌,
}
use codelab_ai_service.Agent.RetryHandler.{
  RetryHandler, Result, returned, raised, attempts, wrapper, delay, conclude,
}

abbrev pub is_raised : {A E : Type 0} → Result A E → Bool
is_raised (returned a) = false
is_raised (raised e) = true

-- The waits of as many retries, from one attempt on.
abbrev pub delays : RetryHandler → ℕ → ℕ → List ℕ
delays h attempt zero = []
delays h attempt (suc n) = delay h attempt ∷ delays h (attempt + 1) n

module _ {A E : Type 0} (results : ℕ → Result A E) (h : RetryHandler) where
  -- A function that is known by the results of its calls, and counts them.
  abbrev pub counting : ℕ → Result A E × ℕ
  counting n = (results n, n + 1)

  -- How the attempts end: the last result, the waits, and the number of the next call.
  abbrev Ends : ℕ → ℕ → ℕ → Result A E × List ℕ × ℕ → Type 0
  Ends left attempt n (last, waits, calls) =
      (calls ≡ n + length waits + 1)
      × (last ≡ results (n + length waits))
      × (length waits ≤ left)
      × ((i : ℕ) → i < length waits → is_raised (results (n + i)) ≡ true)
      × ((is_raised last ≡ false) ⊎ (length waits ≡ left))
      × (waits ≡ delays h attempt (length waits))

  results_at : (m n : ℕ) → m ≡ n → results m ≡ results n
  results_at m n e = ap results e

  conclude-Ends :
      (left attempt n : ℕ) (r : Result A E) (rest : Result A E × List ℕ × ℕ)
      → results n ≡ r
      → Ends left (attempt + 1) (n + 1) rest
      → Ends (suc left) attempt n (conclude counting h attempt r (n + 1) rest)
  conclude-Ends left attempt n (returned a) rest e h' = (
    omega arith,
    sym e ∙ results_at n (n + 0) (omega arith),
    omega arith,
    λ i lt. absurd (omega (arith, lt)),
    inl refl,
    refl,
  )
  conclude-Ends left attempt n (raised x) (last, waits, calls) e (more, end, few, all, stop, same) =
      (
        omega (arith, more),
        end ∙ results_at (n + 1 + length waits) (n + suc (length waits)) (omega arith),
        omega (arith, few),
        every,
        elim stop [ inl good ↦ inl good | inr out ↦ inr (omega (arith, out)) ],
        ap (λ (ds : List ℕ). delay h attempt ∷ ds) same,
      )
    where
      every : (i : ℕ) → i < suc (length waits) → is_raised (results (n + i)) ≡ true
      every zero lt = ap is_raised (results_at (n + 0) n (omega arith) ∙ e)
      every (suc i) lt =
          ap is_raised (results_at (n + suc i) (n + 1 + i) (omega arith))
          ∙ all i (omega (arith, lt))

  attempts-Ends : (left attempt n : ℕ) → Ends left attempt n (attempts counting h left attempt n)
  unfolding attempts
  attempts-Ends zero attempt n = (
    omega arith,
    results_at n (n + 0) (omega arith),
    omega arith,
    λ i lt. absurd (omega (arith, lt)),
    inr refl,
    refl,
  )
  attempts-Ends (suc left) attempt n =
      conclude-Ends left attempt n (results n) (attempts counting h left (attempt + 1) (n + 1)) refl
        (attempts-Ends left (attempt + 1) (n + 1))

  delay-le : (n attempt : ℕ) → All (λ d. d ≤ h.max_delay) (delays h attempt n)
  unfolding delay
  delay-le zero attempt = tt
  delay-le (suc n) attempt = (omega arith, delay-le n (attempt + 1))

  -- A function that is retried is called until it returns, or `max_retries` times more than once; every
  -- call but the last has raised, and the last gives the result. Between the calls it waits for the
  -- delays of the first retries, in order, none longer than `max_delay`.
  pub wrapper-counting :
      (n : ℕ)
      → let (last, waits, calls) = wrapper counting h n in
        (calls ≡ n + length waits + 1)
        × (last ≡ results (n + length waits))
        × (length waits ≤ h.max_retries)
        × ((i : ℕ) → i < length waits → is_raised (results (n + i)) ≡ true)
        × ((is_raised last ≡ false) ⊎ (length waits ≡ h.max_retries))
        × (waits ≡ delays h 0 (length waits))
        × All (λ d. d ≤ h.max_delay) waits
  unfolding wrapper
  wrapper-counting n =
      let (more, end, few, all, stop, same) = attempts-Ends h.max_retries 0 n in
      let waits = (attempts counting h h.max_retries 0 n).1 in
      (
        more,
        end,
        few,
        all,
        stop,
        same,
        subst (λ (ws : List ℕ). All (λ d. d ≤ h.max_delay) ws) (sym same)
            (delay-le (length waits) 0),
      )
