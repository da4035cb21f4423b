-- ===== src/Agent/RetryHandler/Tests.antt =====
-- A handler (retry_handler.py) that fails twice, and the theorem about it there.
use codelab_ai_service.Prelude.{
  ℕ, [], ◌∷◌, length, String, All, false, if◌then◌else◌, ltb, refl, true, ◌+◌, ◌<◌, ◌≡◌, ◌≤◌, ◌⊎◌,
}
use codelab_ai_service.Agent.RetryHandler.{
  Result, returned, raised, wrapper, default_handler, delay,
}
use codelab_ai_service.Agent.RetryHandler.Attempts.{counting, is_raised, delays, wrapper-counting}

abbrev third_time : ℕ → Result ℕ String
third_time n = if ltb n 2 then raised "busy" else returned n

retried :
    wrapper (counting third_time default_handler) default_handler 0 ≡ (returned 2, 1 ∷ 2 ∷ [], 3)
unfolding wrapper delay
retried = refl

wrapper-counting_example :
    let (last, waits, calls) = wrapper (counting third_time default_handler) default_handler 0 in
    (calls ≡ 0 + length waits + 1)
    × (last ≡ third_time (0 + length waits))
    × (length waits ≤ 3)
    × ((i : ℕ) → i < length waits → is_raised (third_time (0 + i)) ≡ true)
    × ((is_raised last ≡ false) ⊎ (length waits ≡ 3))
    × (waits ≡ delays default_handler 0 (length waits))
    × All (λ d. d ≤ 60) waits
wrapper-counting_example = wrapper-counting third_time default_handler 0
