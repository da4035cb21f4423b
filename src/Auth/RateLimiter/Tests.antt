-- ===== src/Auth/RateLimiter/Tests.antt =====
-- Two requests of an address are allowed, and the third is not; another address does not count.
use codelab_ai_service.Auth.Lockout.{ip_key, same_key}
use codelab_ai_service.Auth.Lockout.Memory.{memory, no_failures}
use codelab_ai_service.Auth.RateLimiter.{RateSettings, limit_request, passes, too_many}
use codelab_ai_service.Auth.RateLimiter.Allowance.{allowed_of, allowed_of-smaller}
use codelab_ai_service.Prelude.{false, none, refl, true, ◌∷◌, ◌≡◌, []}

allowed_of-smaller_example :
    allowed_of memory 2 60
      (ip_key "a")
      (ip_key "a" ∷ ip_key "b" ∷ ip_key "a" ∷ ip_key "a" ∷ [])
      no_failures
    ≡ 2
unfolding same_key
allowed_of-smaller_example =
    allowed_of-smaller memory 2 60 (λ s. refl) (ip_key "a")
      (ip_key "a" ∷ ip_key "b" ∷ ip_key "a" ∷ ip_key "a" ∷ []) no_failures

abbrev settings : RateSettings
settings = record {
  enable_rate_limiting = true;
  rate_limit_per_ip = 0;
  rate_limit_per_username = 10;
  is_development = false;
}

public : (limit_request memory settings "/health" "a" no_failures).0 ≡ passes none
unfolding limit_request
public = refl

refused : (limit_request memory settings "/oauth/token" "a" no_failures).0 ≡ too_many 0
unfolding limit_request
refused = refl
