-- ===== src/Auth/RateLimiter.antt =====
-- auth-service/app/services/rate_limiter.py and auth-service/app/middleware/rate_limit.py: the requests
-- of an address, or of a username, in a window that Redis ends. Redis is that of the lockout; its two
-- kinds of keys are `rate_limit:username:…` and `rate_limit:ip:…` here. The address of a request, which
-- the middleware reads from the headers, is an argument.
pub mod Allowance
mod Tests
use codelab_ai_service.Auth.Lockout.{Redis, Key, username_key, ip_key}
use codelab_ai_service.Prelude.{
  Bool, Option, String, false, get_or, if◌then◌else◌, leb, none, not, some, str_eq, true, ℕ, ◌&&◌,
  ◌-◌, ◌==◌, ◌||◌,
}

-- The settings of core/config.py that are read.
pub record RateSettings : Type 0 where
  pub enable_rate_limiting : Bool
  pub rate_limit_per_ip : ℕ
  pub rate_limit_per_username : ℕ
  pub is_development : Bool

module _ (r : Redis) where
  open r use {Server, incr, expire, delete}

  -- `if current == 1: expire(key, window)`
  abbrev pub expire_new : Key → ℕ → ℕ → Server → Bool × Server
  expire_new k current window s = if current == 1 then expire k window s else (true, s)

  -- What the counter says, or that Redis raised: then the request is allowed.
  abbrev pub judge_count : ℕ → ℕ → Bool × Server → (Bool × ℕ) × Server
  judge_count limit current (false, s) = ((true, limit), s)
  judge_count limit current (true, s) = ((leb current limit, limit - current), s)

  abbrev pub judge_answer : Key → ℕ → ℕ → Option ℕ × Server → (Bool × ℕ) × Server
  judge_answer k limit window (none, s) = ((true, limit), s)
  judge_answer k limit window (some current, s) =
      judge_count limit current (expire_new k current window s)

  -- Whether the request is allowed, and how many are left: the body of both checks.
  unfoldable pub check_rate_limit : Key → ℕ → ℕ → Server → (Bool × ℕ) × Server
  check_rate_limit k limit window s = judge_answer k limit window (incr k s)

  unfoldable pub check_rate_limit_ip :
      RateSettings → String → Option ℕ → ℕ → Server → (Bool × ℕ) × Server
  unfolding check_rate_limit
  check_rate_limit_ip settings ip limit window s =
      check_rate_limit (ip_key ip) (get_or limit settings.rate_limit_per_ip) window s

  unfoldable pub check_rate_limit_username :
      RateSettings → String → Option ℕ → ℕ → Server → (Bool × ℕ) × Server
  unfolding check_rate_limit
  check_rate_limit_username settings username limit window s =
      check_rate_limit (username_key username) (get_or limit settings.rate_limit_per_username)
        window s

  -- Whether the call returns.
  unfoldable pub reset_rate_limit_ip : String → Server → Bool × Server
  reset_rate_limit_ip ip s = delete (ip_key ip) (ip_key ip) s

  unfoldable pub reset_rate_limit_username : String → Server → Bool × Server
  reset_rate_limit_username username s = delete (username_key username) (username_key username) s

  -- What becomes of a request: it goes on, with the header of the remaining requests or without, or is
  -- answered by 429.
  pub data Passage : Type 0 where
    passes : Option ℕ → Passage
    too_many : ℕ → Passage

  abbrev pub is_public : String → Bool
  is_public path =
      str_eq path "/health"
      || str_eq path "/docs"
      || str_eq path "/openapi.json"
      || str_eq path "/redoc"
      || str_eq path "/.well-known/jwks.json"

  abbrev pub is_local : String → Bool
  is_local ip = str_eq ip "127.0.0.1" || str_eq ip "localhost" || str_eq ip "::1"

  abbrev pub passage_of : (Bool × ℕ) × Server → Passage × Server
  passage_of ((allowed, remaining), s) =
      (if allowed then passes (some remaining) else too_many remaining, s)

  -- `dispatch`, of the path and the address of a request.
  unfoldable pub limit_request : RateSettings → String → String → Server → Passage × Server
  unfolding check_rate_limit_ip
  limit_request settings path ip s =
      if not settings.enable_rate_limiting
      then (passes none, s)
      else if is_public path
      then (passes none, s)
      else if settings.is_development && is_local ip
      then (passes none, s)
      else passage_of (check_rate_limit_ip settings ip none 60 s)
