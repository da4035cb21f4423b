-- ===== src/Auth/Lockout.antt =====
-- auth-service/app/services/brute_force_protection.py: the counters of failed logins in Redis. Redis
-- is a parameter: what each command answers, and the value of each key as `GET` shows it.
mod Tests
pub mod Counting
pub mod Ending
pub mod Memory
use codelab_ai_service.Prelude.{
  Bool, Option, String, false, get_or, if◌then◌else◌, is_some, leb, none, some, str_eq, true, ℕ,
  ◌&&◌, ◌*◌, ◌+◌, ◌==◌, ◌||◌, ◌≡◌, ltb, ◌-◌,
}
use codelab_ai_service.Auth.Claims.{Settings}

-- The keys `failed_attempts:username:…` and `failed_attempts:ip:…`.
pub data Key : Type 0 where
  username_key : String → Key
  ip_key : String → Key

unfoldable pub same_key : Key → Key → Bool
same_key (username_key a) (username_key b) = str_eq a b
same_key (ip_key a) (ip_key b) = str_eq a b
same_key _ _ = false

-- Whether a key that has so many seconds left, or no end, is there after some more; and what it has
-- left then.
abbrev pub outlasts : ℕ → Option ℕ → Bool
outlasts n none = true
outlasts n (some m) = ltb n m

abbrev pub less : ℕ → Option ℕ → Option ℕ
less n none = none
less n (some m) = some (m - n)

-- A command answers `none`, or `false`, where the client raises. `INCR` adds one to the value, or to
-- 0 for a missing key, and keeps its end; `EXPIRE` sets when a key ends, and no value; `DEL` removes
-- both keys. `left` are the seconds that a key has left, of one that ends; when seconds pass (`elapse`)
-- a key that has no more of them left is gone.
pub record Redis : Type 1 where
  pub Server : Type 0
  pub value : Key → Server → Option ℕ
  pub is_up : Server → Bool
  pub incr : Key → Server → Option ℕ × Server
  pub expire : Key → ℕ → Server → Bool × Server
  pub get : Key → Server → Option (Option ℕ)
  pub ttl : Key → Server → Option ℕ
  pub delete : Key → Key → Server → Bool × Server
  pub left : Key → Server → Option ℕ
  pub elapse : ℕ → Server → Server
  pub incr-answer :
      (k : Key) (s : Server)
      → (incr k s).0 ≡ (if is_up s then some (get_or (value k s) 0 + 1) else none)
  pub incr-value :
      (k j : Key) (s : Server)
      → value j (incr k s).1
        ≡ (if is_up s && same_key k j then some (get_or (value k s) 0 + 1) else value j s)
  pub expire-answer : (k : Key) (n : ℕ) (s : Server) → (expire k n s).0 ≡ is_up s
  pub expire-value : (k j : Key) (n : ℕ) (s : Server) → value j (expire k n s).1 ≡ value j s
  pub incr-left : (k j : Key) (s : Server) → left j (incr k s).1 ≡ left j s
  pub expire-left :
      (k j : Key) (n : ℕ) (s : Server)
      → left j (expire k n s).1
        ≡ (if is_up s && same_key k j && is_some (value k s) then some n else left j s)
  pub elapse-value :
      (n : ℕ) (j : Key) (s : Server)
      → value j (elapse n s) ≡ (if outlasts n (left j s) then value j s else none)
  pub elapse-left :
      (n : ℕ) (j : Key) (s : Server)
      → left j (elapse n s) ≡ (if outlasts n (left j s) then less n (left j s) else none)
  pub get-answer : (k : Key) (s : Server) → get k s ≡ (if is_up s then some (value k s) else none)
  pub ttl-answer : (k : Key) (s : Server) → is_some (ttl k s) ≡ is_up s
  pub delete-answer : (a b : Key) (s : Server) → (delete a b s).0 ≡ is_up s
  pub delete-value :
      (a b j : Key) (s : Server)
      → value j (delete a b s).1
        ≡ (if is_up s && (same_key a j || same_key b j) then none else value j s)

module _ (r : Redis) (settings : Settings) where
  open r use {Server, incr, expire, get, ttl, delete}

  -- `if count == 1: expire(key, lockout_duration)`
  abbrev pub expire_first : Key → ℕ → Server → Bool × Server
  expire_first k count s =
      if count == 1 then expire k settings.brute_force_lockout_duration s else (true, s)

  after_both : String → String → ℕ → ℕ → Server → Server
  after_both username ip n m s =
      let (done, s') = expire_first (username_key username) n s in
      if done then (expire_first (ip_key ip) m s').1 else s'

  after_first : String → String → ℕ → Option ℕ × Server → Server
  unfolding after_both
  after_first username ip n (none, s) = s
  after_first username ip n (some m, s) = after_both username ip n m s

  after_none : String → String → Option ℕ × Server → Server
  unfolding after_first
  after_none username ip (none, s) = s
  after_none username ip (some n, s) = after_first username ip n (incr (ip_key ip) s)

  -- What raises ends the method, which logs it: what was written before stays.
  unfoldable pub record_failed_attempt : String → String → Server → Server
  unfolding after_none
  record_failed_attempt username ip s = after_none username ip (incr (username_key username) s)

  -- `count and int(count) >= limit`
  abbrev pub reaches : ℕ → Option ℕ → Bool
  reaches limit none = false
  reaches limit (some n) = leb limit n

  -- The message needs the TTL; where `TTL` raises, the request is let through.
  abbrev pub locked_if_told : Option ℕ → Bool
  locked_if_told answer = is_some answer

  check_ip : String → Server → Bool
  check_ip ip s = elim (get (ip_key ip) s) [
    | none ↦ false
    | some count ↦
        if reaches (settings.brute_force_threshold * 2) count
        then locked_if_told (ttl (ip_key ip) s)
        else false
  ]

  -- Whether the username or the address is locked out. Without Redis nobody is.
  unfoldable pub is_locked_out : String → String → Server → Bool
  unfolding check_ip
  is_locked_out username ip s = elim (get (username_key username) s) [
    | none ↦ false
    | some count ↦
        if reaches settings.brute_force_threshold count
        then locked_if_told (ttl (username_key username) s)
        else check_ip ip s
  ]

  unfoldable pub reset_failed_attempts : String → String → Server → Server
  reset_failed_attempts username ip s = (delete (username_key username) (ip_key ip) s).1

  unfoldable pub get_failed_attempts_count : String → Server → ℕ
  get_failed_attempts_count username s = elim (get (username_key username) s) [
    | none ↦ 0
    | some count ↦ get_or count 0
  ]
