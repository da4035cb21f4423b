-- ===== src/Auth/Endpoint/Password.antt =====
-- The password grant of oauth.py and its lockout: how many passwords can be tried for a username.
use mathlib.Core.Path.{subst}
use codelab_ai_service.Prelude.{
  List, Option, String, Text, if◌then◌else◌, none, some, str_eq, suc, true, ℕ, ◌+◌, ◌<◌, ◌==◌, ◌∷◌,
  ◌≡◌, [], Bool-cases, Option-cases, arith, eq_refl, get_or, inl, inr, is_truthy, refl, ◌&&◌, ◌≤◌,
  ap, sym,
}
use codelab_ai_service.Auth.Endpoint.{
  error, issued, Reply, conclude_password, World, handle_password_grant, finish_grant, store_new,
  log_audit,
}
use codelab_ai_service.Auth.Grants.{
  TokenRequest, Granted, Db, login_success, authenticate_password_grant,
}
use codelab_ai_service.Auth.Crypto.{Crypto}
use codelab_ai_service.Auth.Lockout.{
  Redis, username_key, is_locked_out, same_key, reset_failed_attempts,
}
use codelab_ai_service.Auth.Accounts.{password}
use codelab_ai_service.Auth.Claims.{Settings}
use codelab_ai_service.Auth.Lockout.Counting.{
  count_of, Lasts, Lasts-elapse, Lasts-record_failed_attempt, count-record_failed_attempt,
  is_locked_out-counts,
}

-- One try of a password: how many seconds after the one before, when, with which identifiers, from which address, through which client.
pub record Try : Type 0 where
  pub waited : ℕ
  pub now : ℕ
  pub uuids : String × String
  pub ip : String
  pub client_id : String
  pub secret : Option String
  pub scope : Option Text

abbrev pub try_request : String → Try → TokenRequest
try_request username a = record {
  grant_type = password;
  client_id = a.client_id;
  username = some username;
  secret = a.secret;
  token = none;
  scope = a.scope;
}

-- What an answer tells of the password: it was wrong, it was not looked at, or it was right.
pub data Guess : Type 0 where
  wrong unread right : Guess

abbrev pub guess : Reply → Guess
guess (issued t) = right
guess (error code status) =
    if status == 401 then wrong else if str_eq code "server_error" then right else unread

same_key_refl : (u : String) → same_key (username_key u) (username_key u) ≡ true
unfolding same_key
same_key_refl u = eq_refl u

module _ (x : Crypto) (r : Redis) (settings : Settings) (steady : (s : r.Server) → r.is_up s ≡ true)
    (username : String) where
  abbrev try : Try → World r → Reply × World r
  try a w = handle_password_grant x r settings a.now a.uuids a.ip (try_request username a) w

  -- The world at the time of a try.
  abbrev at : Try → World r → World r
  at a w = record w { server = r.elapse a.waited w.server }

  -- The seconds that all tries take.
  abbrev pub time_of : List Try → ℕ
  time_of [] = 0
  time_of (a ∷ rest) = a.waited + time_of rest

  -- The counter of the username is there after some more seconds.
  abbrev pub Stays : ℕ → World r → Type 0
  Stays n w = Lasts r settings steady (username_key username) n w.server

  -- The wrong guesses before the first right one.
  pub wrong_guesses : List Try → World r → ℕ
  wrong_guesses [] w = 0
  wrong_guesses (a ∷ rest) w =
      let (reply, w') = try a (at a w) in
      let more = wrong_guesses rest w' in
      elim (guess reply) [ wrong ↦ suc more | unread ↦ more | right ↦ 0 ]

  abbrev failures : World r → ℕ
  failures w = count_of r settings steady (username_key username) w.server

  -- What a try leaves of the counter, by what it tells.
  abbrev Counts : World r → Guess → World r → Type 0
  Counts w wrong w' =
      (failures w < settings.brute_force_threshold)
      × (failures w' ≡ failures w + 1)
      × ((n : ℕ) → n < settings.brute_force_lockout_duration → Stays n w → Stays n w')
  Counts w unread w' = w' ≡ w
  Counts w right w' = Unit

  Counts-right : (w w' : World r) (g : Guess) → g ≡ right → Counts w g w'
  Counts-right w w' wrong e = cc
  Counts-right w w' unread e = cc
  Counts-right w w' right e = tt

  -- Past the authentication the password was right, whether the token could be stored or not.
  guess-finish_grant :
      (now : ℕ) (g : Granted) (w : World r)
      → guess (finish_grant x r settings now g none w).0 ≡ right
  unfolding finish_grant
  guess-finish_grant now g w =
      elim (Option-cases (store_new x r settings now g.response.refresh_token none w.db)) [
        | inl raises ↦ rw (raises, finish_grant)
        | inr (db, done) ↦ rw (done, finish_grant)
      ]

  conclude-Counts :
      (a : Try) (granted : Option Granted) (db : Db) (w : World r)
      → failures w < settings.brute_force_threshold
      → let result =
          conclude_password x r settings a.now a.ip username a.client_id granted
            (record w { db = db }) in
        Counts w (guess result.0) result.1
  unfolding conclude_password
  conclude-Counts a none db w room = (
    room,
    ground (
      arith,
      count-record_failed_attempt r settings steady username a.ip (username_key username) w.server,
      same_key_refl username,
    ),
    λ n short h.
        Lasts-record_failed_attempt r settings steady n short username a.ip (username_key username)
          w.server h,
  )
  conclude-Counts a (some g) db w room =
      let entry = login_success g.user.id g.client.client_id a.ip g.response.scope in
      let logged : World r = record w {
        server = reset_failed_attempts r settings username a.ip w.server;
        db = log_audit entry db;
      } in
      Counts-right w (finish_grant x r settings a.now g none logged).1
        (guess (finish_grant x r settings a.now g none logged).0)
        (guess-finish_grant a.now g logged)

  try-Counts :
      (a : Try) (w : World r)
      → 0 < settings.brute_force_threshold
      → Counts w (guess (try a w).0) (try a w).1
  unfolding handle_password_grant
  try-Counts a w pos = elim (Bool-cases (is_truthy (some username) && is_truthy a.secret)) [
    | inl given ↦ elim (Bool-cases (is_locked_out r settings username a.ip w.server)) [
      | inl locked ↦ rw (given, locked) refl
      | inr free ↦
          let room : failures w < settings.brute_force_threshold =
            ground (arith, is_locked_out-counts r settings steady username a.ip w.server pos) in
          let (granted, db) =
            authenticate_password_grant x settings a.now a.uuids (try_request username a) w.db in
          rw (given, free) (conclude-Counts a granted db w room)
    ]
    | inr missing ↦ rw missing refl
  ]

  -- While Redis answers and the threshold is positive, in any password grants for one username,
  -- from any addresses and through any clients, with any seconds between them, that together take
  -- less than the lockout duration: if the counter of the username lasts at least as long as they
  -- take and is at most the threshold, then the wrong passwords that are looked at before the first
  -- right one, with the failures counted before, are at most the threshold.
  pub wrong_guesses-le :
      (tries : List Try) (w : World r)
      → 0 < settings.brute_force_threshold
      → time_of tries < settings.brute_force_lockout_duration
      → Stays (time_of tries) w
      → get_or (r.value (username_key username) w.server) 0 ≤ settings.brute_force_threshold
      → wrong_guesses tries w + get_or (r.value (username_key username) w.server) 0
        ≤ settings.brute_force_threshold
  unfolding wrong_guesses
  wrong_guesses-le [] w pos short stays h = omega arith
  wrong_guesses-le (a ∷ rest) w pos short stays h =
      let w0 = at a w in
      let (lasts, kept) =
        Lasts-elapse r settings steady (username_key username) a.waited (time_of rest) w.server
          stays in
      let short' : time_of rest < settings.brute_force_lockout_duration = omega (arith, short) in
      go w0 kept lasts short' (guess (try a w0).0) (try a w0).1 (try-Counts a w0 pos)
        (wrong_guesses-le rest (try a w0).1 pos short')
    where
      go :
          (w0 : World r)
          → failures w0 ≡ failures w
          → Stays (time_of rest) w0
          → time_of rest < settings.brute_force_lockout_duration
          → (g : Guess) (w' : World r) → Counts w0 g w'
          → (Stays (time_of rest) w'
              → failures w' ≤ settings.brute_force_threshold
              → wrong_guesses rest w' + failures w' ≤ settings.brute_force_threshold)
          → (elim g [
            | wrong ↦ suc (wrong_guesses rest w')
            | unread ↦ wrong_guesses rest w'
            | right ↦ 0
          ])
              + failures w
            ≤ settings.brute_force_threshold
      go w0 kept lasts short' wrong w' (room, one, on) ih =
          omega
            (arith, kept, room, one, ih (on (time_of rest) short' lasts) (omega (arith, room, one)))
      go w0 kept lasts short' unread w' counts ih =
          let e : failures w' ≡ failures w0 = ap (λ (v : World r). failures v) counts in
          let l : Stays (time_of rest) w' =
            subst (λ (v : World r). Stays (time_of rest) v) (sym counts) lasts in
          omega (arith, e, kept, ih l (omega (arith, e, kept, h)))
      go w0 kept lasts short' right w' counts ih = omega arith
