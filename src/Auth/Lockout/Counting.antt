-- ===== src/Auth/Lockout/Counting.antt =====
-- What the counters of brute_force_protection.py hold while Redis answers, and when they lock.
use codelab_ai_service.Prelude.{
  List, String, arith, get_or, if◌then◌else◌, true, ℕ, ◌+◌, ◌||◌, ◌∙◌, ◌∷◌, ◌≡◌, [], Bool-cases,
  Option, ap, eq_iff, inl, inr, is_some, none, some, leb, ◌*◌, ◌<◌, ◌≤◌, ◌⊎◌, Option-cases, ltb,
  sym,
}
use codelab_ai_service.Auth.Lockout.{
  ip_key, username_key, Redis, Key, same_key, expire_first, record_failed_attempt, after_both,
  after_none, after_first, is_locked_out, outlasts,
}
use codelab_ai_service.Auth.Claims.{Settings}

-- A failed login: the seconds since the one before, the username and the address.
abbrev pub Failure : Type 0
Failure = ℕ × String × String

-- The failed logins of one key, and the seconds that all of them take.
abbrev pub hits : Key → List Failure → ℕ
hits k [] = 0
hits k ((n, u, ip) ∷ rest) =
    (if same_key (username_key u) k || same_key (ip_key ip) k then 1 else 0) + hits k rest

abbrev pub span : List Failure → ℕ
span [] = 0
span ((n, u, ip) ∷ rest) = n + span rest

-- Keys that are the same key are equal.
pub eq_of_same_key : (k j : Key) → same_key k j ≡ true → k ≡ j
unfolding same_key
eq_of_same_key (username_key a) (username_key b) h = ap username_key ((eq_iff a b).0 h)
eq_of_same_key (ip_key a) (ip_key b) h = ap ip_key ((eq_iff a b).0 h)
eq_of_same_key (username_key a) (ip_key b) h = cc
eq_of_same_key (ip_key a) (username_key b) h = cc

module _ (r : Redis) (settings : Settings) (steady : (s : r.Server) → r.is_up s ≡ true) where
  open r use {Server, value}

  abbrev pub count_of : Key → Server → ℕ
  count_of k s = get_or (value k s) 0

  pub value-expire_first :
      (k j : Key) (n : ℕ) (s : Server)
      → (value j (expire_first r settings k n s).1 ≡ value j s)
        × ((expire_first r settings k n s).0 ≡ true)
  value-expire_first k j n s = ground (
    arith,
    r.expire-value k j settings.brute_force_lockout_duration s,
    r.expire-answer k settings.brute_force_lockout_duration s,
    steady s,
  )

  value-after_both :
      (u ip : String) (n m : ℕ) (j : Key) (s : Server)
      → value j (after_both r settings u ip n m s) ≡ value j s
  unfolding after_both
  value-after_both u ip n m j s =
      let one = value-expire_first (username_key u) j n s in
      let s' = (expire_first r settings (username_key u) n s).1 in
      let two = value-expire_first (ip_key ip) j m s' in rw one.1 (two.0 ∙ one.0)

  pub incr-is_some : (k : Key) (s : Server) → is_some (r.incr k s).0 ≡ true
  incr-is_some k s = rw (r.incr-answer, steady)

  value-after_first :
      (u ip : String) (n : ℕ) (j : Key) (answer : Option ℕ × Server)
      → is_some answer.0 ≡ true
      → value j (after_first r settings u ip n answer) ≡ value j answer.1
  unfolding after_first
  value-after_first u ip n j (none, s) h = cc
  value-after_first u ip n j (some m, s) h = value-after_both u ip n m j s

  value-after_none :
      (u ip : String) (j : Key) (answer : Option ℕ × Server)
      → is_some answer.0 ≡ true
      → value j (after_none r settings u ip answer) ≡ value j (r.incr (ip_key ip) answer.1).1
  unfolding after_none
  value-after_none u ip j (none, s) h = cc
  value-after_none u ip j (some n, s) h =
      value-after_first u ip n j (r.incr (ip_key ip) s) (incr-is_some (ip_key ip) s)

  -- The value of a key after the two increments of a failed login.
  pub value-incr :
      (k j : Key) (s : Server)
      → value j (r.incr k s).1 ≡ (if same_key k j then some (count_of k s + 1) else value j s)
  value-incr k j s = ground (arith, r.incr-value k j s, steady s)

  count-incr :
      (k j : Key) (s : Server)
      → count_of j (r.incr k s).1 ≡ (if same_key k j then 1 else 0) + count_of j s
  count-incr k j s = elim (Bool-cases (same_key k j)) [
    | inl same ↦
        let e = eq_of_same_key k j same in rw (value-incr k j s, same) (rw (← e) (omega arith))
    | inr other ↦ rw (value-incr k j s, other) (omega arith)
  ]

  -- No key is that of the username and of the address.
  hit_add :
      (u ip : String) (j : Key)
      → (if same_key (username_key u) j || same_key (ip_key ip) j then 1 else 0)
        ≡ (if same_key (ip_key ip) j then 1 else 0) + (if same_key (username_key u) j then 1 else 0)
  unfolding same_key
  hit_add u ip (username_key a) = ground arith
  hit_add u ip (ip_key a) = ground arith

  -- One failed login adds one to the counter of its username and to that of its address.
  pub count-record_failed_attempt :
      (u ip : String) (j : Key) (s : Server)
      → count_of j (record_failed_attempt r settings u ip s)
        ≡ (if same_key (username_key u) j || same_key (ip_key ip) j then 1 else 0) + count_of j s
  unfolding record_failed_attempt
  count-record_failed_attempt u ip j s =
      let answer = r.incr (username_key u) s in
      let both =
        ap (λ (v : Option ℕ). get_or v 0)
          (value-after_none u ip j answer (incr-is_some (username_key u) s)) in
      omega (
        arith,
        both,
        count-incr (ip_key ip) j answer.1,
        count-incr (username_key u) j s,
        hit_add u ip j,
      )

  -- A key that is there for some more seconds, before and after a command; its counter is there after
  -- they have passed.
  abbrev pub Lasts : Key → ℕ → Server → Type 0
  Lasts k n s = outlasts n (r.left k s) ≡ true

  Lasts-expire_first :
      (k j : Key) (c n : ℕ) (s : Server)
      → n < settings.brute_force_lockout_duration
      → Lasts j n s
      → Lasts j n (expire_first r settings k c s).1
  Lasts-expire_first k j c n s short h =
      ground (arith, r.expire-left k j settings.brute_force_lockout_duration s)

  module _ (n : ℕ) (short : n < settings.brute_force_lockout_duration) where
    Lasts-after_both :
        (u ip : String) (c d : ℕ) (j : Key) (s : Server)
        → Lasts j n s
        → Lasts j n (after_both r settings u ip c d s)
    unfolding after_both
    Lasts-after_both u ip c d j s h =
        let one = Lasts-expire_first (username_key u) j c n s short h in
        let s' = (expire_first r settings (username_key u) c s).1 in
        rw (value-expire_first (username_key u) j c s).1
          (Lasts-expire_first (ip_key ip) j d n s' short one)

    Lasts-after_first :
        (u ip : String) (c : ℕ) (j : Key) (answer : Option ℕ × Server)
        → Lasts j n answer.1
        → Lasts j n (after_first r settings u ip c answer)
    unfolding after_first
    Lasts-after_first u ip c j (none, s) h = h
    Lasts-after_first u ip c j (some d, s) h = Lasts-after_both u ip c d j s h

    Lasts-incr : (k j : Key) (s : Server) → Lasts j n s → Lasts j n (r.incr k s).1
    Lasts-incr k j s h = rw (r.incr-left) h

    Lasts-after_none :
        (u ip : String) (j : Key) (answer : Option ℕ × Server)
        → Lasts j n answer.1
        → Lasts j n (after_none r settings u ip answer)
    unfolding after_none
    Lasts-after_none u ip j (none, s) h = h
    Lasts-after_none u ip j (some c, s) h =
        Lasts-after_first u ip c j (r.incr (ip_key ip) s) (Lasts-incr (ip_key ip) j s h)

    pub Lasts-record_failed_attempt :
        (u ip : String) (j : Key) (s : Server)
        → Lasts j n s
        → Lasts j n (record_failed_attempt r settings u ip s)
    unfolding record_failed_attempt
    Lasts-record_failed_attempt u ip j s h =
        Lasts-after_none u ip j (r.incr (username_key u) s) (Lasts-incr (username_key u) j s h)

  pub Lasts-elapse :
      (j : Key) (n m : ℕ) (s : Server)
      → Lasts j (n + m) s
      → Lasts j m (r.elapse n s) × (count_of j (r.elapse n s) ≡ count_of j s)
  Lasts-elapse j n m s h = elim (Option-cases (r.left j s)) [
    | inl e ↦ (ground (arith, e, r.elapse-left n j s), ground (arith, e, r.elapse-value n j s))
    | inr (t, e) ↦
        let late : ltb (n + m) t ≡ true = ap (outlasts (n + m)) (sym e) ∙ h in
        (
          ground (arith, e, late, r.elapse-left n j s),
          ground (arith, e, late, r.elapse-value n j s),
        )
  ]

  -- The server after the failed logins.
  abbrev pub fail_all : List Failure → Server → Server
  fail_all [] s = s
  fail_all ((n, u, ip) ∷ rest) s =
      fail_all rest (record_failed_attempt r settings u ip (r.elapse n s))

  count-fail_all :
      (k : Key) (attempts : List Failure) (s : Server)
      → span attempts < settings.brute_force_lockout_duration
      → Lasts k (span attempts) s
      → count_of k (fail_all attempts s) ≡ hits k attempts + count_of k s
  count-fail_all k [] s short h = omega arith
  count-fail_all k ((n, u, ip) ∷ rest) s short h =
      let (lasts, kept) = Lasts-elapse k n (span rest) s h in
      let short' : span rest < settings.brute_force_lockout_duration = omega (arith, short) in
      omega (
        arith,
        count-fail_all k rest (record_failed_attempt r settings u ip (r.elapse n s)) short'
            (Lasts-record_failed_attempt (span rest) short' u ip k (r.elapse n s) lasts),
        count-record_failed_attempt u ip k (r.elapse n s),
        kept,
      )

  -- While Redis answers, a login is locked out exactly when its username has failed as often as the
  -- threshold, or its address twice as often.
  pub is_locked_out-counts :
      (u ip : String) (s : Server)
      → 0 < settings.brute_force_threshold
      → is_locked_out r settings u ip s ≡ (
          leb settings.brute_force_threshold (count_of (username_key u) s)
          || leb (settings.brute_force_threshold * 2) (count_of (ip_key ip) s))
  unfolding is_locked_out
  is_locked_out-counts u ip s pos = ground (
    arith,
    r.get-answer (username_key u) s,
    r.get-answer (ip_key ip) s,
    r.ttl-answer (username_key u) s,
    r.ttl-answer (ip_key ip) s,
    steady s,
  )

  -- While Redis answers and the threshold is positive, after any failed logins, with any seconds
  -- between them, that together take less than the lockout duration, when neither the counter of
  -- the username nor that of the address ends before they are over: a username that failed at least
  -- as often as the threshold, or an address that failed twice as often, is locked out.
  pub is_locked_out-fail_all :
      (u ip : String) (attempts : List Failure) (s : Server)
      → 0 < settings.brute_force_threshold
      → span attempts < settings.brute_force_lockout_duration
      → Lasts (username_key u) (span attempts) s
      → Lasts (ip_key ip) (span attempts) s
      → (settings.brute_force_threshold ≤ hits (username_key u) attempts)
        ⊎ (settings.brute_force_threshold * 2 ≤ hits (ip_key ip) attempts)
      → is_locked_out r settings u ip (fail_all attempts s) ≡ true
  is_locked_out-fail_all u ip attempts s pos short lasts lasts' enough =
      rw (is_locked_out-counts u ip (fail_all attempts s) pos) (
        ground (
          arith,
          count-fail_all (username_key u) attempts s short lasts,
          count-fail_all (ip_key ip) attempts s short lasts',
        ))
