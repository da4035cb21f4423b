-- ===== src/Auth/Lockout/Ending.antt =====
-- The lockouts of brute_force_protection.py end: every counter has an end while Redis answers.
use codelab_ai_service.Prelude.{
  Bool, Bool-cases, Option, Option-cases, String, ap, arith, false, inl, inr, is_some, leb, none,
  refl, some, true, ℕ, ◌<◌, ◌∷◌, ◌≡◌, ◌⊎◌, ◌==◌, [], List,
}
use codelab_ai_service.Auth.Lockout.{
  Redis, Key, username_key, ip_key, same_key, expire_first, record_failed_attempt, after_both,
  after_none, after_first, is_locked_out,
}
use codelab_ai_service.Auth.Claims.{Settings}
use codelab_ai_service.Auth.Lockout.Counting.{
  Failure, fail_all, count_of, eq_of_same_key, incr-is_some, is_locked_out-counts,
  value-expire_first, value-incr,
}

-- A value that is not there, or has an end within so many seconds.
abbrev pub ends_within : ℕ → Option ℕ → Option ℕ → Bool
ends_within d none left = true
ends_within d (some v) none = false
ends_within d (some v) (some m) = leb m d

module _ (r : Redis) (settings : Settings) (steady : (s : r.Server) → r.is_up s ≡ true) where
  open r use {Server, value, left}

  -- The counter of the key ends within the lockout duration.
  abbrev pub Ends : Key → Server → Type 0
  Ends j s = ends_within settings.brute_force_lockout_duration (value j s) (left j s) ≡ true

  -- After `INCR` a counter ends, or it is new.
  Ends-incr :
      (k j : Key) (m : ℕ) (s : Server)
      → (r.incr k s).0 ≡ some m
      → Ends j s
      → Ends j (r.incr k s).1 ⊎ ((same_key k j ≡ true) × (m ≡ 1))
  Ends-incr k j m s e h = elim (Bool-cases (same_key k j)) [
    | inl same ↦
        let spot = eq_of_same_key k j same in
        let here = ap (λ (i : Key). value i s) spot in
        elim (Option-cases (value j s)) [
          | inl gone ↦ inr (same, ground (arith, e, r.incr-answer k s, steady s, here, gone))
          | inr (v, there) ↦ inl (
              ground (arith, h, there, same, value-incr r settings steady k j s, r.incr-left k j s))
        ]
    | inr other ↦
        inl (ground (arith, h, other, value-incr r settings steady k j s, r.incr-left k j s))
  ]

  Ends-expire_first :
      (k j : Key) (c : ℕ) (s : Server)
      → Ends j s ⊎ ((same_key k j ≡ true) × (c ≡ 1))
      → Ends j (expire_first r settings k c s).1
  Ends-expire_first k j c s h =
      let d = settings.brute_force_lockout_duration in
      elim (Bool-cases (c == 1)) [
        | inl first ↦ elim (Bool-cases (same_key k j)) [
          | inl same ↦
              let here = ap (λ (i : Key). value i s) (eq_of_same_key k j same) in
              elim (Option-cases (value j s)) [
                | inl gone ↦ rw first (ground (arith, r.expire-value k j d s, gone))
                | inr (v, there) ↦ rw first (
                    ground (
                      arith,
                      r.expire-value k j d s,
                      r.expire-left k j d s,
                      steady s,
                      same,
                      here,
                      there,
                    ))
              ]
          | inr other ↦
              rw first (ground (arith, r.expire-value k j d s, r.expire-left k j d s, other, h))
        ]
        | inr later ↦ rw later (ground (arith, h))
      ]

  Ends-after_both :
      (u ip : String) (n m : ℕ) (j : Key) (s : Server)
      → (Ends j s ⊎ ((same_key (username_key u) j ≡ true) × (n ≡ 1)))
        ⊎ ((same_key (ip_key ip) j ≡ true) × (m ≡ 1))
      → Ends j (after_both r settings u ip n m s)
  unfolding after_both
  Ends-after_both u ip n m j s h =
      let s' = (expire_first r settings (username_key u) n s).1 in
      rw (value-expire_first r settings steady (username_key u) j n s).1 (
        Ends-expire_first (ip_key ip) j m s' (elim h [
          | inl one ↦ inl (Ends-expire_first (username_key u) j n s one)
          | inr two ↦ inr two
        ]))

  Ends-after_first :
      (u ip : String) (n : ℕ) (j : Key) (answer : Option ℕ × Server)
      → is_some answer.0 ≡ true
      → ((m : ℕ)
          → answer.0 ≡ some m
          → (Ends j answer.1 ⊎ ((same_key (username_key u) j ≡ true) × (n ≡ 1)))
            ⊎ ((same_key (ip_key ip) j ≡ true) × (m ≡ 1)))
      → Ends j (after_first r settings u ip n answer)
  unfolding after_first
  Ends-after_first u ip n j (none, s) up h = cc
  Ends-after_first u ip n j (some m, s) up h = Ends-after_both u ip n m j s (h m refl)

  Ends-after_none :
      (u ip : String) (j : Key) (answer : Option ℕ × Server)
      → is_some answer.0 ≡ true
      → ((n : ℕ)
          → answer.0 ≡ some n
          → Ends j answer.1 ⊎ ((same_key (username_key u) j ≡ true) × (n ≡ 1)))
      → Ends j (after_none r settings u ip answer)
  unfolding after_none
  Ends-after_none u ip j (none, s) up h = cc
  Ends-after_none u ip j (some n, s) up h =
      Ends-after_first u ip n j (r.incr (ip_key ip) s)
        (incr-is_some r settings steady (ip_key ip) s)
        (λ m e. elim (h n refl) [
          | inl old ↦ elim (Ends-incr (ip_key ip) j m s e old) [
            | inl kept ↦ inl (inl kept)
            | inr new ↦ inr new
          ]
          | inr new ↦ inl (inr new)
        ])

  Ends-record_failed_attempt :
      (u ip : String) (j : Key) (s : Server)
      → Ends j s
      → Ends j (record_failed_attempt r settings u ip s)
  unfolding record_failed_attempt
  Ends-record_failed_attempt u ip j s h =
      Ends-after_none u ip j (r.incr (username_key u) s)
        (incr-is_some r settings steady (username_key u) s)
        (λ n e. Ends-incr (username_key u) j n s e h)

  Ends-elapse : (j : Key) (n : ℕ) (s : Server) → Ends j s → Ends j (r.elapse n s)
  Ends-elapse j n s h = elim (Option-cases (value j s)) [
    | inl gone ↦ ground (arith, r.elapse-value n j s, gone)
    | inr (v, there) ↦ elim (Option-cases (left j s)) [
      | inl always ↦ ground (arith, h, there, always)
      | inr (m, e) ↦ ground (arith, h, there, e, r.elapse-value n j s, r.elapse-left n j s)
    ]
  ]

  Ends-fail_all :
      (j : Key) (attempts : List Failure) (s : Server)
      → Ends j s
      → Ends j (fail_all r settings steady attempts s)
  Ends-fail_all j [] s h = h
  Ends-fail_all j ((n, u, ip) ∷ rest) s h =
      Ends-fail_all j rest (record_failed_attempt r settings u ip (r.elapse n s))
        (Ends-record_failed_attempt u ip j (r.elapse n s) (Ends-elapse j n s h))

  count-elapse :
      (j : Key) (s : Server)
      → Ends j s
      → count_of r settings steady j (r.elapse settings.brute_force_lockout_duration s) ≡ 0
  count-elapse j s h = elim (Option-cases (value j s)) [
    | inl gone ↦ ground (arith, r.elapse-value settings.brute_force_lockout_duration j s, gone)
    | inr (v, there) ↦ elim (Option-cases (left j s)) [
      | inl always ↦ ground (arith, h, there, always)
      | inr (m, e) ↦
          ground (arith, h, there, e, r.elapse-value settings.brute_force_lockout_duration j s)
    ]
  ]

  -- While Redis answers and the threshold is positive, when the counters of a username and of an
  -- address are not there or end within the lockout duration: after any failed logins, of these and
  -- of others and with any seconds between them, and then the lockout duration without one more,
  -- the username at the address is not locked out.
  pub is_locked_out-elapse :
      (u ip : String) (attempts : List Failure) (s : Server)
      → 0 < settings.brute_force_threshold
      → Ends (username_key u) s
      → Ends (ip_key ip) s
      → is_locked_out r settings u ip
          (r.elapse settings.brute_force_lockout_duration (fail_all r settings steady attempts s))
        ≡ false
  is_locked_out-elapse u ip attempts s pos h h' =
      let after = fail_all r settings steady attempts s in
      let late = r.elapse settings.brute_force_lockout_duration after in
      ground (
        arith,
        is_locked_out-counts r settings steady u ip late pos,
        count-elapse (username_key u) after (Ends-fail_all (username_key u) attempts s h),
        count-elapse (ip_key ip) after (Ends-fail_all (ip_key ip) attempts s h'),
      )
