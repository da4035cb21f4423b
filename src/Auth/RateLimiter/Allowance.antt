-- ===== src/Auth/RateLimiter/Allowance.antt =====
-- How many requests of a key are allowed: auth-service/app/services/rate_limiter.py.
use codelab_ai_service.Auth.Lockout.{Redis, Key, same_key}
use codelab_ai_service.Auth.Lockout.Counting.{eq_of_same_key}
use codelab_ai_service.Auth.RateLimiter.{check_rate_limit, expire_new, judge_answer, judge_count}
use codelab_ai_service.Prelude.{
  List, arith, get_or, if◌then◌else◌, leb, true, ℕ, ◌&&◌, ◌+◌, ◌-◌, ◌∷◌, ◌≡◌, [], Bool, Bool-cases,
  Option, ap, false, inl, inr, none, refl, some, ◌∙◌,
}

-- The requests of a key in a list of them.
abbrev pub hits_of : Key → List Key → ℕ
hits_of k [] = 0
hits_of k (j ∷ ks) = (if same_key j k then 1 else 0) + hits_of k ks

-- The smaller of two numbers.
abbrev pub smaller : ℕ → ℕ → ℕ
smaller m n = if leb m n then m else n

module _ (r : Redis) (limit window : ℕ) where
  open r use {Server, value}

  -- How many requests of a key are allowed, when these requests are checked in their order.
  abbrev pub allowed_of : Key → List Key → Server → ℕ
  allowed_of k [] s = 0
  allowed_of k (j ∷ ks) s =
      let ((allowed, remaining), s') = check_rate_limit r j limit window s in
      (if same_key j k && allowed then 1 else 0) + allowed_of k ks s'

  abbrev pub used : Key → Server → ℕ
  used k s = get_or (value k s) 0

  module _ (steady : (s : Server) → r.is_up s ≡ true) where
    judge_count-steady :
        (n : ℕ) (answer : Bool × Server)
        → answer.0 ≡ true
        → ((judge_count r limit n answer).0.0 ≡ leb n limit)
          × ((judge_count r limit n answer).1 ≡ answer.1)
    judge_count-steady n (false, s) h = cc
    judge_count-steady n (true, s) h = (refl, refl)

    expire_new-steady :
        (j : Key) (n : ℕ) (s : Server)
        → ((expire_new r j n window s).0 ≡ true)
          × ((k : Key) → value k (expire_new r j n window s).1 ≡ value k s)
    expire_new-steady j n s = (
      ground (arith, r.expire-answer j window s, steady s),
      λ k. ground (arith, r.expire-value j k window s),
    )

    judge_answer-steady :
        (j : Key) (n : ℕ) (answer : Option ℕ × Server)
        → answer.0 ≡ some n
        → ((judge_answer r j limit window answer).0.0 ≡ leb n limit)
          × ((k : Key) → value k (judge_answer r j limit window answer).1 ≡ value k answer.1)
    judge_answer-steady j n (none, s) h = cc
    judge_answer-steady j n (some m, s) h =
        let same : m ≡ n = ground (arith, h) in
        let (up, kept) = expire_new-steady j m s in
        let (judged, after) = judge_count-steady m (expire_new r j m window s) up in
        (judged ∙ ap (λ x. leb x limit) same, λ k. ap (value k) after ∙ kept k)

    used-incr :
        (j k : Key) (s : Server)
        → used k (r.incr j s).1 ≡ used k s + (if same_key j k then 1 else 0)
    used-incr j k s = elim (Bool-cases (same_key j k)) [
      | inl e ↦
          let same = eq_of_same_key j k e in
          ground (arith, r.incr-value j k s, steady s, e, ap (λ i. used i s) same)
      | inr e ↦ ground (arith, r.incr-value j k s, steady s, e)
    ]

    -- A check counts its request, and allows it while the count is within the limit.
    check_rate_limit-steady :
        (j : Key) (s : Server)
        → ((check_rate_limit r j limit window s).0.0 ≡ leb (used j s + 1) limit)
          × ((k : Key)
              → used k (check_rate_limit r j limit window s).1
                ≡ used k s + (if same_key j k then 1 else 0))
    unfolding check_rate_limit
    check_rate_limit-steady j s =
        let answered : (r.incr j s).0 ≡ some (used j s + 1) =
          ground (arith, r.incr-answer j s, steady s) in
        let (judged, kept) = judge_answer-steady j (used j s + 1) (r.incr j s) answered in
        (judged, λ k. ap (λ (v : Option ℕ). get_or v 0) (kept k) ∙ used-incr j k s)

    -- While Redis answers and no window ends, of any sequence of requests of any keys, those of a
    -- key that are allowed are as many as the smaller of two numbers: the requests of the key, and
    -- what its counter has left to the limit at the start.
    pub allowed_of-smaller :
        (k : Key) (ks : List Key) (s : Server)
        → allowed_of k ks s ≡ smaller (hits_of k ks) (limit - used k s)
    allowed_of-smaller k [] s = ground arith
    allowed_of-smaller k (j ∷ ks) s =
        let s' = (check_rate_limit r j limit window s).1 in
        let (judged, counted) = check_rate_limit-steady j s in
        elim (Bool-cases (same_key j k)) [
          | inl e ↦
              let same : used j s ≡ used k s = ap (λ i. used i s) (eq_of_same_key j k e) in
              ground (arith, e, same, judged, counted k, allowed_of-smaller k ks s')
          | inr e ↦ ground (arith, e, counted k, allowed_of-smaller k ks s')
        ]
