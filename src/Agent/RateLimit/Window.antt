-- ===== src/Agent/RateLimit/Window.antt =====
-- How many requests of a client pass the middleware (rate_limit.py) in a minute.
use mathlib.Core.List.{append-nil, append_assoc}
use codelab_ai_service.Prelude.{
  ℕ, String, List, [], ◌∷◌, ◌++◌, keep, length, ltb, leb, str_eq, if◌then◌else◌, ◌&&◌, ◌≤◌, ◌+◌,
  arith, refl, ◌<◌, ◌≡◌, Dict, eq_iff, insert, lookup-insert, lookup-remove, remove, ap, true, Bool,
  false, sym, ◌∙◌, lookup,
}
use codelab_ai_service.Agent.RateLimit.{
  RateLimitMiddleware, Event, request, sweep, dispatch, is_recent, requests_of, minute, clean_all,
  clean_client, cleanup, keys,
}

-- The times at which requests of the client pass.
unfoldable pub admitted : String → List Event → RateLimitMiddleware → List ℕ
admitted client [] w = []
admitted client (request now c ∷ events) w =
    let rest = admitted client events (dispatch now c w).1 in
    if str_eq c client && (dispatch now c w).0 then now ∷ rest else rest
admitted client (sweep now ∷ events) w = admitted client events (cleanup now w)

-- The clock does not run back.
abbrev pub Ordered : ℕ → List Event → Type 0
Ordered t [] = Unit
Ordered t (request now c ∷ events) = (t ≤ now) × Ordered now events
Ordered t (sweep now ∷ events) = (t ≤ now) × Ordered now events

-- The times in the minute that begins at `t`.
abbrev pub in_minute : ℕ → List ℕ → List ℕ
in_minute t times = keep (λ x. leb t x && ltb x (t + minute)) times

module _ (client : String) where
  -- From `now` on, what the middleware remembers of the client is what has passed in the last minute.
  abbrev Remembers : ℕ → List ℕ → RateLimitMiddleware → Type 0
  Remembers now log w =
      (later : ℕ)
      → now ≤ later
      → keep (is_recent later) (requests_of client w.requests) ≡ keep (is_recent later) log

  keep-keep :
      (now later : ℕ) (times : List ℕ)
      → now ≤ later
      → keep (is_recent later) (keep (is_recent now) times) ≡ keep (is_recent later) times
  keep-keep now later [] h = refl
  keep-keep now later (x ∷ times) h = ground (arith, keep-keep now later times)

  keep-append :
      (later : ℕ) (xs ys : List ℕ)
      → keep (is_recent later) (xs ++ ys) ≡ keep (is_recent later) xs ++ keep (is_recent later) ys
  keep-append later [] ys = refl
  keep-append later (x ∷ xs) ys = ground (arith, keep-append later xs ys)

  in_minute-append_one :
      (t now : ℕ) (xs : List ℕ)
      → length (in_minute t (xs ++ now ∷ []))
        ≡ length (in_minute t xs) + (if leb t now && ltb now (t + minute) then 1 else 0)
  in_minute-append_one t now [] = ground arith
  in_minute-append_one t now (x ∷ xs) = ground (arith, in_minute-append_one t now xs)

  -- What is in the minute of the request is recent at it.
  in_minute-is_recent :
      (t now : ℕ) (xs : List ℕ)
      → now < t + minute
      → length (in_minute t xs) ≤ length (keep (is_recent now) xs)
  in_minute-is_recent t now [] h = omega arith
  in_minute-is_recent t now (x ∷ xs) h = ground (arith, in_minute-is_recent t now xs)

  requests_of-clean_client :
      (now : ℕ) (c : String) (d : Dict (List ℕ))
      → requests_of client (clean_client now c d) ≡ (
          if str_eq c client
          then keep (is_recent now) (requests_of client d)
          else requests_of client d)
  unfolding clean_client
  requests_of-clean_client now c d = go (keep (is_recent now) (requests_of c d)) refl
    where
      go :
          (times : List ℕ)
          → keep (is_recent now) (requests_of c d) ≡ times
          → requests_of client (elim times [ [] ↦ remove c d | x ∷ xs ↦ insert c (x ∷ xs) d ]) ≡ (
              if str_eq c client
              then keep (is_recent now) (requests_of client d)
              else requests_of client d)
      go [] e = ground (arith, eq_iff c client, lookup-remove c client d)
      go (x ∷ xs) e = ground (arith, eq_iff c client, lookup-insert c client (x ∷ xs) d)

  Remembers-clean_all :
      (now : ℕ) (log : List ℕ) (clients : List String) (w : RateLimitMiddleware)
      → Remembers now log w
      → Remembers now log (record w { requests = clean_all now clients w.requests })
  unfolding clean_all
  Remembers-clean_all now log [] w h = h
  Remembers-clean_all now log (c ∷ clients) w h =
      Remembers-clean_all now log clients (record w { requests = clean_client now c w.requests })
        (λ later le.
          rw (requests_of-clean_client now c w.requests)
            (ground (arith, h later le, keep-keep now later (requests_of client w.requests) le)))

  -- What a request leaves of the client's times.
  requests_of-dispatch :
      (now : ℕ) (c : String) (w : RateLimitMiddleware)
      → requests_of client (dispatch now c w).1.requests ≡ (
          if str_eq c client
          then keep (is_recent now) (requests_of client w.requests)
            ++ (if (dispatch now c w).0 then now ∷ [] else [])
          else requests_of client w.requests)
  unfolding dispatch
  requests_of-dispatch now c w =
      let times = keep (is_recent now) (requests_of c w.requests) in
      ground (
        arith,
        eq_iff c client,
        append-nil (keep (is_recent now) (requests_of client w.requests)),
        lookup-insert c client times w.requests,
        lookup-insert c client (times ++ now ∷ []) w.requests,
      )

  -- The log after a request.
  abbrev logged : ℕ → String → RateLimitMiddleware → List ℕ → List ℕ
  logged now c w log = if str_eq c client && (dispatch now c w).0 then log ++ now ∷ [] else log

  Remembers-dispatch :
      (before now : ℕ) (c : String) (log : List ℕ) (w : RateLimitMiddleware)
      → before ≤ now
      → Remembers before log w
      → Remembers now (logged now c w log) (dispatch now c w).1
  Remembers-dispatch before now c log w le h later le' =
      let old = requests_of client w.requests in
      ground (
        arith,
        requests_of-dispatch now c w,
        h later (omega arith),
        append-nil (keep (is_recent now) old),
        keep-keep now later old le',
        keep-append later (keep (is_recent now) old) (now ∷ []),
        keep-append later log (now ∷ []),
      )

  -- A request passes only if fewer than the limit have passed in the minute before it.
  room :
      (now : ℕ) (c : String) (w : RateLimitMiddleware)
      → str_eq c client ≡ true
      → (dispatch now c w).0 ≡ true
      → length (keep (is_recent now) (requests_of client w.requests)) < w.requests_per_minute
  unfolding dispatch
  room now c w same passes =
      let e : c ≡ client = ground (arith, eq_iff c client) in
      let times = λ (d : String). keep (is_recent now) (requests_of d w.requests) in
      let n : length (times c) ≡ length (times client) = ap (λ (d : String). length (times d)) e in
      let fewer : length (times c) < w.requests_per_minute = ground arith in omega (arith, n, fewer)

  -- A request that passes leaves no minute with more than the limit.
  in_minute-logged :
      (before now : ℕ) (c : String) (log : List ℕ) (w : RateLimitMiddleware)
      → before ≤ now
      → Remembers before log w
      → ((t : ℕ) → length (in_minute t log) ≤ w.requests_per_minute)
      → (t : ℕ) → length (in_minute t (logged now c w log)) ≤ w.requests_per_minute
  unfolding dispatch
  in_minute-logged before now c log w le h few t = ground (
    arith,
    room now c w,
    few t,
    h now le,
    in_minute-append_one t now log,
    in_minute-is_recent t now log,
  )

  limit-dispatch :
      (now : ℕ) (c : String) (w : RateLimitMiddleware)
      → (dispatch now c w).1.requests_per_minute ≡ w.requests_per_minute
  unfolding dispatch
  limit-dispatch now c w = ground arith

  regroup :
      (b : Bool) (now : ℕ) (log rest : List ℕ)
      → log ++ (if b then now ∷ rest else rest) ≡ (if b then log ++ now ∷ [] else log) ++ rest
  regroup true now log rest = sym (append_assoc log (now ∷ []) rest)
  regroup false now log rest = refl

  in_minute-admitted :
      (events : List Event) (before limit : ℕ) (log : List ℕ) (w : RateLimitMiddleware)
      → w.requests_per_minute ≡ limit
      → Ordered before events
      → Remembers before log w
      → ((t : ℕ) → length (in_minute t log) ≤ limit)
      → (t : ℕ) → length (in_minute t (log ++ admitted client events w)) ≤ limit
  unfolding admitted cleanup
  in_minute-admitted [] before limit log w same ordered h few t = rw (append-nil log) (few t)
  in_minute-admitted (request now c ∷ events) before limit log w same ordered h few t =
      let w' = (dispatch now c w).1 in
      let b = str_eq c client && (dispatch now c w).0 in
      let small : (u : ℕ) → length (in_minute u (logged now c w log)) ≤ limit = λ u. omega (
        arith,
        same,
        in_minute-logged before now c log w ordered.0 h (λ v. omega (arith, same, few v)) u,
      ) in
      rw (regroup b now log (admitted client events w')) (
        in_minute-admitted events now limit (logged now c w log) w' (limit-dispatch now c w ∙ same)
          ordered.1 (Remembers-dispatch before now c log w ordered.0 h) small t)
  in_minute-admitted (sweep now ∷ events) before limit log w same ordered h few t =
      in_minute-admitted events now limit log (cleanup now w) same ordered.1
        (Remembers-clean_all now log (keys w.requests) w
          (λ later le. h later (omega (arith, ordered.0, le))))
        few t

-- With a clock that does not run back, at most `requests_per_minute` requests of a client pass in any
-- minute, whatever the other clients send and whenever the old requests are swept.
pub in_minute-admitted_new :
    (client : String) (events : List Event) (limit start t : ℕ)
    → Ordered start events
    → length (
        in_minute t
          (admitted client events (record { requests_per_minute = limit; requests = [] })))
      ≤ limit
unfolding lookup
in_minute-admitted_new client events limit start t ordered =
    in_minute-admitted client events start limit []
      (record { requests_per_minute = limit; requests = [] }) refl ordered (λ later le. refl)
      (λ u. omega arith) t
