-- ===== src/Agent/SessionLock/Exclusion.antt =====
-- When the locks of session_lock.py let one task at a time into a session, and when they do not.
use codelab_ai_service.Agent.SessionLock.{
  Lock, SessionLockManager, no_waiters, enter, put, acquire, delete_all, leave, resume, is_locked,
  wake, come, finish, go_on, sweep, run, Step, cleanup_unused_locks, unused, new_manager, step,
  keys, new_lock, release, is_in, drop_task,
}
use codelab_ai_service.Prelude.{
  Bool, Option-cases, String, inl, inr, lookup, not, some, true, ℕ, ◌<◌, ◌||◌, ◌≡◌, Bool-cases, ap,
  arith, eq_iff, eq_refl, lookup-insert, ◌==◌, ◌∙◌, All, Dict, List, false, keep, lookup-remove,
  refl, remove, suc, take, zero, ◌∷◌, [], leb, length, str_eq, ◌-◌, if◌then◌else◌, ◌+◌, ◌≤◌,
}

-- A lock that a task holds or awaits.
abbrev pub is_busy : Lock → Bool
is_busy lock = lock.locked || not (no_waiters lock)

-- The table knows every busy lock by its session, and only locks of that session that were made.
pub record IsTidy (m : SessionLockManager) : Type 0 where
  pub busy : (l : ℕ) → is_busy (m.heap l) ≡ true → lookup (m.heap l).session m.locks ≡ some l
  pub known :
      (s : String) (l : ℕ) → lookup s m.locks ≡ some l → ((m.heap l).session ≡ s) × (l < m.next)

-- A change of one lock that leaves its session, and makes it busy only if the table knows it.
put-IsTidy :
    (k : ℕ) (lock : Lock) (m : SessionLockManager)
    → lock.session ≡ (m.heap k).session
    → (is_busy lock ≡ true → lookup (m.heap k).session m.locks ≡ some k)
    → IsTidy m
    → IsTidy (record m { heap = put k lock m.heap })
put-IsTidy k lock m same known h = record {
  busy = λ l b. elim (Bool-cases (l == k)) [
    | inl here ↦
        let e : l ≡ k = ground arith in
        let found = ap (λ (t : String). lookup t m.locks) same in ground (arith, known, found)
    | inr there ↦ ground (arith, h.busy l)
  ];
  known = λ t l e. elim (Bool-cases (l == k)) [
    | inl here ↦
        let spot : l ≡ k = ground arith in
        let old = ap (λ (j : ℕ). (m.heap j).session) spot in ground (arith, h.known t l, same, old)
    | inr there ↦ ground (arith, h.known t l)
  ];
}

session-acquire : (task : ℕ) (lock : Lock) → (acquire task lock).session ≡ lock.session
session-acquire task lock = ground arith

enter-IsTidy : (task : ℕ) (s : String) (m : SessionLockManager) → IsTidy m → IsTidy (enter task s m)
unfolding enter
enter-IsTidy task s m h = elim (Option-cases (lookup s m.locks)) [
  | inl absent ↦
      rw (absent, enter)
        (record {
          busy = λ l b. ground (
            arith,
            h.busy l,
            lookup-insert s (m.heap l).session m.next m.locks,
            eq_iff s (m.heap l).session,
            lookup-insert s s m.next m.locks,
            eq_refl s,
          );
          known =
              λ t l e. ground (arith, h.known t l, lookup-insert s t m.next m.locks, eq_iff s t);
        })
  | inr (k, found) ↦
      rw (found, enter)
        (put-IsTidy k (acquire task (m.heap k)) m (session-acquire task (m.heap k))
          (λ b. ap (λ (t : String). lookup t m.locks) (h.known s k found).0 ∙ found) h)
]

resume-IsTidy : (k : ℕ) (m : SessionLockManager) → IsTidy m → IsTidy (resume k m)
unfolding resume
resume-IsTidy k m h =
    put-IsTidy k (wake (m.heap k)) m (ground arith) (λ b. ground (arith, h.busy k)) h

leave-IsTidy : (task k : ℕ) (m : SessionLockManager) → IsTidy m → IsTidy (leave task k m)
unfolding leave
leave-IsTidy task k m h =
    put-IsTidy k (release task (m.heap k)) m (ground arith) (λ b. ground (arith, h.busy k)) h

-- No lock is free and awaited: none has been released whose first waiter has not taken it yet.
abbrev pub IsCalm : SessionLockManager → Type 0
IsCalm m = (l : ℕ) → (m.heap l).locked ≡ false → no_waiters (m.heap l) ≡ true

-- A list of sessions whose locks are free.
abbrev AreFree : SessionLockManager → List String → Type 0
AreFree m = All (λ s. is_locked s m ≡ false)

AreFree-keep :
    (m : SessionLockManager) (sessions : List String)
    → AreFree m (keep (λ s. not (is_locked s m)) sessions)
AreFree-keep m [] = tt
AreFree-keep m (s ∷ sessions) = elim (Bool-cases (is_locked s m)) [
  | inl held ↦ rw held (AreFree-keep m sessions)
  | inr free ↦ rw free (free, AreFree-keep m sessions)
]

AreFree-take :
    (m : SessionLockManager) (n : ℕ) (sessions : List String)
    → AreFree m sessions
    → AreFree m (take n sessions)
AreFree-take m zero sessions h = tt
AreFree-take m (suc n) [] h = tt
AreFree-take m (suc n) (s ∷ sessions) h = (h.0, AreFree-take m n sessions h.1)

-- The table after a deletion: every lookup finds what it found, or nothing if the session was deleted.
lookup-delete_all :
    (m : SessionLockManager) (sessions : List String) (s : String) (d : Dict ℕ)
    → AreFree m sessions
    → is_locked s m ≡ true
    → lookup s (delete_all sessions d) ≡ lookup s d
unfolding delete_all
lookup-delete_all m [] s d free held = refl
lookup-delete_all m (t ∷ sessions) s d free held =
    let other : str_eq t s ≡ false = elim (Bool-cases (str_eq t s)) [
      | inl same ↦
          let spot : t ≡ s = ground (arith, eq_iff t s) in
          let clash = ap (λ (u : String). is_locked u m) spot in ground (arith, clash, free.0)
      | inr differs ↦ differs
    ] in
    lookup-delete_all m sessions s (remove t d) free.1 held ∙ ground (arith, lookup-remove t s d)

lookup-delete_all-some :
    (sessions : List String) (s : String) (l : ℕ) (d : Dict ℕ)
    → lookup s (delete_all sessions d) ≡ some l
    → lookup s d ≡ some l
unfolding delete_all
lookup-delete_all-some [] s l d h = h
lookup-delete_all-some (t ∷ sessions) s l d h =
    ground (arith, lookup-remove t s d, lookup-delete_all-some sessions s l (remove t d) h)

-- In a calm manager a busy lock is held, and the table's.
busy-is_locked :
    (m : SessionLockManager) (l : ℕ)
    → IsCalm m
    → IsTidy m
    → is_busy (m.heap l) ≡ true
    → is_locked (m.heap l).session m ≡ true
unfolding is_locked
busy-is_locked m l calm h b = rw (h.busy l b) (ground (arith, calm l))

sweep-IsTidy :
    (max_locks : ℕ) (m : SessionLockManager)
    → IsCalm m
    → IsTidy m
    → IsTidy (cleanup_unused_locks max_locks m).1
unfolding cleanup_unused_locks
sweep-IsTidy max_locks m calm h = elim (Bool-cases (leb (length m.locks) max_locks)) [
  | inl few ↦ rw (few, cleanup_unused_locks) h
  | inr many ↦
      let gone = take (length m.locks - max_locks) (unused m) in
      let free =
        AreFree-take m (length m.locks - max_locks) (unused m) (AreFree-keep m (keys m.locks)) in
      rw (many, cleanup_unused_locks)
        (record {
          busy = λ l b.
              lookup-delete_all m gone (m.heap l).session m.locks free (busy-is_locked m l calm h b)
              ∙ h.busy l b;
          known = λ s l e. h.known s l (lookup-delete_all-some gone s l m.locks e);
        })
]

-- Every sweep of a run finds the manager calm.
abbrev pub SweepsCalm : List Step → SessionLockManager → Type 0
SweepsCalm [] m = Unit
SweepsCalm (come task s ∷ steps) m = SweepsCalm steps (step (come task s) m)
SweepsCalm (go_on l ∷ steps) m = SweepsCalm steps (step (go_on l) m)
SweepsCalm (finish task l ∷ steps) m = SweepsCalm steps (step (finish task l) m)
SweepsCalm (sweep n ∷ steps) m = IsCalm m × SweepsCalm steps (step (sweep n) m)

run-IsTidy :
    (steps : List Step) (m : SessionLockManager)
    → SweepsCalm steps m
    → IsTidy m
    → IsTidy (run steps m)
unfolding run step
run-IsTidy [] m calm h = h
run-IsTidy (come task s ∷ steps) m calm h =
    run-IsTidy steps (enter task s m) calm (enter-IsTidy task s m h)
run-IsTidy (go_on l ∷ steps) m calm h = run-IsTidy steps (resume l m) calm (resume-IsTidy l m h)
run-IsTidy (finish task l ∷ steps) m calm h =
    run-IsTidy steps (leave task l m) calm (leave-IsTidy task l m h)
run-IsTidy (sweep n ∷ steps) m calm h =
    run-IsTidy steps (cleanup_unused_locks n m).1 calm.1 (sweep-IsTidy n m calm.0 h)

new-IsTidy : IsTidy new_manager
unfolding lookup
new-IsTidy = record { busy = λ l b. cc; known = λ s l e. cc }

-- A lock that is held has one task in its block, and one that is free has none.
abbrev pub IsSingle : SessionLockManager → Type 0
IsSingle m = (l : ℕ) → length (m.heap l).holders ≡ (if (m.heap l).locked then 1 else 0)

put-IsSingle :
    (k : ℕ) (lock : Lock) (m : SessionLockManager)
    → length lock.holders ≡ (if lock.locked then 1 else 0)
    → IsSingle m
    → IsSingle (record m { heap = put k lock m.heap })
put-IsSingle k lock m e h l = elim (Bool-cases (l == k)) [
  | inl here ↦ rw (here) e
  | inr there ↦ rw (there) (h l)
]

length-drop_task :
    (task : ℕ) (ts : List ℕ) → is_in task ts ≡ true → length (drop_task task ts) + 1 ≡ length ts
length-drop_task task [] h = cc
length-drop_task task (t ∷ ts) h = ground (arith, length-drop_task task ts)

step-IsSingle : (s : Step) (m : SessionLockManager) → IsSingle m → IsSingle (step s m)
unfolding step enter resume leave cleanup_unused_locks
step-IsSingle (come task session) m h = elim (Option-cases (lookup session m.locks)) [
  | inl absent ↦ rw (absent, enter) (put-IsSingle m.next (acquire task (new_lock session)) m refl h)
  | inr (k, found) ↦
      rw (found, enter) (put-IsSingle k (acquire task (m.heap k)) m (ground (arith, h k)) h)
]
step-IsSingle (go_on k) m h = put-IsSingle k (wake (m.heap k)) m (ground (arith, h k)) h
step-IsSingle (finish task k) m h =
    put-IsSingle k (release task (m.heap k)) m
      (ground (arith, h k, length-drop_task task (m.heap k).holders)) h
step-IsSingle (sweep n) m h = elim (Bool-cases (leb (length m.locks) n)) [
  | inl few ↦ rw (few, step, cleanup_unused_locks) h
  | inr many ↦ rw (many, step, cleanup_unused_locks) h
]

run-IsSingle : (steps : List Step) (m : SessionLockManager) → IsSingle m → IsSingle (run steps m)
unfolding run
run-IsSingle [] m h = h
run-IsSingle (s ∷ steps) m h = run-IsSingle steps (step s m) (step-IsSingle s m h)

-- Two tasks of a list of one.
same_task : (t u : ℕ) (ts : List ℕ) → length ts ≤ 1 → is_in t ts ≡ true → is_in u ts ≡ true → t ≡ u
same_task t u [] h it iu = cc
same_task t u (a ∷ []) h it iu = ground arith
same_task t u (a ∷ b ∷ ts) h it iu = omega arith

held_by : (t : ℕ) (ts : List ℕ) → is_in t ts ≡ true → 0 < length ts
held_by t [] h = cc
held_by t (a ∷ ts) h = omega arith

-- In any run of tasks that come, wake, leave and sweep the locks, from the empty manager, in which
-- no sweep finds a released lock whose first waiter has not taken it yet: two tasks that are in the
-- blocks of locks of one session are the same task in the block of the same lock, so that one task
-- at a time is in a session.
pub run-exclusive :
    (steps : List Step) (t u l k : ℕ)
    → SweepsCalm steps new_manager
    → is_in t ((run steps new_manager).heap l).holders ≡ true
    → is_in u ((run steps new_manager).heap k).holders ≡ true
    → ((run steps new_manager).heap l).session ≡ ((run steps new_manager).heap k).session
    → (l ≡ k) × (t ≡ u)
run-exclusive steps t u l k calm it iu same =
    let m = run steps new_manager in
    let h = run-IsTidy steps new_manager calm new-IsTidy in
    let single = run-IsSingle steps new_manager (λ j. refl) in
    let held : (m.heap l).locked ≡ true =
      ground (arith, single l, held_by t (m.heap l).holders it) in
    let held' : (m.heap k).locked ≡ true =
      ground (arith, single k, held_by u (m.heap k).holders iu) in
    let spot : l ≡ k =
      ground (arith, held, held', h.busy l, h.busy k, ap (λ (s : String). lookup s m.locks) same) in
    let iu' : is_in u (m.heap l).holders ≡ true = ap (λ j. is_in u (m.heap j).holders) spot ∙ iu in
    let few : length (m.heap l).holders ≤ 1 = ground (arith, single l) in
    (spot, same_task t u (m.heap l).holders few it iu')
