-- ===== src/Agent/SessionLock.antt =====
-- agent-runtime/app/infrastructure/concurrency/session_lock.py. The locks are objects of a heap, so that
-- a task can hold or await one that the table has lost. An `asyncio.Lock` wakes its waiters in order;
-- between its release and the moment at which the first waiter takes it, it is free. Nothing is awaited
-- under the global lock, so that what happens under it is one step. `holders` are the tasks that are in
-- the block of `async with`, whatever the flag of the lock says.
mod Tests
pub mod Exclusion
use codelab_ai_service.Prelude.{
  Bool, ℕ, String, Option, none, some, List, [], ◌∷◌, ◌++◌, Dict, lookup, insert, remove, keep,
  length, leb, not, true, false, ◌+◌, ◌-◌, take, ◌==◌, if◌then◌else◌, ◌&&◌, ◌||◌,
}

pub record Lock : Type 0 where
  pub session : String
  pub locked : Bool
  pub waiters : List ℕ
  pub holders : List ℕ

pub record SessionLockManager : Type 0 where
  pub heap : ℕ → Lock
  pub next : ℕ
  pub locks : Dict ℕ

abbrev pub new_lock : String → Lock
new_lock session = record { session = session; locked = false; waiters = []; holders = [] }

abbrev pub new_manager : SessionLockManager
new_manager = record { heap = λ l. new_lock ""; next = 0; locks = [] }

abbrev pub put : ℕ → Lock → (ℕ → Lock) → ℕ → Lock
put l lock heap j = if j == l then lock else heap j

abbrev pub no_waiters : Lock → Bool
no_waiters lock = elim lock.waiters [ [] ↦ true | w ∷ ws ↦ false ]

-- `acquire`: a lock that is free and awaited by nobody is taken at once.
abbrev pub acquire : ℕ → Lock → Lock
acquire task lock =
    if not lock.locked && no_waiters lock
    then record lock { locked = true; holders = task ∷ lock.holders }
    else record lock { waiters = lock.waiters ++ task ∷ [] }

-- `lock`, up to the point where the task holds the lock or waits for it.
unfoldable pub enter : ℕ → String → SessionLockManager → SessionLockManager
enter task session m = elim (lookup session m.locks) [
  | some l ↦ record m { heap = put l (acquire task (m.heap l)) m.heap }
  | none ↦ record m {
    heap = put m.next (acquire task (new_lock session)) m.heap;
    next = m.next + 1;
    locks = insert session m.next m.locks;
  }
]

-- The first waiter of a free lock takes it.
abbrev pub wake : Lock → Lock
wake lock = elim lock.waiters [
  | [] ↦ lock
  | task ∷ rest ↦
      if lock.locked
      then lock
      else record lock { locked = true; waiters = rest; holders = task ∷ lock.holders }
]

unfoldable pub resume : ℕ → SessionLockManager → SessionLockManager
resume l m = record m { heap = put l (wake (m.heap l)) m.heap }

abbrev pub is_in : ℕ → List ℕ → Bool
is_in task [] = false
is_in task (t ∷ ts) = t == task || is_in task ts

abbrev pub drop_task : ℕ → List ℕ → List ℕ
drop_task task [] = []
drop_task task (t ∷ ts) = let rest = drop_task task ts in if t == task then ts else t ∷ rest

-- `release`, when a task leaves the block; only one that is in it does.
abbrev pub release : ℕ → Lock → Lock
release task lock =
    if is_in task lock.holders
    then record lock { locked = false; holders = drop_task task lock.holders }
    else lock

unfoldable pub leave : ℕ → ℕ → SessionLockManager → SessionLockManager
leave task l m = record m { heap = put l (release task (m.heap l)) m.heap }

abbrev pub keys : Dict ℕ → List String
keys [] = []
keys ((session, l) ∷ d) = session ∷ keys d

abbrev pub is_locked_at : SessionLockManager → Option ℕ → Bool
is_locked_at m none = false
is_locked_at m (some l) = (m.heap l).locked

unfoldable pub is_locked : String → SessionLockManager → Bool
is_locked session m = is_locked_at m (lookup session m.locks)

unfoldable pub unused : SessionLockManager → List String
unfolding is_locked
unused m = keep (λ session. not (is_locked session m)) (keys m.locks)

unfoldable pub delete_all : List String → Dict ℕ → Dict ℕ
delete_all [] d = d
delete_all (session ∷ sessions) d = delete_all sessions (remove session d)

-- The answer counts the locks that were to be removed.
unfoldable pub cleanup_unused_locks : ℕ → SessionLockManager → ℕ × SessionLockManager
unfolding unused delete_all
cleanup_unused_locks max_locks m =
    let to_remove = length m.locks - max_locks in
    if leb (length m.locks) max_locks
    then (0, m)
    else (to_remove, record m { locks = delete_all (take to_remove (unused m)) m.locks })

unfoldable pub get_lock_count : SessionLockManager → ℕ
get_lock_count m = length m.locks

pub data Step : Type 0 where
  come : ℕ → String → Step
  go_on : ℕ → Step
  finish : ℕ → ℕ → Step
  sweep : ℕ → Step

unfoldable pub step : Step → SessionLockManager → SessionLockManager
unfolding enter resume leave cleanup_unused_locks
step (come task session) m = enter task session m
step (go_on l) m = resume l m
step (finish task l) m = leave task l m
step (sweep max_locks) m = (cleanup_unused_locks max_locks m).1

unfoldable pub run : List Step → SessionLockManager → SessionLockManager
unfolding step
run [] m = m
run (s ∷ steps) m = run steps (step s m)
