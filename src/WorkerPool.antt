-- ===== src/WorkerPool.antt =====
-- src/include/grpc_server/worker_pool.h: the queue of callbacks and the threads that take them, as a state
-- machine whose steps interleave freely. What a callback does is not part of it; one that throws a
-- std::exception ends like any other.
pub mod Order
pub mod Stopping
use vector_db.Prelude.{
  ℕ, zero, suc, List, [], ◌∷◌, ◌++◌, Option, none, some, Outcome, done, thrown, Bool, true, false,
  if◌then◌else◌, length, leb, ◌≡◌,
}

-- A thread waits for a task, runs one, or has returned.
pub data Worker (T : Type 0) : Type 0 where
  waiting : Worker T
  busy : T → Worker T
  gone : Worker T

pub record Pool (T : Type 0) : Type 0 where
  pub tasks : List T
  pub stopped : Bool
  pub threads : List (Worker T)

-- `MAX_QUEUE_SIZE`
abbrev pub max_queue_size : ℕ
max_queue_size = 10000

-- What happens to the callbacks.
pub data Event (T : Type 0) : Type 0 where
  accepted : T → Event T
  refused : T → Event T
  took : T → Event T
  ran : T → Event T
  stopping : Event T
  left : Event T

module _ {T : Type 0} where
  abbrev pub waiting_threads : ℕ → List (Worker T)
  waiting_threads zero = []
  waiting_threads (suc n) = waiting ∷ waiting_threads n

  -- The constructor starts the threads.
  abbrev pub init : ℕ → Pool T
  init num_threads = record { tasks = []; stopped = false; threads = waiting_threads num_threads }

  -- A full queue is an exception. A pool that has stopped still takes the callback.
  unfoldable pub submit : T → Pool T → Outcome (Pool T)
  submit task p =
      if leb max_queue_size (length p.tasks)
      then thrown
      else done (record p { tasks = p.tasks ++ (task ∷ []) })

  -- The part of `shutdown` under the lock; the joins that follow wait until every thread is gone.
  unfoldable pub shutdown : Pool T → Pool T
  shutdown p = record p { stopped = true }

  -- The body of `worker_thread` up to the call of the task, once it has the lock and something to do:
  -- a stopped pool sends the thread away, else it takes the front of the queue.
  unfoldable pub wake : Pool T → Option (Worker T × Pool T)
  wake p =
      if p.stopped
      then some (gone, p)
      else elim p.tasks [ [] ↦ none | task ∷ rest ↦ some (busy task, record p { tasks = rest }) ]

  abbrev pub with_thread : List (Worker T) → Worker T → List (Worker T) → Pool T → Pool T
  with_thread before w after p = record p { threads = before ++ (w ∷ after) }

  -- The steps of the pool, any thread at any time.
  pub data Step : Pool T → Event T → Pool T → Type 0 where
    submits : {p q : Pool T} (task : T) → submit task p ≡ done q → Step p (accepted task) q
    refuses : {p : Pool T} (task : T) → submit task p ≡ thrown → Step p (refused task) p
    takes :
        {p q : Pool T} {task : T} (before after : List (Worker T))
        → p.threads ≡ before ++ (waiting ∷ after)
        → wake p ≡ some (busy task, q)
        → Step p (took task) (with_thread before (busy task) after q)
    leaves :
        {p q : Pool T} (before after : List (Worker T))
        → p.threads ≡ before ++ (waiting ∷ after)
        → wake p ≡ some (gone, q)
        → Step p left (with_thread before gone after q)
    ends :
        {p : Pool T} (task : T) (before after : List (Worker T))
        → p.threads ≡ before ++ (busy task ∷ after)
        → Step p (ran task) (with_thread before waiting after p)
    stops : {p : Pool T} → Step p stopping (shutdown p)

  -- The steps that lead from a pool to another, the last one first.
  pub data Run : Pool T → List (Event T) → Pool T → Type 0 where
    start : {p : Pool T} → Run p [] p
    then_step :
        {p q r : Pool T} {events : List (Event T)} {e : Event T}
        → Run p events q
        → Step q e r
        → Run p (e ∷ events) r
