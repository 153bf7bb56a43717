-- ===== src/Lifecycle.antt =====
-- The start and the stop of an operator, in cmd/transflect-operator/operator.go: `startLeading` by
-- one goroutine, `runWorkers` and `runWorker`, and `stop` by any number of callers, such as the
-- callback for the loss of the lease and the one for a failed start. One shared access is one step.
-- The context that `startLeading` passes to `syncActive` is not modelled: client-go cancels it before
-- it runs the callback for the loss of the lease, and a start then fails at its lists. So the steps
-- let a start go on in orders in which the program's fails; what holds of all steps holds of the
-- program, and that a state can be reached by the steps does not say that the program comes there.
pub mod Closing
pub mod Stopping
use transflect.Base.{ℕ, suc, ◌+◌, ◌-◌, ◌<◌, ◌≡◌, ◌≢◌, Bool, Option, none, some}
use transflect.MutexMap.{update}

-- The channel `stopper`.
pub data Stopper : Type 0 where
  missing opened closed : Stopper

-- The work queue.
pub data Queue : Type 0 where
  absent running shut_down : Queue

-- Where `startLeading` stands. `syncing` is everything between the making of the stopper and the
-- start of the workers, `spawning` the loop of `runWorkers` with the rounds left, `serving` the wait
-- for the stopper, `ending` behind it.
pub data Lead : Type 0 where
  elected : Lead
  syncing : Lead
  spawning : ℕ → Lead
  serving ending returned failed : Lead

-- Where a caller of `stop` stands: `asks` at the `Lock`, `looks` at the `select`, `checks` at the
-- test against nil and the `close`, `awaits` at the `Wait` of the wait group.
pub data Caller : Type 0 where
  outside asks looks checks awaits done : Caller

pub record State : Type 0 where
  pub stopper : Stopper
  pub queue : Queue
  -- the counter of the wait group
  pub workers : ℕ
  pub lead : Lead
  -- who has locked `stopLock`
  pub holder : Option ℕ
  pub caller : ℕ → Caller
  -- a `close` of a closed channel has ended the process
  pub crashed : Bool

abbrev pub move : State → ℕ → Caller → State
move s i c = record s { caller = update s.caller i c }

-- `runWorkers(ctx, 42)`
abbrev pub worker_count : ℕ
worker_count = 42

pub data Step (s : State) : State → Type 0 where
  make : s.lead ≡ elected → Step s (record s { stopper = opened; lead = syncing })
  start_failed : s.lead ≡ syncing → Step s (record s { lead = failed })
  started : s.lead ≡ syncing → Step s (record s { queue = running; lead = spawning worker_count })
  spawn :
      {n : ℕ}
      → s.lead ≡ spawning (suc n)
      → Step s (record s { workers = s.workers + 1; lead = spawning n })
  spawned : s.lead ≡ spawning 0 → Step s (record s { lead = serving })
  see_stop : s.lead ≡ serving → s.stopper ≡ closed → Step s (record s { lead = ending })
  shut : s.lead ≡ ending → Step s (record s { queue = shut_down; lead = returned })
  -- `next` returns false once the queue is shut down
  worker_ends : s.queue ≡ shut_down → 0 < s.workers → Step s (record s { workers = s.workers - 1 })
  ask : (i : ℕ) → s.caller i ≡ outside → Step s (move s i asks)
  enter :
      (i : ℕ)
      → s.caller i ≡ asks
      → s.holder ≡ none
      → Step s (record (move s i looks) { holder = some i })
  already :
      (i : ℕ)
      → s.caller i ≡ looks
      → s.stopper ≡ closed
      → Step s (record (move s i done) { holder = none })
  go_on : (i : ℕ) → s.caller i ≡ looks → s.stopper ≢ closed → Step s (move s i checks)
  close :
      (i : ℕ)
      → s.caller i ≡ checks
      → s.stopper ≡ opened
      → Step s (record (move s i awaits) { stopper = closed })
  close_closed :
      (i : ℕ) → s.caller i ≡ checks → s.stopper ≡ closed → Step s (record s { crashed = Bool.true })
  skip : (i : ℕ) → s.caller i ≡ checks → s.stopper ≡ missing → Step s (move s i awaits)
  waited :
      (i : ℕ)
      → s.caller i ≡ awaits
      → s.workers ≡ 0
      → Step s (record (move s i done) { holder = none })

pub data Reach (s : State) : State → Type 0 where
  here : Reach s s
  later : {t u : State} → Reach s t → Step t u → Reach s u

abbrev pub init : State
init = record {
  stopper = missing;
  queue = absent;
  workers = 0;
  lead = elected;
  holder = none;
  caller = λ _. outside;
  crashed = Bool.false;
}
