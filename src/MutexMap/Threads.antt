-- ===== src/MutexMap/Threads.antt =====
-- Any number of threads that use one map of mutexes, interleaved in any order, one shared access at
-- a time: Go's `sync.Map` and `sync.Mutex` make each of these accesses atomic.
use transflect.Base.{ℕ, String, ◌≡◌, Bool, true, false, Option, none, some}
use transflect.MutexMap.{
  MutexMap, empty, update, mutex_of, store_new, drop_new, set_locked, erase_entry,
}

-- Where a thread stands. Between `Lock(name)` and `Unlock(name)` it holds the name; `waiting` is at
-- the `Lock` of a mutex loaded from the map, `releasing` at the `Unlock` of one.
pub data Pc : Type 0 where
  idle : Pc
  waiting : String → ℕ → Pc
  holding : String → Pc
  releasing : String → ℕ → Pc

-- One step of one thread. With `removes` the holder of a name may call `Remove(name)`, as
-- `processReplicaset` does, and so may a thread that holds nothing, as `cleanupDeployment` does.
pub data Move (removes : Bool) (s : MutexMap) : Pc → MutexMap → Pc → Type 0 where
  lock_new : (n : String) → mutex_of n s ≡ none → Move removes s idle (store_new n s) (holding n)
  lock_loaded :
      (n : String) {m : ℕ} → mutex_of n s ≡ some m → Move removes s idle (drop_new s) (waiting n m)
  acquire :
      {n : String} {m : ℕ}
      → s.locked m ≡ false
      → Move removes s (waiting n m) (set_locked m true s) (holding n)
  unlock_absent : {n : String} → mutex_of n s ≡ none → Move removes s (holding n) s idle
  unlock_load :
      {n : String} {m : ℕ} → mutex_of n s ≡ some m → Move removes s (holding n) s (releasing n m)
  release :
      {n : String} {m : ℕ}
      → s.locked m ≡ true
      → Move removes s (releasing n m) (set_locked m false s) idle
  remove_held :
      {n : String} → removes ≡ true → Move removes s (holding n) (erase_entry n s) (holding n)
  remove_unheld : (n : String) → removes ≡ true → Move removes s idle (erase_entry n s) idle

pub record System : Type 0 where
  pub map : MutexMap
  pub pc : ℕ → Pc

pub data Step (removes : Bool) (s : System) : System → Type 0 where
  pick :
      (i : ℕ) {m : MutexMap} {p : Pc}
      → Move removes s.map (s.pc i) m p
      → Step removes s (record { map = m; pc = update s.pc i p })

abbrev pub init : System
init = record { map = empty; pc = λ _. idle }

-- The states that `s` can come to.
pub data Reach (removes : Bool) (s : System) : System → Type 0 where
  here : Reach removes s s
  later : {t u : System} → Reach removes s t → Step removes t u → Reach removes s u

-- The name that a thread has locked and not yet unlocked.
abbrev pub held : Pc → Option String
held (holding n) = some n
held (releasing n m) = some n
held _ = none
