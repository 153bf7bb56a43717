-- ===== src/Tests/Locks.antt =====
-- Threads that use one map of mutexes: the first holds a name, the second waits for it.
use native.Mathlib.Decide.{ℕ_discrete}
use transflect.Base.{ℕ, ◌≡◌, refl, true, false, string_eq}
use transflect.Base.Dict.{lookup, insert, erase}
use transflect.MutexMap.{update, store_new, drop_new}
use transflect.MutexMap.Threads.{
  waiting, holding, lock_new, lock_loaded, System, pick, init, Reach, here, later,
}
use transflect.MutexMap.Exclusion.{mutual_exclusion}
use transflect.MutexMap.Orphans.{after_removal, removal_strands_waiter}

abbrev locked_once : System
locked_once = record { map = store_new "a" init.map; pc = update init.pc 0 (holding "a") }

abbrev contended : System
contended = record { map = drop_new locked_once.map; pc = update locked_once.pc 1 (waiting "a" 0) }

contended-reached : Reach false init contended
unfolding lookup insert string_eq ℕ_discrete
contended-reached = later (later here (pick 0 (lock_new "a" refl))) (pick 1 (lock_loaded "a" refl))

abbrev removed : System
removed = after_removal 0 "a" contended

-- Behind the removal a third thread takes the name.
abbrev taken_over : System
taken_over = record { map = store_new "a" removed.map; pc = update removed.pc 2 (holding "a") }

taken_over-reached : Reach true removed taken_over
unfolding lookup insert erase string_eq ℕ_discrete
taken_over-reached = later here (pick 2 (lock_new "a" refl))

mutual_exclusion_example : ◌≡◌ {A = ℕ} 0 0
unfolding ℕ_discrete
mutual_exclusion_example = mutual_exclusion contended-reached 0 0 "a" refl refl

removal_strands_waiter_example : Reach true contended taken_over × (taken_over.pc 1 ≡ waiting "a" 0)
unfolding ℕ_discrete
removal_strands_waiter_example =
    removal_strands_waiter contended-reached 0 1 "a" 0 refl refl taken_over-reached
