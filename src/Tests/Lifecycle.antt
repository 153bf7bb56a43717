-- ===== src/Tests/Lifecycle.antt =====
-- A start with callers of its stop, before it and behind it.
use native.Mathlib.Decide.{ℕ_discrete}
use transflect.Base.{ℕ, ◌≡◌, refl, true, false, some, arith}
use transflect.Lifecycle.{
  opened, closed, running, syncing, spawning, serving, returned, awaits, done, State, move, make,
  started, spawned, ask, close, enter, go_on, Reach, here, later, init, worker_count, looks, checks,
  asks,
}
use transflect.Lifecycle.Closing.{is_inside, stop_safe}
use transflect.Lifecycle.Stopping.{stop_waits, stop_ends, spawning_of, Reach-trans}

abbrev at_work : State
at_work = record init { stopper = opened; queue = running; workers = worker_count; lead = serving }

at_work-reached : Reach init at_work
at_work-reached =
    let s1 : State = record init { stopper = opened; lead = syncing } in
    let s2 : State = record s1 { queue = running; lead = spawning worker_count } in
    later
      (Reach-trans (later (later here (make refl)) (started refl))
        (spawning_of worker_count worker_count s2 refl (omega arith)))
      (spawned refl)

stop_safe_example :
    ((i j : ℕ) → is_inside (at_work.caller i) ≡ true → is_inside (at_work.caller j) ≡ true → i ≡ j)
    × (at_work.crashed ≡ false)
stop_safe_example = stop_safe at_work-reached

-- Caller 3 has closed the stopper.
abbrev closing : State
closing =
    let s1 = move at_work 3 asks in
    let s2 : State = record (move s1 3 looks) { holder = some 3 } in
    let s3 = move s2 3 checks in record (move s3 3 awaits) { stopper = closed }

closing-reached : Reach at_work closing
unfolding ℕ_discrete
closing-reached =
    later (later (later (later here (ask 3 refl)) (enter 3 refl refl)) (go_on 3 refl (λ q. cc)))
      (close 3 refl refl)

closing-ends :
    (t : State) × Reach closing t × (t.caller 3 ≡ done) × (t.workers ≡ 0) × (t.lead ≡ returned)
unfolding ℕ_discrete
closing-ends = stop_ends closing 3 refl refl refl

stop_waits_example : closing-ends.0.workers ≡ 0
unfolding ℕ_discrete
stop_waits_example =
    stop_waits at_work-reached refl refl 3 refl (Reach-trans closing-reached closing-ends.1)
      closing-ends.2
