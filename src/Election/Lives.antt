-- ===== src/Election/Lives.antt =====
-- What a step of the life cycle of one operator keeps, with or without an election.
use transflect.Base.{ℕ, ◌≡◌, refl, Bool, true, false, arith, nat_eq}
use transflect.Lifecycle
use transflect.Lifecycle.{
  Lead, init, elected, syncing, spawning, serving, ending, returned, failed, done, make,
  start_failed, started, spawn, spawned, see_stop, shut, worker_ends, ask, enter, already, go_on,
  close, close_closed, skip, waited,
}
use transflect.Election.{has_started, Member, Permits}

-- `startLeading` has not come to its workers, or never will.
abbrev pub before_workers : Lead → Bool
before_workers elected = true
before_workers syncing = true
before_workers failed = true
before_workers _ = false

pub Step-calm :
    {s t : Lifecycle.State}
    → Lifecycle.Step s t
    → (before_workers s.lead ≡ true → s.workers ≡ 0)
    → before_workers t.lead ≡ true
    → t.workers ≡ 0
Step-calm (make h) calm q = calm (ground arith)
Step-calm (start_failed h) calm q = calm (ground arith)
Step-calm (started h) calm q = cc
Step-calm (spawn h) calm q = cc
Step-calm (spawned h) calm q = cc
Step-calm (see_stop h k) calm q = cc
Step-calm (shut h) calm q = cc
Step-calm (worker_ends h k) calm q = absurd (omega (arith, calm q))
Step-calm (ask i h) calm q = calm q
Step-calm (enter i h k) calm q = calm q
Step-calm (already i h k) calm q = calm q
Step-calm (go_on i h k) calm q = calm q
Step-calm (close i h k) calm q = calm q
Step-calm (close_closed i h k) calm q = calm q
Step-calm (skip i h k) calm q = calm q
Step-calm (waited i h k) calm q = calm q

pub Step-failed : {s t : Lifecycle.State} → Lifecycle.Step s t → s.lead ≡ failed → t.lead ≡ failed
Step-failed (make h) q = cc
Step-failed (start_failed h) q = refl
Step-failed (started h) q = cc
Step-failed (spawn h) q = cc
Step-failed (spawned h) q = cc
Step-failed (see_stop h k) q = cc
Step-failed (shut h) q = cc
Step-failed (worker_ends h k) q = q
Step-failed (ask i h) q = q
Step-failed (enter i h k) q = q
Step-failed (already i h k) q = q
Step-failed (go_on i h k) q = q
Step-failed (close i h k) q = q
Step-failed (close_closed i h k) q = q
Step-failed (skip i h k) q = q
Step-failed (waited i h k) q = q

-- A call of `stop` that has returned has returned.
pub Step-done :
    {s t : Lifecycle.State} (i : ℕ) → Lifecycle.Step s t → s.caller i ≡ done → t.caller i ≡ done
Step-done i (make h) q = q
Step-done i (start_failed h) q = q
Step-done i (started h) q = q
Step-done i (spawn h) q = q
Step-done i (spawned h) q = q
Step-done i (see_stop h k) q = q
Step-done i (shut h) q = q
Step-done i (worker_ends h k) q = q
Step-done i (ask j h) q = ground arith
Step-done i (enter j h k) q = ground arith
Step-done i (already j h k) q = ground arith
Step-done i (go_on j h k) q = ground arith
Step-done i (close j h k) q = ground arith
Step-done i (close_closed j h k) q = q
Step-done i (skip j h k) q = ground arith
Step-done i (waited j h k) q = ground arith

-- Without a call of `OnStartedLeading` nothing starts.
pub Step-unstarted :
    {s t : Lifecycle.State} (m : Member) (st : Lifecycle.Step s t)
    → Permits m st
    → has_started m.standing ≡ false
    → s.lead ≡ elected
    → t.lead ≡ elected
Step-unstarted m (make h) p c q = cc
Step-unstarted m (start_failed h) p c q = cc
Step-unstarted m (started h) p c q = cc
Step-unstarted m (spawn h) p c q = cc
Step-unstarted m (spawned h) p c q = cc
Step-unstarted m (see_stop h k) p c q = cc
Step-unstarted m (shut h) p c q = cc
Step-unstarted m (worker_ends h k) p c q = q
Step-unstarted m (ask i h) p c q = q
Step-unstarted m (enter i h k) p c q = q
Step-unstarted m (already i h k) p c q = q
Step-unstarted m (go_on i h k) p c q = q
Step-unstarted m (close i h k) p c q = q
Step-unstarted m (close_closed i h k) p c q = q
Step-unstarted m (skip i h k) p c q = q
Step-unstarted m (waited i h k) p c q = q
