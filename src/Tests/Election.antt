-- ===== src/Tests/Election.antt =====
-- Two operators that stand for one lease.
use native.Mathlib.Decide.{ℕ_discrete}
use transflect.Base.{ℕ, ◌<◌, ◌≡◌, refl, ap, true, false, none, some, arith, nat_eq}
use transflect.Lifecycle
use transflect.Lifecycle.{
  init, opened, closed, failed, serving, worker_count, asks, looks, checks, awaits, done, make,
  start_failed, ask, enter, go_on, close, waited,
}
use transflect.Election.{
  Fleet, put, cancelled, released, cancel_failed, release, Reach, here, later, start,
}
use transflect.Election.Alone.{is_over, one_leader_works, released_behind_stop}
use transflect.Election.Succession.{
  Gets, leads_with, serves, served, goes_on, acquires, Reach-trans,
}
use transflect.Election.Overlap.{signal_overlaps}

-- Operator 0 has got the lease and serves, operator 1 waits.
led : Gets true start 0 served
led = serves start 0 refl refl refl

led-works : 0 < (led.fleet.member 0).life.workers
led-works =
    let q : (led.fleet.member 0).life.workers ≡ worker_count = ap (λ m. m.life.workers) led.own in
    ground arith

abbrev leader : ℕ
leader = 0

one_leader_works_example : (leader ≡ leader) × (led.fleet.lease ≡ some 0)
one_leader_works_example = one_leader_works led.reached 0 0 led-works led-works

abbrev two_members : Fleet
two_members = led.fleet

signal_overlaps_example :
    (g : Fleet) × Reach false two_members g
    × ((g.member 0).life ≡ (two_members.member 0).life)
    × (g.lease ≡ some 1)
    × ((g.member 1).life.lead ≡ serving)
    × ((g.member 1).life.workers ≡ worker_count)
signal_overlaps_example =
    signal_overlaps two_members 0 1 (λ e. ground arith) (ap (λ m. m.standing) led.own)
      (ap (λ m. m.standing) (led.others 1 (λ e. ground arith)))
      (ap (λ m. m.life) (led.others 1 (λ e. ground arith)))

-- Behind an error of `startLeading`.
abbrev failed_start : Lifecycle.State
failed_start = record init { stopper = opened; lead = failed }

-- The call of `stop` behind it, up to its return.
abbrev closing : Lifecycle.State
closing =
    let s1 = Lifecycle.move failed_start 0 asks in
    let s2 : Lifecycle.State = record (Lifecycle.move s1 0 looks) { holder = some 0 } in
    let s3 = Lifecycle.move s2 0 checks in record (Lifecycle.move s3 0 awaits) { stopper = closed }

abbrev stopped : Lifecycle.State
stopped = record (Lifecycle.move closing 0 done) { holder = none }

stops : {f : Fleet} → Gets true f 0 failed_start → Gets true f 0 stopped
unfolding ℕ_discrete
stops g =
    goes_on
      (goes_on
        (goes_on (goes_on (goes_on g (ask 0 refl) refl) (enter 0 refl refl) tt)
          (go_on 0 refl (λ q. cc)) tt)
        (close 0 refl refl) tt)
      (waited 0 refl refl) tt

-- Operator 0 has got the lease, and its start has failed.
led_failed : Gets true start 0 failed_start
led_failed = goes_on (goes_on (acquires start 0 refl refl) (make refl) refl) (start_failed refl) tt

-- It has stopped itself.
led_stopped : Gets true start 0 stopped
led_stopped = stops led_failed

-- The lease is given back behind it.
given_up :
    (f : Fleet)
    → f.member 0 ≡ leads_with stopped
    → (g : Fleet) × Reach true f g × ((g.member 0).standing ≡ released)
unfolding ℕ_discrete
given_up f m =
    let f1 = put f 0 (record (f.member 0) { standing = cancelled }) in
    (
      record (put f1 0 (record (f1.member 0) { standing = released })) { lease = none },
      later
          (later here (
            cancel_failed 0 (ap (λ x. x.standing) m) (ap (λ x. x.life.lead) m)
              (ap (λ x. x.life.caller 0) m)))
          (release 0 refl),
      refl,
    )

abbrev released_fleet :
    (g : Fleet) × Reach true led_stopped.fleet g × ((g.member 0).standing ≡ released)
released_fleet = given_up led_stopped.fleet led_stopped.own

released-over : is_over (released_fleet.0.member 0).standing ≡ true
released-over = ap is_over released_fleet.2

released_behind_stop_example :
    ((released_fleet.0.member 0).life.lead ≡ failed)
    × ((released_fleet.0.member 0).life.caller 0 ≡ done)
    × ((released_fleet.0.member 0).life.workers ≡ 0)
released_behind_stop_example =
    released_behind_stop (Reach-trans led_stopped.reached released_fleet.1) 0 released-over
