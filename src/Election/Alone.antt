-- ===== src/Election/Alone.antt =====
-- Who has workers, as long as leaders give up their leases only behind a failed start.
use native.Mathlib.Decide.{ℕ_discrete}
use transflect.Base.{
  ℕ, ◌≡◌, ◌<◌, refl, ◌≢◌, Bool, true, false, Option, none, some, ◌⊎◌, inl, inr, sym, arith, nat_eq,
}
use transflect.MutexMap.{update}
use transflect.Lifecycle
use transflect.Lifecycle.{
  Lead, init, elected, syncing, spawning, serving, ending, returned, failed, done, make,
  start_failed, started, spawn, spawned, see_stop, shut, worker_ends, ask, enter, already, go_on,
  close, close_closed, skip, waited,
}
use transflect.Election.{
  Standing, leading, cancelled, released, gone, has_started, Member, Fleet, Permits, Step, acquire,
  live, cancel_failed, cancel_outer, withdraw, release, lapse, end, Reach, here, later, start,
}
use transflect.Election.Lives.{before_workers, Step-calm, Step-failed, Step-done, Step-unstarted}

-- It has the lease.
abbrev is_holding : Standing → Bool
is_holding leading = true
is_holding cancelled = true
is_holding _ = false

-- It had the lease, or is about to give it back.
abbrev pub is_over : Standing → Bool
is_over cancelled = true
is_over released = true
is_over gone = true
is_over _ = false

record Sound (lease : Option ℕ) (i : ℕ) (m : Member) : Type 0 where
  calm : before_workers m.life.lead ≡ true → m.life.workers ≡ 0
  holds : is_holding m.standing ≡ true → lease ≡ some i
  waits : has_started m.standing ≡ false → m.life.lead ≡ elected
  past : is_over m.standing ≡ true → m.life.lead ≡ failed
  stopped : is_over m.standing ≡ true → m.life.caller 0 ≡ done

abbrev Sounds : Fleet → Type 0
Sounds f = (i : ℕ) → Sound f.lease i (f.member i)

update_self : (g : ℕ → Member) (i : ℕ) (m : Member) → update g i m i ≡ m
update_self g i m = ground arith

update_other : (g : ℕ → Member) (i k : ℕ) (m : Member) → i ≢ k → update g i m k ≡ g k
update_other g i k m ne = ground arith

update-Sound :
    {l : Option ℕ} (g : ℕ → Member) (i : ℕ) (m : Member)
    → Sound l i m
    → ((k : ℕ) → i ≢ k → Sound l k (g k))
    → (k : ℕ) → Sound l k (update g i m k)
update-Sound g i m own others k = elim (ℕ_discrete i k) [
  | yes e ↦ rw (sym e, update_self g i m) own
  | no ne ↦ rw (update_other g i k m ne) (others k ne)
]

-- The others keep nothing of a lease that was `i`'s or nobody's.
drop-Sound :
    {l : Option ℕ} (l' : Option ℕ) (i k : ℕ) (m : Member)
    → (l ≡ none) ⊎ (l ≡ some i)
    → i ≢ k
    → Sound l k m
    → Sound l' k m
drop-Sound l' i k m was ne s = record {
  calm = s.calm;
  holds = λ h. ground (arith, s.holds h, was);
  waits = s.waits;
  past = s.past;
  stopped = s.stopped;
}

live-Sound :
    {l : Option ℕ} {i : ℕ} {m : Member}
    → Sound l i m
    → {t : Lifecycle.State} (st : Lifecycle.Step m.life t) → Permits m st
    → Sound l i (record m { life = t })
live-Sound {m} s st p = record {
  calm = Step-calm st s.calm;
  holds = s.holds;
  waits = λ h. Step-unstarted m st p h (s.waits h);
  past = λ h. Step-failed st (s.past h);
  stopped = λ h. Step-done 0 st (s.stopped h);
}

module _ {f : Fleet} (s : Sounds f) where
  Step-Sounds : {g : Fleet} → Step true f g → Sounds g
  Step-Sounds (acquire i c free) =
      update-Sound f.member i _
        (record {
          calm = (s i).calm;
          holds = λ h. refl;
          waits = λ h. cc;
          past = λ h. cc;
          stopped = λ h. cc;
        })
        (λ k ne. drop-Sound (some i) i k (f.member k) (inl free) ne (s k))
  Step-Sounds (live i st p) = update-Sound f.member i _ (live-Sound (s i) st p) (λ k ne. s k)
  Step-Sounds (cancel_failed i c failed_ returned_) =
      update-Sound f.member i _
        (record {
          calm = (s i).calm;
          holds = λ h. (s i).holds (ground arith);
          waits = λ h. cc;
          past = λ h. failed_;
          stopped = λ h. returned_;
        })
        (λ k ne. s k)
  Step-Sounds (withdraw i c) =
      update-Sound f.member i _
        (record {
          calm = (s i).calm;
          holds = λ h. cc;
          waits = λ h. (s i).waits (ground arith);
          past = λ h. cc;
          stopped = λ h. cc;
        })
        (λ k ne. s k)
  Step-Sounds (release i c) =
      update-Sound f.member i _
        (record {
          calm = (s i).calm;
          holds = λ h. cc;
          waits = λ h. cc;
          past = λ h. (s i).past (ground arith);
          stopped = λ h. (s i).stopped (ground arith);
        })
        (λ k ne. drop-Sound none i k (f.member k) (inr ((s i).holds (ground arith))) ne (s k))
  Step-Sounds (end i c _) =
      update-Sound f.member i _
        (record {
          calm = (s i).calm;
          holds = λ h. cc;
          waits = λ h. cc;
          past = λ h. (s i).past (ground arith);
          stopped = λ h. (s i).stopped (ground arith);
        })
        (λ k ne. s k)
  Step-Sounds (cancel_outer i abrupt _) = absurd (ground arith)
  Step-Sounds (lapse i abrupt _) = absurd (ground arith)

start-Sounds : Sounds start
start-Sounds i = record {
  calm = λ h. refl;
  holds = λ h. cc;
  waits = λ h. refl;
  past = λ h. cc;
  stopped = λ h. cc;
}

Reach-Sounds : {f g : Fleet} → Sounds f → Reach true f g → Sounds g
Reach-Sounds s here = s
Reach-Sounds s (later r st) = Step-Sounds (Reach-Sounds s r) st

-- Who has a worker has the lease.
Sound-lease : {l : Option ℕ} {i : ℕ} {m : Member} → Sound l i m → 0 < m.life.workers → l ≡ some i
Sound-lease {m} s pos = s.holds (ground (arith, s.calm, s.waits, s.past))

-- Any number of operators stand for one lease, and their steps and those of the election come in any
-- order. As long as no leader loses its lease, and no leader's context is cancelled but by its own
-- `OnStartedLeading` behind a failed start, workers run in at most one operator, which has the lease.
pub one_leader_works :
    {f : Fleet}
    → Reach true start f
    → (i j : ℕ) → 0 < (f.member i).life.workers
    → 0 < (f.member j).life.workers
    → (i ≡ j) × (f.lease ≡ some i)
one_leader_works r i j p q =
    let s = Reach-Sounds start-Sounds r in
    let a = Sound-lease (s i) p in let b = Sound-lease (s j) q in (cc, a)

-- As long as no leader loses its lease, and no leader's context is cancelled but by its own
-- `OnStartedLeading` behind a failed start, the lease is given back only behind the operator's own stop:
-- an operator that was leading and whose context has been cancelled, before and behind the release of
-- the lease, has failed in its start, its call of `stop` behind the failure has returned, and it has no
-- worker.
pub released_behind_stop :
    {f : Fleet}
    → Reach true start f
    → (i : ℕ) → is_over (f.member i).standing ≡ true
    → ((f.member i).life.lead ≡ failed)
      × ((f.member i).life.caller 0 ≡ done)
      × ((f.member i).life.workers ≡ 0)
released_behind_stop r i over =
    let s = Reach-Sounds start-Sounds r i in
    let p = s.past over in (p, s.stopped over, s.calm (ground arith))
