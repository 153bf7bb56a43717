-- ===== src/Election/Succession.antt =====
-- Steps of one operator of a fleet, from the lease to the start of its workers.
use mathlib.Core.Path.{subst}
use transflect.Base.{ℕ, zero, suc, ◌+◌, ◌≡◌, refl, ◌≢◌, Bool, none, some, arith, nat_eq}
use transflect.Lifecycle
use transflect.Lifecycle.{
  init, spawning, serving, make, started, spawn, spawned, opened, running, syncing, worker_count,
}
use transflect.Election.{
  candidate, leading, Member, Fleet, Permits, put, acquire, live, Reach, here, later,
}

pub Reach-trans : {b : Bool} {f g h : Fleet} → Reach b f g → Reach b g h → Reach b f h
Reach-trans r here = r
Reach-trans r (later q st) = later (Reach-trans r q) st

abbrev pub leads_with : Lifecycle.State → Member
leads_with s = record { standing = leading; life = s }

-- A fleet in which `j` leads with `s`, reached from `f` without a step of another.
pub record Gets (b : Bool) (f : Fleet) (j : ℕ) (s : Lifecycle.State) : Type 0 where
  pub fleet : Fleet
  pub reached : Reach b f fleet
  pub own : fleet.member j ≡ leads_with s
  pub leased : fleet.lease ≡ some j
  pub others : (k : ℕ) → j ≢ k → fleet.member k ≡ f.member k

pub acquires :
    {b : Bool} (f : Fleet) (j : ℕ)
    → (f.member j).standing ≡ candidate
    → f.lease ≡ none
    → Gets b f j (f.member j).life
acquires f j c free = record {
  fleet = record (put f j (leads_with (f.member j).life)) { lease = some j };
  reached = later here (acquire j c free);
  own = ground arith;
  leased = refl;
  others = λ k ne. ground arith;
}

module _ {b : Bool} {f : Fleet} {j : ℕ} where
  -- A step of the life cycle of `j`.
  pub goes_on :
      {s t : Lifecycle.State}
      → Gets b f j s
      → (st : Lifecycle.Step s t) → Permits (leads_with s) st
      → Gets b f j t
  goes_on {t} g st p = record {
    fleet = put g.fleet j (leads_with t);
    reached =
        subst
          (λ m.
            (st : Lifecycle.Step m.life t)
            → Permits m st
            → Reach b f (put g.fleet j (record m { life = t })))
          g.own (λ st p. later g.reached (live j st p)) st p;
    own = ground arith;
    leased = g.leased;
    others = λ k ne. ground (arith, g.others k);
  }

  -- The loop of `runWorkers`.
  spawns :
      (n k : ℕ) (s : Lifecycle.State)
      → s.lead ≡ spawning n
      → s.workers + n ≡ k
      → Gets b f j s
      → Gets b f j (record s { workers = k; lead = spawning 0 })
  spawns zero k s h e g = let e' : s.workers ≡ k = omega (arith, e) in rw (← e', ← h) g
  spawns (suc n) k s h e g =
      let s' : Lifecycle.State = record s { workers = s.workers + 1; lead = spawning n } in
      spawns n k s' refl (omega (arith, e)) (goes_on g (spawn h) tt)

-- A start of an operator that has just got the lease.
abbrev pub served : Lifecycle.State
served = record init { stopper = opened; queue = running; workers = worker_count; lead = serving }

pub serves :
    {b : Bool} (f : Fleet) (j : ℕ)
    → (f.member j).standing ≡ candidate
    → (f.member j).life ≡ init
    → f.lease ≡ none
    → Gets b f j served
serves {b} f j c new free =
    let s1 : Lifecycle.State = record init { stopper = opened; lead = syncing } in
    let s2 : Lifecycle.State = record s1 { queue = running; lead = spawning worker_count } in
    let g0 : Gets b f j init = rw (← new) (acquires f j c free) in
    let g2 : Gets b f j s2 = goes_on (goes_on g0 (make refl) refl) (started refl) tt in
    goes_on (spawns worker_count worker_count s2 refl refl g2) (spawned refl) tt
