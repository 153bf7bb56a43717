-- ===== src/Lifecycle/Stopping.antt =====
-- Whether a call of `stop` waits for the workers.
use transflect.Base.{
  ℕ, zero, suc, ◌+◌, ◌-◌, ◌≡◌, refl, ◌≢◌, Bool, true, false, Option, none, some, ◌⊎◌, inl, inr,
  arith, nat_eq,
}
use transflect.Lifecycle.{
  opened, closed, shut_down, Lead, spawning, serving, ending, returned, Caller, outside, asks,
  looks, checks, awaits, done, State, move, Step, make, start_failed, started, spawn, spawned,
  see_stop, shut, worker_ends, ask, enter, already, go_on, close, close_closed, skip, waited, Reach,
  here, later, init,
}
use transflect.Lifecycle.Closing.{Guarded, Step-Guarded, init-Guarded, Reach-Guarded}

-- `runWorkers` has returned.
abbrev pub has_spawned : Lead → Bool
has_spawned serving = true
has_spawned ending = true
has_spawned returned = true
has_spawned _ = false

-- Once the stopper is closed, no worker runs, or the caller that closed it still waits.
abbrev Drained : State → Type 0
Drained s = s.stopper ≡ closed → (s.workers ≡ 0) ⊎ (k : ℕ) × (s.caller k ≡ awaits)

record Watched (i : ℕ) (s : State) : Type 0 where
  guarded : Guarded s
  past : has_spawned s.lead ≡ true
  drained : Drained s
  finished : s.caller i ≡ done → s.workers ≡ 0

module _ {i : ℕ} {s : State} (w : Watched i s) where
  open w use {guarded, past, drained, finished}

  -- A caller that looks at a closed stopper is the only one inside.
  looks-drained : (j : ℕ) → s.caller j ≡ looks → s.stopper ≡ closed → s.workers ≡ 0
  looks-drained j at e = elim (drained e) [
    | inl z ↦ z
    | inr (k, waits) ↦ ground (arith, guarded.held j, guarded.held k)
  ]

  -- The waiting caller is still there behind the step of another that does not wait.
  others-Drained :
      (j : ℕ) (c : Caller) (h : Option ℕ)
      → s.caller j ≢ awaits
      → Drained (record (move s j c) { holder = h })
  others-Drained j c h other e = elim (drained e) [
    | inl z ↦ inl z
    | inr (k, waits) ↦ inr (k, ground (arith, other))
  ]

  Step-Drained : {t : State} → Step s t → Drained t
  Step-Drained (make e) = λ q. cc
  Step-Drained (start_failed e) = drained
  Step-Drained (started e) = drained
  Step-Drained (spawn e) = absurd (ground arith)
  Step-Drained (spawned e) = drained
  Step-Drained (see_stop e q) = drained
  Step-Drained (shut e) = drained
  Step-Drained (worker_ends e pos) =
      λ q. elim (drained q) [ inl z ↦ absurd (omega arith) | inr (k, waits) ↦ inr (k, waits) ]
  Step-Drained (ask j at) = others-Drained j asks s.holder (λ e. cc)
  Step-Drained (enter j at free) = others-Drained j looks (some j) (λ e. cc)
  Step-Drained (already j at e) = others-Drained j done none (λ e. cc)
  Step-Drained (go_on j at e) = others-Drained j checks s.holder (λ e. cc)
  Step-Drained (close j at e) = λ q. inr (j, ground arith)
  Step-Drained (close_closed j at e) = drained
  Step-Drained (skip j at e) = λ q. cc
  Step-Drained (waited j at z) = λ q. inl z

  Step-finished : {t : State} → Step s t → t.caller i ≡ done → t.workers ≡ 0
  Step-finished (spawn e) h = absurd (ground arith)
  Step-finished (worker_ends e pos) h = ground (arith, finished)
  Step-finished (already j at e) h = ground (arith, finished, looks-drained j at e)
  Step-finished (waited j at z) h = z
  Step-finished (ask j at) h = ground (arith, finished)
  Step-finished st h = ground (arith, finished)

  Step-past : {t : State} → Step s t → has_spawned t.lead ≡ true
  Step-past (make e) = ground arith
  Step-past (start_failed e) = ground arith
  Step-past (started e) = ground arith
  Step-past (spawn e) = ground arith
  Step-past st = ground arith

  Step-Watched : {t : State} → Step s t → Watched i t
  Step-Watched st = record {
    guarded = Step-Guarded st guarded;
    past = Step-past st;
    drained = Step-Drained st;
    finished = Step-finished st;
  }

Reach-Watched : {i : ℕ} {s t : State} → Watched i s → Reach s t → Watched i t
Reach-Watched w here = w
Reach-Watched w (later r st) = Step-Watched (Reach-Watched w r) st

-- Take any state with the workers started and the stopper still open. Every call of `stop` that
-- begins there or later returns only when no worker runs any more, whether it closes the stopper or
-- finds it closed by another caller, and no worker runs from then on.
pub stop_waits :
    {s t : State}
    → Reach init s
    → s.lead ≡ serving
    → s.stopper ≡ opened
    → (i : ℕ) → s.caller i ≡ outside
    → Reach s t
    → t.caller i ≡ done
    → t.workers ≡ 0
stop_waits {s} r lead open_still i at r' =
    let w : Watched i s = record {
      guarded = Reach-Guarded init-Guarded r;
      past = ground arith;
      drained = λ q. cc;
      finished = λ q. cc;
    } in
    (Reach-Watched w r').finished

pub Reach-trans : {s t u : State} → Reach s t → Reach t u → Reach s u
Reach-trans r here = r
Reach-trans r (later q st) = later (Reach-trans r q) st

-- The workers end one by one once the queue is shut down.
ending_of :
    (n : ℕ) (s : State) → s.workers ≡ n → s.queue ≡ shut_down → Reach s (record s { workers = 0 })
ending_of zero s h q = rw (← h) here
ending_of (suc n) s h q =
    let s' : State = record s { workers = s.workers - 1 } in
    Reach-trans (later here (worker_ends q (omega arith))) (ending_of n s' (omega arith) q)

-- A call of `stop` that has closed the stopper of workers that serve can always come to its end: the
-- start sees it, shuts the queue down, the workers end, and the call returns.
pub stop_ends :
    (s : State) (i : ℕ)
    → s.lead ≡ serving
    → s.stopper ≡ closed
    → s.caller i ≡ awaits
    → (t : State) × Reach s t × (t.caller i ≡ done) × (t.workers ≡ 0) × (t.lead ≡ returned)
stop_ends s i lead q at =
    let s1 : State = record s { lead = ending } in
    let s2 : State = record s { queue = shut_down; lead = returned } in
    let s3 : State = record s2 { workers = 0 } in
    let t : State = record (move s3 i done) { holder = none } in
    (
      t,
      later
          (Reach-trans (later (later here (see_stop lead q)) (shut refl))
            (ending_of s2.workers s2 refl refl))
          (waited i at refl),
      ground arith,
      refl,
      refl,
    )

-- The loop of `runWorkers`.
pub spawning_of :
    (n k : ℕ) (s : State)
    → s.lead ≡ spawning n
    → s.workers + n ≡ k
    → Reach s (record s { workers = k; lead = spawning 0 })
spawning_of zero k s h e = let e' : s.workers ≡ k = omega (arith, e) in rw (← e', ← h) here
spawning_of (suc n) k s h e =
    let s' : State = record s { workers = s.workers + 1; lead = spawning n } in
    Reach-trans (later here (spawn h)) (spawning_of n k s' refl (omega (arith, e)))
