-- ===== src/Operator/Workers/Rounds.antt =====
-- `next` and `runWorker` run to their ends, as the steps of one worker while the others stay where
-- they are.
use mathlib.Core.Path.{subst}
use transflect.Base.{
  ℕ, String, ◌≡◌, ◌≢◌, refl, sym, ◌∙◌, Bool, true, false, none, some, List, [], ◌∷◌, nat_eq,
}
use transflect.Kube.{ReplicaSet}
use transflect.Outcome.{Outcome, ok, err, panic}
use transflect.Cluster.{Cluster}
use transflect.Upsert.{Config}
use transflect.MutexMap.{MutexMap}
use transflect.Operator.{
  State, Item, shutdown, queued, not_text, Lister, Ending, locked_process, get_replicaset, next,
  resume, finish, run_worker, proceed,
}
use transflect.Operator.Workers.{Entries, resting, take, Shop}
use transflect.Operator.Workers.Alone.{
  Does, nothing, also, Does-trans, Leads, Does-Leads, Does-locked,
}

module _ (c : Cluster) (o : Config) where
  open c use {World}

  -- The locks and the entries behind an ending.
  shared : {A : Type 0} → State World → Ending c o A → MutexMap × Entries
  shared st none = (st.locker, st.active_state)
  shared st (some (r, s)) = (s.locker, s.active_state)

  -- The worker went from its rest to its rest.
  Round : State World → MutexMap × Entries → Type 0
  Round st (l, e) = Does st.locker st.active_state resting l e resting

  module _ (l : Lister World) where
    finish-shared :
        (item : Item) (st : State World) (m : Ending c o (Unit {0}))
        → shared st (finish c o l item m) ≡ shared st m
    unfolding finish shared
    finish-shared item st none = refl
    finish-shared item st (some (ok x, s)) = refl
    finish-shared item st (some (err e, s)) = refl
    finish-shared item st (some (panic p, s)) = refl

    finish-calm :
        (item : Item) (st' : State World) (b : Bool) (m : Ending c o (Unit {0}))
        → finish c o l item m ≡ some (ok b, st')
        → (r : Outcome (Unit {0})) × (s : State World) × (m ≡ some (r, s))
          × ((p : String) → r ≢ panic p)
    unfolding finish
    finish-calm item st' b none e = cc
    finish-calm item st' b (some (ok x, s)) e = (ok x, s, refl, λ p k. cc)
    finish-calm item st' b (some (err x, s)) e = (err x, s, refl, λ p k. cc)
    finish-calm item st' b (some (panic x, s)) e = cc

    Round-locked :
        (item : Item) (rs : ReplicaSet) (st st' : State World) (b : Bool)
        → finish c o l item (locked_process c o rs st) ≡ some (ok b, st')
        → Round st (shared st (finish c o l item (locked_process c o rs st)))
    unfolding shared Round
    Round-locked item rs st st' b e =
        let (r, s, q, calm) = finish-calm item st' b (locked_process c o rs st) e in
        rw (finish-shared item st (locked_process c o rs st), q, shared)
          (Does-trans (also nothing (take rs)) (Does-locked c o rs r st s q calm))

    Round-next :
        (item : Item) (st st' : State World) (b : Bool)
        → next c o l item st ≡ some (ok b, st')
        → Round st (shared st (next c o l item st))
    unfolding next shared Round resume
    Round-next shutdown st st' b e = nothing
    Round-next not_text st st' b e = nothing
    Round-next (queued key) st st' b e = go (get_replicaset c o l key st.session.world) refl
      where
        go :
            (r : Outcome ReplicaSet)
            → get_replicaset c o l key st.session.world ≡ r
            → Round st (shared st (next c o l (queued key) st))
        go (ok rs) q =
            let run : next c o l (queued key) st
                ≡ finish c o l (queued key) (locked_process c o rs st) =
              rw (q, next, resume) refl in
            rw run (Round-locked (queued key) rs st st' b (sym run ∙ e))
        go (err x) q = rw (q, next, resume) nothing
        go (panic x) q = rw (q, next, resume) nothing

    Does-next :
        (item : Item) (st st' : State World) (b : Bool)
        → next c o l item st ≡ some (ok b, st')
        → Does st.locker st.active_state resting st'.locker st'.active_state resting
    unfolding Round shared
    Does-next item st st' b e = subst (λ x. Round st (shared st x)) e (Round-next item st st' b e)

    Does-run_worker :
        (items : List Item) (st st' : State World) (b : Bool)
        → run_worker c o l items st ≡ some (ok b, st')
        → Does st.locker st.active_state resting st'.locker st'.active_state resting
    unfolding run_worker proceed
    Does-run_worker [] st st' b e = let same : st ≡ st' = cc in rw (← same) nothing
    Does-run_worker (item ∷ items) st st' b e =
        go (next c o l item st) (λ s. Does-run_worker items s st' b) refl e
      where
        go :
            (m : Ending c o Bool)
            → ((s : State World)
                → run_worker c o l items s ≡ some (ok b, st')
                → Does s.locker s.active_state resting st'.locker st'.active_state resting)
            → next c o l item st ≡ m
            → proceed c o l (run_worker c o l items) m ≡ some (ok b, st')
            → Does st.locker st.active_state resting st'.locker st'.active_state resting
        go none rest q e' = cc
        go (some (err x, s)) rest q e' = cc
        go (some (panic p, s)) rest q e' = cc
        go (some (ok true, s)) rest q e' = Does-trans (Does-next item st s true q) (rest s e')
        go (some (ok false, s)) rest q e' =
            let same : s ≡ st' = cc in rw (← same) (Does-next item st s false q)

    -- A worker that gets through the items it is given with no other worker in between, and without a
    -- panic, takes a sequence of its own steps in the shop: from the locks and the entries that it
    -- found, steps of that worker and of no other, which are steps of the shop, lead to those that it
    -- leaves, and it rests again, while the others stay where they are.
    pub run_worker-Leads :
        (s : Shop) (i : ℕ) (items : List Item) (st st' : State World) (b : Bool)
        → s.work i ≡ resting
        → s.locks ≡ st.locker
        → s.entries ≡ st.active_state
        → run_worker c o l items st ≡ some (ok b, st')
        → Leads s i st'.locker st'.active_state resting
    run_worker-Leads s i items st st' b rest ql qe e =
        Does-Leads s i (rw (rest, ql, qe) (Does-run_worker items st st' b e))
