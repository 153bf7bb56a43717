-- ===== src/Operator.antt =====
-- The control loop of cmd/transflect-operator/operator.go: the workers, `next`, which works
-- off one key of the queue, what it decides and records, and the handler for deleted Deployments.
pub mod Rule
pub mod Decision
pub mod Entries
pub mod Locks
pub mod Accounts
pub mod Sync
pub mod Newest
pub mod Handlers
pub mod Workers
use transflect.Base.{
  ℕ, suc, String, ◌<>◌, Bool, true, false, not, ◌&&◌, Option, none, some, List, [], ◌∷◌, ltb, ◌==◌,
  nat_eq, string_eq, if◌then◌else◌, ◌⊎◌, inl, inr,
}
use transflect.Base.Dict
use transflect.Base.Dict.{Dict}
use transflect.Kube.{ReplicaSet}
use transflect.Replica.{
  ActiveEntry, grpc_port, deploy_revision, deploy_key, not_ready, should_enqueue, same_entry,
  new_active_entry,
}
use transflect.Outcome.{Outcome, ok, err, panic, Error, api, wrap, wrapped, Exec}
use transflect.Cluster.{Cluster, Session, Reply, done, failed, is_ok}
use transflect.Upsert.{Config, delete_filter, upsert_filter}
use transflect.MutexMap
use transflect.MutexMap.{MutexMap}

-- The counters of metrics.go that the control loop moves; the four of `processedCounter` are named
-- by status and type.
pub record Counters : Type 0 where
  pub upsert_success : ℕ
  pub upsert_error : ℕ
  pub delete_success : ℕ
  pub delete_error : ℕ
  pub preprocess_error : ℕ
  pub ignored : ℕ

-- What `Get` of the work queue returns.
pub data Item : Type 0 where
  shutdown : Item
  queued : String → Item
  not_text : Item

-- The part of an operator that changes. `active_state` is the map of that name, `locker` is
-- `deploymentLocker`; `finished` has the items passed to the queue's `Done`, the latest first.
pub record State (World : Type 0) : Type 0 where
  pub session : Session World
  pub active_state : Dict String ActiveEntry
  pub locker : MutexMap
  pub counters : Counters
  pub finished : List Item

-- What client-go answers: `SplitMetaNamespaceKey`, and a lister's `Get` of a namespace and a name.
pub record Lister (World : Type 0) : Type 0 where
  pub split_key : String → Error ⊎ String × String
  pub replica_set : String → String → World → Reply ReplicaSet

decide_existing : ActiveEntry → ReplicaSet → Bool
decide_existing active rs =
    let revision = deploy_revision rs in
    if revision == 0
    then false
    else if ltb revision active.revision
    then false
    else if same_entry active (new_active_entry rs)
    then false
    else true

-- `shouldProcessReplicaset`, from what `activeState` holds of the deployment.
unfoldable pub should_process : Option ActiveEntry → ReplicaSet → Bool
unfolding decide_existing
should_process found rs = if not_ready rs then false else elim found [
  | some active ↦ decide_existing active rs
  | none ↦ if grpc_port rs == 0 then false else true
]

unfoldable pub should_process_replicaset :
    {World : Type 0} → ReplicaSet → String → State World → Bool
should_process_replicaset rs key st = should_process (Dict.lookup key st.active_state) rs

module _ (c : Cluster) (o : Config) where
  open c use {World}

  abbrev pub Action : Type 0 → Type 0
  Action = Exec (State World)

  -- The branch for a ReplicaSet with no port: the error of `deleteFilter` is counted, and then the
  -- entries go and a success is counted all the same.
  delete_replicaset : ReplicaSet → String → Action (Unit {0})
  delete_replicaset rs key st =
      let (deleted, session) = delete_filter c rs st.session in
      (
        ok tt,
        record st {
          session = session;
          active_state = Dict.erase key st.active_state;
          locker = MutexMap.remove key st.locker;
          counters = record st.counters {
            delete_error =
                if is_ok deleted then st.counters.delete_error else suc st.counters.delete_error;
            delete_success = suc st.counters.delete_success;
          };
        },
      )

  upsert_replicaset : ReplicaSet → String → Action (Unit {0})
  upsert_replicaset rs key st =
      let (upserted, session) = upsert_filter c o rs st.session in
      elim upserted [
        | ok _ ↦ (
          ok tt,
          record st {
            session = session;
            active_state = Dict.insert key (new_active_entry rs) st.active_state;
            counters = record st.counters { upsert_success = suc st.counters.upsert_success };
          },
        )
        | err e ↦ (
          err e,
          record st {
            session = session;
            counters = record st.counters { upsert_error = suc st.counters.upsert_error };
          },
        )
        | panic p ↦ (panic p, record st { session = session })
      ]

  unfoldable pub process_replicaset : ReplicaSet → String → Action (Unit {0})
  unfolding delete_replicaset upsert_replicaset
  process_replicaset rs key st =
      if grpc_port rs == 0 then delete_replicaset rs key st else upsert_replicaset rs key st

  count_preprocess_error : State World → State World
  count_preprocess_error st = record st {
    counters = record st.counters { preprocess_error = suc st.counters.preprocess_error };
  }

  count_ignored : State World → State World
  count_ignored st = record st {
    counters = record st.counters { ignored = suc st.counters.ignored };
  }

  -- The error of the processing is logged, and the worker goes on.
  unfoldable pub decide_and_process : ReplicaSet → String → Action (Unit {0})
  unfolding count_ignored
  decide_and_process rs key st =
      if should_process_replicaset rs key st
      then (let (processed, st') = process_replicaset rs key st in
          elim processed [ ok _ ↦ (ok tt, st') | err e ↦ (ok tt, st') | panic p ↦ (panic p, st') ])
      else (ok tt, count_ignored st)

  -- The deferred `Unlock`, behind a return and behind a panic. An `Unlock` of an unlocked mutex ends
  -- the Go process at once; it counts as a panic here, and what is done behind it is of no effect.
  unlock_after : String → Outcome (Unit {0}) × State World → Outcome (Unit {0}) × State World
  unlock_after key (r, st) =
      let (unlocked, locker) = MutexMap.unlock key st.locker in
      let st' : State World = record st { locker = locker } in
      elim unlocked [ ok _ ↦ (r, st') | err e ↦ (r, st') | panic p ↦ (panic p, st') ]

  -- What a worker does ends in an outcome and a state; `none` is a worker that waits for a mutex.
  abbrev pub Ending : Type 0 → Type 0
  Ending A = Option (Outcome A × State World)

  -- From `Lock` to the deferred `Unlock`.
  unfoldable pub locked_process : ReplicaSet → State World → Ending (Unit {0})
  unfolding unlock_after
  locked_process rs st =
      let key = deploy_key rs in
      elim (MutexMap.lock key st.locker) [
        | none ↦ none
        | some locker ↦
            some (unlock_after key (decide_and_process rs key (record st { locker = locker })))
      ]

  module _ (l : Lister World) where
    unfoldable pub get_replicaset : String → World → Outcome ReplicaSet
    get_replicaset rs_key w = elim (l.split_key rs_key) [
      | inl e ↦ err (wrap "invalid key format" e)
      | inr (namespace, name) ↦ elim (l.replica_set namespace name w) [
        | done rs ↦ ok rs
        | failed e ↦ err (wrap ("cannot GET replicaset " <> name) (api e))
      ]
    ]

    resume : Outcome ReplicaSet → State World → Ending (Unit {0})
    unfolding count_preprocess_error
    resume (ok rs) st = locked_process rs st
    resume (err e) st = some (ok tt, count_preprocess_error st)
    resume (panic p) st = some (panic p, st)

    -- `defer o.queue.Done(key)`
    finish : Item → Ending (Unit {0}) → Ending Bool
    finish item none = none
    finish item (some (ok x, st)) = some (ok true, record st { finished = item ∷ st.finished })
    finish item (some (err e, st)) = some (ok true, record st { finished = item ∷ st.finished })
    finish item (some (panic p, st)) = some (panic p, record st { finished = item ∷ st.finished })

    -- The result says whether the worker goes on.
    unfoldable pub next : Item → State World → Ending Bool
    unfolding resume finish count_preprocess_error
    next shutdown st = some (ok false, st)
    next not_text st = finish not_text (some (ok tt, count_preprocess_error st))
    next (queued rs_key) st =
        finish (queued rs_key) (resume (get_replicaset rs_key st.session.world) st)

    -- The test of the loop in `runWorker`.
    proceed : (State World → Ending Bool) → Ending Bool → Ending Bool
    proceed rest none = none
    proceed rest (some (ok true, st)) = rest st
    proceed rest (some (ok false, st)) = some (ok false, st)
    proceed rest (some (err e, st)) = some (err e, st)
    proceed rest (some (panic p, st)) = some (panic p, st)

    -- A worker, over the items that `Get` hands to it, up to the first call of `next` that tells it
    -- to stop. The result says whether it goes on to wait for a further item.
    unfoldable pub run_worker : List Item → State World → Ending Bool
    unfolding proceed
    run_worker [] st = some (ok true, st)
    run_worker (item ∷ items) st = proceed (run_worker items) (next item st)

  -- The handler for a deleted Deployment, from `MetaNamespaceKeyFunc` of it.
  unfoldable pub cleanup_deployment : Option String → State World → State World
  cleanup_deployment none st = st
  cleanup_deployment (some key) st = record st {
    active_state = Dict.erase key st.active_state;
    locker = MutexMap.remove key st.locker;
  }
