-- ===== src/Operator/Locks.antt =====
-- The deployment lock over one call of `next` with no other worker in between.
use transflect.Base.{String, ◌≡◌, refl, Bool, none, some, arith, ◌⊎◌, inl, inr}
use transflect.Kube.{ReplicaSet}
use transflect.Replica.{deploy_key}
use transflect.Outcome.{Outcome}
use transflect.Cluster.{Cluster}
use transflect.Upsert.{Config}
use transflect.MutexMap
use transflect.MutexMap.{MutexMap}
use transflect.MutexMap.Sequential.{IsQuiet, IsHeld, lock-IsHeld, remove-IsHeld, unlock-IsQuiet}
use transflect.Operator.Rule.{Ends, next_rule}
use transflect.Operator.{
  State, Item, Lister, Ending, decide_and_process, process_replicaset, locked_process, next,
}

module _ (c : Cluster) (o : Config) where
  open c use {World}

  -- The processing leaves the locks alone or removes the entry of the deployment.
  locker-decide :
      (rs : ReplicaSet) (key : String) (st : State World)
      → let after = (decide_and_process c o rs key st).1.locker in
        (after ≡ st.locker) ⊎ (after ≡ MutexMap.remove key st.locker)
  unfolding decide_and_process process_replicaset
  locker-decide rs key st = ground arith

  decide-IsHeld :
      (rs : ReplicaSet) (key : String) (st : State World)
      → IsHeld key st.locker
      → IsHeld key (decide_and_process c o rs key st).1.locker
  decide-IsHeld rs key st held = elim (locker-decide rs key st) [
    | inl same ↦ rw same held
    | inr removed ↦ rw removed (remove-IsHeld key held)
  ]

  -- Under the lock of its deployment, and with no other lock taken, a ReplicaSet is processed
  -- without waiting; the outcome is that of the decision and the processing, not touched by the
  -- deferred `Unlock`; and no lock stays taken, also behind a panic and where the entry was removed.
  pub locked_process-IsQuiet :
      (rs : ReplicaSet) (st : State World)
      → IsQuiet st.locker
      → (locker : MutexMap) × (MutexMap.lock (deploy_key rs) st.locker ≡ some locker)
        × (let (r, st1) =
              decide_and_process c o rs (deploy_key rs) (record st { locker = locker }) in
            let locker' = (MutexMap.unlock (deploy_key rs) st1.locker).1 in
            (locked_process c o rs st ≡ some (r, record st1 { locker = locker' }))
            × IsQuiet locker')
  unfolding locked_process
  locked_process-IsQuiet rs st quiet =
      let (locker, acquired, held) = lock-IsHeld (deploy_key rs) quiet in
      let st1 : State World = record st { locker = locker } in
      let (unlocked, free) =
        unlock-IsQuiet (deploy_key rs) (decide-IsHeld rs (deploy_key rs) st1 held) in
      (locker, acquired, (ground arith, free))

  next-Ends :
      (l : Lister World) (item : Item) (st : State World)
      → IsQuiet st.locker
      → Ends c o ⊥ (λ st'. IsQuiet st'.locker) (next c o l item st)
  next-Ends l item st quiet =
      next_rule c o l ⊥ _ st (λ _. quiet)
        (λ rs.
          let (locker, acquired, (ending, free)) = locked_process-IsQuiet rs st quiet in
          rw ending free)
        (λ s _ h. h) item

  -- A worker that meets no lock taken gets through any item without waiting, and leaves no lock
  -- taken, however the item ends.
  pub next-IsQuiet :
      (l : Lister World) (item : Item) (st : State World)
      → IsQuiet st.locker
      → (r : Outcome Bool) × (st' : State World) × (next c o l item st ≡ some (r, st'))
        × IsQuiet st'.locker
  next-IsQuiet l item st quiet = go (next c o l item st) (next-Ends l item st quiet)
    where
      go :
          (e : Ending c o Bool)
          → Ends c o ⊥ (λ st'. IsQuiet st'.locker) e
          → (r : Outcome Bool) × (st' : State World) × (e ≡ some (r, st')) × IsQuiet st'.locker
      go none waits = absurd waits
      go (some (r, st')) free = (r, st', refl, free)
