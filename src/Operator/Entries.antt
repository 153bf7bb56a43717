-- ===== src/Operator/Entries.antt =====
-- What the control loop records of the deployments: `activeState` over the calls of `next`.
use transflect.Base.{
  ◌<◌, ◌≤◌, String, ◌≡◌, ◌⊎◌, inl, inr, Option-cases, Option, none, some, arith, nat_eq, string_eq,
  refl, List,
}
use transflect.Base.Dict
use transflect.Base.Dict.{lookup-insert, lookup-erase}
use transflect.Kube.{ReplicaSet}
use transflect.Replica.{ActiveEntry, deploy_key, new_active_entry}
use transflect.Replica.Ports.{grpc_port-le}
use transflect.Cluster.{Cluster}
use transflect.Upsert.{Config}
use transflect.MutexMap
use transflect.Operator.Rule.{Ends, next_rule, run_worker_rule}
use transflect.Operator.{
  State, Item, Lister, Ending, should_process, should_process_replicaset, process_replicaset,
  decide_and_process, locked_process, next, run_worker,
}

abbrev pub entry_of : {World : Type 0} → String → State World → Option ActiveEntry
entry_of key st = Dict.lookup key st.active_state

-- How the entry of a deployment may change from `old` to `new`: not at all, to one with a port and
-- with a revision that is not older, or away.
abbrev pub Evolves : Option ActiveEntry → Option ActiveEntry → Type 0
Evolves old none = Unit
Evolves none (some new) = (0 < new.grpc_port) × (new.grpc_port ≤ 65535)
Evolves (some old) (some new) =
    (old ≡ new) ⊎ (0 < new.grpc_port) × (new.grpc_port ≤ 65535) × (old.revision ≤ new.revision)

Evolves-refl : (e : Option ActiveEntry) → Evolves e e
Evolves-refl none = tt
Evolves-refl (some e) = inl refl

-- Every entry has a port.
abbrev pub HasPorts : {World : Type 0} → State World → Type 0
HasPorts st = (k : String) → Evolves none (entry_of k st)

Evolves-keeps-port :
    (old new : Option ActiveEntry) → Evolves old new → Evolves none old → Evolves none new
Evolves-keeps-port old none h p = tt
Evolves-keeps-port none (some new) h p = h
Evolves-keeps-port (some old) (some new) h p = ground arith

module _ (c : Cluster) (o : Config) where
  open c use {World}

  decide-Evolves :
      (rs : ReplicaSet) (key : String) (st : State World) (k : String)
      → Evolves (entry_of k st) (entry_of k (decide_and_process c o rs key st).1)
  unfolding decide_and_process process_replicaset should_process_replicaset should_process
      new_active_entry
  decide-Evolves rs key st k = ground (
    arith,
    lookup-insert k key (new_active_entry rs) st.active_state,
    lookup-erase k key st.active_state,
    grpc_port-le rs,
  )

  locked-Evolves :
      (rs : ReplicaSet) (st : State World) (k : String)
      → Ends c o Unit (λ st'. Evolves (entry_of k st) (entry_of k st')) (locked_process c o rs st)
  unfolding locked_process
  locked-Evolves rs st k = elim (Option-cases (MutexMap.lock (deploy_key rs) st.locker)) [
    | inl waits ↦ rw (waits, locked_process) tt
    | inr (locker, e) ↦
        rw (e, locked_process)
          (ground (arith, decide-Evolves rs (deploy_key rs) (record st { locker = locker }) k))
  ]

  -- Whatever item a call of `next` takes and however it ends, the entry of each deployment stays as
  -- it was, or goes, or becomes one whose port is between 1 and 65535 and whose revision is not
  -- older than that of the entry before it, if there was one.
  pub next-Evolves :
      (l : Lister World) (item : Item) (st : State World) (k : String)
      → Ends c o Unit (λ st'. Evolves (entry_of k st) (entry_of k st')) (next c o l item st)
  next-Evolves l item st k =
      next_rule c o l Unit _ st (λ _. Evolves-refl _) (λ rs. locked-Evolves rs st k) (λ s _ h. h)
        item

  HasPorts-end :
      {A : Type 0} (st : State World)
      → HasPorts st
      → (e : Ending c o A)
      → ((k : String) → Ends c o Unit (λ st'. Evolves (entry_of k st) (entry_of k st')) e)
      → Ends c o Unit HasPorts e
  HasPorts-end st h none evolves = tt
  HasPorts-end st h (some (r, st')) evolves = λ k. Evolves-keeps-port _ _ (evolves k) (h k)

  -- Where every entry has a port between 1 and 65535, the entries of a worker's state have one
  -- whenever it stops or waits for a further item: no entry is ever recorded without a port.
  pub run_worker-ports :
      (l : Lister World) (items : List Item) (st : State World)
      → HasPorts st
      → Ends c o Unit HasPorts (run_worker c o l items st)
  run_worker-ports l =
      run_worker_rule c o l Unit HasPorts
        λ item st h. HasPorts-end st h (next c o l item st) (next-Evolves l item st)
