-- ===== src/Operator/Decision.antt =====
-- What `shouldProcessReplicaset` lets through, before and behind the processing.
use transflect.Base.{
  ◌<◌, ◌≤◌, String, ◌≡◌, refl, ◌⊎◌, inl, inr, if◌then◌else◌, ◌≢◌, ◌↔◌, true, false, Option, none,
  some, arith, nat_eq, string_eq,
}
use transflect.Base.Dict.{lookup-insert, lookup-erase}
use transflect.Kube.{ReplicaSet}
use transflect.Replica.{
  ActiveEntry, grpc_port, deploy_revision, not_ready, same_entry, new_active_entry,
}
use transflect.Outcome.{Outcome, ok, err, panic, Error}
use transflect.Cluster.{Cluster, is_ok}
use transflect.Upsert.{Config, delete_filter}
use transflect.Operator.{State, should_process, should_process_replicaset, process_replicaset}

pub same_entry_iff : (a b : ActiveEntry) → (same_entry a b ≡ true) ↔ (a ≡ b)
unfolding same_entry
same_entry_iff a b = (λ h. ground arith, λ h. ground arith)

-- What the entry of a deployment says for a ReplicaSet that wants to replace it.
pub record Supersedes (rs : ReplicaSet) (active : ActiveEntry) : Type 0 where
  pub revised : 0 < deploy_revision rs
  pub not_older : active.revision ≤ deploy_revision rs
  pub changed : active ≢ new_active_entry rs

-- When a ReplicaSet is wanted, by the entry of its deployment: without one, when it has a port.
abbrev pub Wanted : Option ActiveEntry → ReplicaSet → Type 0
Wanted none rs = 0 < grpc_port rs
Wanted (some active) rs = Supersedes rs active

supersedes :
    (rs : ReplicaSet) (active : ActiveEntry)
    → should_process (some active) rs ≡ true
    → Supersedes rs active
unfolding should_process
supersedes rs active h = record {
  revised = ground arith;
  not_older = ground arith;
  changed = λ e. ground (arith, same_entry_iff active (new_active_entry rs));
}

-- A ReplicaSet is processed exactly if it has a ready replica and is wanted: where its deployment
-- has no entry, if its port annotation names a port; where it has one, if its revision can be read,
-- is not older than that of the entry, and its own entry would differ from the one that is there.
pub should_process_exact :
    (found : Option ActiveEntry) (rs : ReplicaSet)
    → (should_process found rs ≡ true) ↔ ((not_ready rs ≡ false) × Wanted found rs)
unfolding should_process
should_process_exact none rs = (λ h. ground arith, λ h. ground arith)
should_process_exact (some active) rs =
    let same = same_entry_iff active (new_active_entry rs) in
    (λ h. (ground arith, supersedes rs active h), λ (ready, wanted). ground (arith, wanted.changed))

Outcome-cases : (r : Outcome (Unit {0})) → (r ≡ ok tt) ⊎ (is_ok r ≡ false)
Outcome-cases (ok x) = inl refl
Outcome-cases (err e) = inr refl
Outcome-cases (panic p) = inr refl

module _ (c : Cluster) (o : Config) where
  open c use {World}

  process-settles :
      (rs : ReplicaSet) (key : String) (st : State World)
      → (process_replicaset c o rs key st).0 ≡ ok tt
      → should_process_replicaset rs key (process_replicaset c o rs key st).1 ≡ false
  unfolding process_replicaset should_process_replicaset should_process new_active_entry
  process-settles rs key st h = ground (
    arith,
    lookup-insert key key (new_active_entry rs) st.active_state,
    lookup-erase key key st.active_state,
    same_entry_iff (new_active_entry rs) (new_active_entry rs),
  )

  failed-keeps :
      (rs : ReplicaSet) (key : String) (st : State World)
      → is_ok (process_replicaset c o rs key st).0 ≡ false
      → (process_replicaset c o rs key st).1.active_state ≡ st.active_state
  unfolding process_replicaset
  failed-keeps rs key st h = ground arith

  -- Behind the processing of a ReplicaSet, with what is then recorded, the same ReplicaSet is turned
  -- down where the processing had no error, and is decided as it was before where it ended with an
  -- error or a panic, so that it is processed again when it comes again.
  pub processed_again :
      (rs : ReplicaSet) (key : String) (st : State World)
      → let (r, st') = process_replicaset c o rs key st in
        should_process_replicaset rs key st'
        ≡ (if is_ok r then false else should_process_replicaset rs key st)
  unfolding should_process_replicaset
  processed_again rs key st = elim (Outcome-cases (process_replicaset c o rs key st).0) [
    | inl done ↦ rw done (process-settles rs key st done)
    | inr failed ↦ rw (failed, failed-keeps rs key st failed) refl
  ]

  -- A ReplicaSet with no port whose EnvoyFilter cannot be deleted counts as processed: there is no
  -- error, and with the state that is left no ReplicaSet of the deployment without a port is
  -- processed, so that none tries to delete the filter again.
  pub failed_delete_forgotten :
      (rs later : ReplicaSet) (key : String) (st : State World) (e : Error)
      → grpc_port rs ≡ 0
      → grpc_port later ≡ 0
      → (delete_filter c rs st.session).0 ≡ err e
      → let (r, st') = process_replicaset c o rs key st in
        (r ≡ ok tt) × (should_process_replicaset later key st' ≡ false)
  unfolding process_replicaset should_process_replicaset should_process
  failed_delete_forgotten rs later key st e h q failed =
      ground (arith, lookup-erase key key st.active_state)
