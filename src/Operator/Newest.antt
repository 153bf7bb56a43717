-- ===== src/Operator/Newest.antt =====
-- The ReplicaSets of one deployment, worked off in any order by one worker.
pub mod Rounds
pub mod Wins
pub mod Informed
use transflect.Base.{
  ℕ, ◌<◌, ◌≤◌, String, ◌≡◌, refl, true, false, none, some, List, [], ◌∷◌, All, contains, arith,
  nat_eq, string_eq, Bool-cases, inl, inr, ◌==◌, ◌||◌,
}
use transflect.Base.Dict
use transflect.Base.Dict.{lookup-insert}
use transflect.Kube.{ReplicaSet}
use transflect.Replica.{
  ActiveEntry, grpc_port, deploy_revision, deploy_key, not_ready, new_active_entry, same_entry,
}
use transflect.Outcome.{Outcome, ok}
use transflect.Cluster.{Cluster, Session, is_ok}
use transflect.Filter.{envoy_filter_name}
use transflect.Upsert.{Config, create_service, create_ingress, upsert_filter}
use transflect.Upsert.Stored.{Content, IsStore, wanted, is_some, upsert_filter-stores}
use transflect.Operator.{
  State, should_process, should_process_replicaset, process_replicaset, decide_and_process,
}
use transflect.Operator.Decision.{Supersedes, should_process_exact, same_entry_iff}

-- A ready ReplicaSet of the deployment with a port and a revision.
pub record IsCandidate (key : String) (rs : ReplicaSet) : Type 0 where
  pub owned : deploy_key rs ≡ key
  pub ready : not_ready rs ≡ false
  pub has_port : 0 < grpc_port rs
  pub has_revision : 0 < deploy_revision rs

-- A candidate that is turned down is not newer than what the entry says.
pub turned_down-le :
    (active : ActiveEntry) (key : String) (rs : ReplicaSet)
    → IsCandidate key rs
    → should_process (some active) rs ≡ false
    → deploy_revision rs ≤ active.revision
unfolding should_process new_active_entry
turned_down-le active key rs h e =
    ground (arith, same_entry_iff active (new_active_entry rs), h.ready, h.has_revision)

module _ (c : Cluster) (o : Config) where
  open c use {World}

  pub decide-upserts :
      (rs : ReplicaSet) (key : String) (st : State World)
      → should_process_replicaset rs key st ≡ true
      → 0 < grpc_port rs
      → is_ok (upsert_filter c o rs st.session).0 ≡ true
      → let (r, st') = decide_and_process c o rs key st in
        (r ≡ ok tt)
        × (Dict.lookup key st'.active_state ≡ some (new_active_entry rs))
        × (st'.session ≡ (upsert_filter c o rs st.session).1)
  unfolding decide_and_process process_replicaset
  decide-upserts rs key st e port fine =
      ground (arith, lookup-insert key key (new_active_entry rs) st.active_state)

  pub decide-ignores :
      (rs : ReplicaSet) (key : String) (st : State World)
      → should_process_replicaset rs key st ≡ false
      → let (r, st') = decide_and_process c o rs key st in
        (r ≡ ok tt) × (st'.active_state ≡ st.active_state) × (st'.session ≡ st.session)
  unfolding decide_and_process
  decide-ignores rs key st e = ground arith
