-- ===== src/Operator/Accounts.antt =====
-- The counters of metrics.go over one call of `next`.
use transflect.Base.{
  ℕ, ◌+◌, String, ◌≡◌, Bool, true, false, arith, ◌==◌, nat_eq, if◌then◌else◌, not, ◌&&◌,
}
use transflect.Kube.{ReplicaSet}
use transflect.Replica.{grpc_port}
use transflect.Outcome.{Outcome, panic}
use transflect.Cluster.{Cluster, is_ok}
use transflect.Upsert.{Config, delete_filter, upsert_filter}
use transflect.Operator.{
  State, Counters, decide_and_process, process_replicaset, should_process_replicaset,
}

-- All that was counted of ReplicaSets that came to a decision.
abbrev pub decisions : Counters → ℕ
decisions n = n.upsert_success + n.upsert_error + n.delete_success + n.delete_error + n.ignored

abbrev pub is_panic : {A : Type 0} → Outcome A → Bool
is_panic (panic p) = true
is_panic _ = false

module _ (c : Cluster) (o : Config) where
  open c use {World}

  -- What one decision adds to the counters: nothing if it panics, two if the deletion of a filter
  -- fails, which is counted as an error and as a success, and one in every other case.
  pub decisions-decide :
      (rs : ReplicaSet) (key : String) (st : State World)
      → let (r, st') = decide_and_process c o rs key st in
        let wanted = should_process_replicaset rs key st in
        let lost = wanted && grpc_port rs == 0 && not (is_ok (delete_filter c rs st.session).0) in
        let broken =
          wanted && not (grpc_port rs == 0) && is_panic (upsert_filter c o rs st.session).0 in
        decisions st'.counters
        ≡ decisions st.counters + (if lost then 2 else if broken then 0 else 1)
  unfolding decide_and_process process_replicaset
  decisions-decide rs key st = ground arith
