-- ===== src/Tests/Workers.antt =====
-- Several workers at once: one that records a ReplicaSet, and three that are in one another's way.
use native.Mathlib.Decide.{ℕ_discrete}
use transflect.Base.{
  ◌<◌, ◌≡◌, refl, Bool, true, false, none, some, [], ◌∷◌, arith, ◌==◌, string_eq, nat_eq,
}
use transflect.Base.Dict
use transflect.Base.Dict.{lookup}
use transflect.Text.{atoi}
use transflect.Kube.{ReplicaSet, get}
use transflect.Kube.Annotation
use transflect.Replica.{
  deploy_key, get_deployment_key, get_deployment, deploy_revision, deploy_revision_str, grpc_port,
  grpc_port_str, new_active_entry, not_ready, same_entry,
}
use transflect.Operator.{should_process}
use transflect.Operator.Workers.{
  Entries, deletes, stores, take, lock_new, choose_upsert, choose_delete, upserted, store, Shop,
  step_to, Step, pick, Reach, here, later, start, resting, wants, decides, upserts, leaves,
}
use transflect.Operator.Workers.Fresh.{decision_holds, Keeps, revisions_rise}
use transflect.Operator.Workers.Overtaken.{older_overtakes}
use transflect.MutexMap.{store_new}
use transflect.Tests.Samples.{no_port, with_port, Stored, cluster, config, lister, state}
use transflect.Outcome.{ok}
use transflect.MutexMap
use transflect.Services.{filter_grpc_services, map_from_string}
use transflect.Text.{split_commas, trim_space}
use transflect.Upsert.{
  upsert_filter, create_service, create_ingress, transcode, upsert_envoy_filter,
}
use transflect.Operator.{
  State, Ending, queued, not_text, run_worker, next, get_replicaset, locked_process,
  decide_and_process, should_process_replicaset, process_replicaset,
}
use transflect.Operator.Workers.Alone.{Leads}
use transflect.Operator.Workers.Rounds.{run_worker-Leads}
use transflect.Tests.Control.{first_entry}

with_port-key : deploy_key with_port ≡ "shop/cart"
unfolding deploy_key get_deployment_key get_deployment string_eq
with_port-key = refl

-- The first worker has decided for a ReplicaSet with a port, and stores it.
abbrev storing : Shop
storing =
    let s1 = step_to (start []) 0 (start []).locks [] (wants with_port) in
    let s2 = step_to s1 0 (store_new (deploy_key with_port) s1.locks) [] (decides with_port) in
    let s3 = step_to s2 0 s2.locks [] (upserts with_port) in
    step_to s3 0 s3.locks [] (stores with_port)

with_port-wanted : should_process none with_port ≡ true
unfolding should_process not_ready grpc_port grpc_port_str atoi get Dict.lookup string_eq ℕ_discrete
with_port-wanted = refl

with_port-port : (grpc_port with_port == 0) ≡ false
unfolding grpc_port grpc_port_str atoi get Dict.lookup string_eq ℕ_discrete
with_port-port = refl

storing-reached : Reach false (start []) storing
unfolding Dict.lookup ℕ_discrete
storing-reached =
    later
      (later (later (later here (pick 0 (take with_port))) (pick 0 (lock_new refl)))
        (pick 0 (choose_upsert with_port-wanted with_port-port)))
      (pick 0 upserted)

decision_holds_example : should_process (Dict.lookup (deploy_key with_port) []) with_port ≡ true
unfolding ℕ_discrete
decision_holds_example = decision_holds storing-reached 0 with_port refl

abbrev stored : Shop
stored =
    step_to storing 0 storing.locks
      (Dict.insert (deploy_key with_port) (new_active_entry with_port) storing.entries)
      (leaves with_port)

store-reached : Reach false storing stored
unfolding ℕ_discrete
store-reached = later here (pick 0 store)

revisions_rise_example :
    Keeps (Dict.lookup "shop/cart" storing.entries) (Dict.lookup "shop/cart" stored.entries)
revisions_rise_example = revisions_rise storing-reached store-reached "shop/cart"

abbrev newer_set : ReplicaSet
newer_set = record with_port {
  annotations = (Annotation.revision, "4") ∷ (Annotation.port, "9090") ∷ [];
}

-- A deployment with an entry, and a worker that is at the deletion of its filter.
abbrev entries : Entries
entries = ("shop/cart", first_entry) ∷ []

abbrev deleting : Shop
deleting =
    let s0 = start entries in
    let s1 = step_to s0 0 s0.locks entries (wants no_port) in
    let s2 = step_to s1 0 (store_new (deploy_key no_port) s1.locks) entries (decides no_port) in
    step_to s2 0 s2.locks entries (deletes no_port)

no_port-wanted : should_process (Dict.lookup (deploy_key no_port) entries) no_port ≡ true
unfolding deploy_key get_deployment_key get_deployment string_eq Dict.lookup should_process
    not_ready grpc_port grpc_port_str deploy_revision deploy_revision_str atoi get ℕ_discrete
    same_entry new_active_entry
no_port-wanted = refl

no_port-port : (grpc_port no_port == 0) ≡ true
unfolding grpc_port grpc_port_str atoi get Dict.lookup string_eq ℕ_discrete
no_port-port = refl

deleting-reached : Reach true (start entries) deleting
unfolding Dict.lookup ℕ_discrete
deleting-reached =
    later (later (later here (pick 0 (take no_port))) (pick 0 (lock_new refl)))
      (pick 0 (choose_delete no_port-wanted no_port-port refl))

newer_set-wanted : should_process none newer_set ≡ true
unfolding should_process not_ready grpc_port grpc_port_str atoi get Dict.lookup string_eq ℕ_discrete
newer_set-wanted = refl

newer_set-revision : deploy_revision with_port < deploy_revision newer_set
unfolding deploy_revision deploy_revision_str atoi get Dict.lookup string_eq ℕ_discrete
newer_set-revision = omega arith

older_overtakes_example :
    (t u : Shop) × Reach true (start entries) t
    × Step true t u
    × (Dict.lookup (deploy_key no_port) t.entries ≡ some (new_active_entry newer_set))
    × (Dict.lookup (deploy_key no_port) u.entries ≡ some (new_active_entry with_port))
    × (should_process (Dict.lookup (deploy_key no_port) t.entries) with_port ≡ false)
unfolding deploy_key get_deployment_key get_deployment ℕ_discrete
older_overtakes_example =
    older_overtakes deleting-reached 0 1 2 no_port with_port newer_set (omega arith) (omega arith)
      (omega arith) refl refl refl refl refl with_port-wanted newer_set-wanted newer_set-revision

-- A worker that gets one item and an item that is no text.
abbrev ending : Ending cluster config Bool
ending = run_worker cluster config lister (queued "cart-1" ∷ not_text ∷ []) state

abbrev behind : Ending cluster config Bool → State Stored
behind none = state
behind (some (r, st)) = st

ending-computed : ending ≡ some (ok true, behind ending)
unfolding run_worker next get_replicaset locked_process decide_and_process should_process_replicaset
    should_process process_replicaset not_ready deploy_key get_deployment_key get_deployment
    grpc_port grpc_port_str deploy_revision deploy_revision_str atoi get Dict.lookup string_eq
    upsert_filter create_service create_ingress ℕ_discrete transcode filter_grpc_services
    map_from_string split_commas Dict.insert trim_space upsert_envoy_filter new_active_entry
    MutexMap.lock MutexMap.unlock
ending-computed = refl

run_worker-Leads_example :
    Leads (start []) 2 (behind ending).locker (behind ending).active_state resting
run_worker-Leads_example =
    run_worker-Leads cluster config lister (start []) 2 (queued "cart-1" ∷ not_text ∷ []) state
      (behind ending) true refl refl refl ending-computed
