-- ===== src/Tests/Control.antt =====
-- The control loop and the operations on the cluster.
use native.Mathlib.Decide.{ℕ_discrete}
use transflect.Base.{
  if◌then◌else◌, Option, String, ◌≤◌, ◌≡◌, ◌↔◌, refl, Bool, true, false, none, some, [], ◌∷◌, arith,
  string_eq, pos,
}
use transflect.Base.Dict
use transflect.Text.{atoi, split_commas, trim_space}
use transflect.Kube.{get}
use transflect.Replica.{
  ActiveEntry, grpc_port, grpc_port_str, deploy_revision, deploy_revision_str, not_ready,
  new_active_entry, get_deployment,
}
use transflect.Replica.Ports.{grpc_port_str_exact}
use transflect.Outcome.{Outcome, ok, err, panic, Error, api, wrap, other}
use transflect.Services.{filter_grpc_services, map_from_string}
use transflect.Services.Chosen.{filter_grpc_services_exact, listed}
use transflect.Filter.{envoy_filter_name}
use transflect.Upsert.{
  create_service, create_ingress, delete_filter, upsert_filter, transcode, upsert_envoy_filter,
}
use transflect.Base.Dict.{lookup-insert}
use mathlib.Core.Option.{map}
use transflect.Cluster.{is_ok}
use transflect.Upsert.Stored.{
  Content, content, IsStore, wanted, asked, is_some, upsert_filter-stores,
}
use transflect.Upsert.Cleanup.{service_deletions, ingress_deletions, upsert_filter-deletions}
use transflect.MutexMap.Sequential.{IsQuiet}
use transflect.Operator.{
  State, queued, should_process, should_process_replicaset, process_replicaset, next,
}
use transflect.Operator.Rule.{Ends}
use transflect.Operator.Decision.{
  Wanted, should_process_exact, processed_again, failed_delete_forgotten,
}
use transflect.Operator.Entries.{Evolves, entry_of, next-Evolves}
use transflect.Operator.Locks.{next-IsQuiet}
use transflect.Tests.Samples.{
  Stored, cluster, stuck_cluster, config, lister, no_port, with_port, session, state,
}

upsert_filter-deletions_example :
    let t = (upsert_filter cluster config with_port session).1 in
    (service_deletions t.calls ≡ ("shop", "cart-1") ∷ [])
    × (ingress_deletions t.calls ≡ ("shop", "cart-1") ∷ [])
unfolding create_service create_ingress
upsert_filter-deletions_example = upsert_filter-deletions cluster config with_port session

abbrev pub content_at : String → String → Stored → Option Content
content_at namespace name w = map content (Dict.lookup name w)

pub cluster-IsStore : IsStore cluster content_at
cluster-IsStore = record {
  created = λ namespace f w h. ground (arith, lookup-insert f.name f.name f w);
  updated = λ namespace f w h. ground (arith, lookup-insert f.name f.name f w);
  service_deleted = λ k n namespace name w. refl;
  ingress_deleted = λ k n namespace name w. refl;
}

with_port-upserted : is_ok (upsert_filter cluster config with_port session).0 ≡ true
unfolding upsert_filter grpc_port grpc_port_str atoi get Dict.lookup string_eq create_service
    create_ingress ℕ_discrete transcode filter_grpc_services map_from_string split_commas
    Dict.insert trim_space upsert_envoy_filter
with_port-upserted = refl

upsert_filter-stores_example :
    let s1 = (create_service cluster with_port session).1 in
    let goal =
      wanted cluster "transflect-1" with_port
        (asked cluster config with_port (create_ingress cluster with_port s1).1.world) in
    (content_at "shop"
        (envoy_filter_name with_port)
        (upsert_filter cluster config with_port session).1.world
      ≡ goal)
    × (is_some goal ≡ true)
upsert_filter-stores_example =
    upsert_filter-stores cluster content_at cluster-IsStore config with_port session
      with_port-upserted

abbrev pub first_entry : ActiveEntry
first_entry = record {
  revision = 3;
  grpc_port = 9090;
  exclude_services = "health, admin";
  include_services = "";
  http_path_prefix = "";
}

with_port-entry : new_active_entry with_port ≡ first_entry
unfolding new_active_entry grpc_port deploy_revision grpc_port_str deploy_revision_str atoi get
    Dict.lookup string_eq ℕ_discrete
with_port-entry = refl

next-Evolves_example :
    Ends cluster config Unit
      (λ st'. Evolves none (entry_of "shop/cart" st'))
      (next cluster config lister (queued "cart-1") state)
unfolding Dict.lookup
next-Evolves_example = next-Evolves cluster config lister (queued "cart-1") state "shop/cart"

pub state-IsQuiet : IsQuiet state.locker
unfolding Dict.lookup
state-IsQuiet = record { fresh = λ n m q. cc; apart = λ n k m q r. cc; marked = λ n m q. cc }

next-IsQuiet_example :
    (r : Outcome Bool) × (st' : State Stored) × (next cluster config lister (queued "cart-1") state
      ≡ some (r, st'))
    × IsQuiet st'.locker
next-IsQuiet_example = next-IsQuiet cluster config lister (queued "cart-1") state state-IsQuiet

should_process_exact_example :
    (should_process (some first_entry) with_port ≡ true)
    ↔ ((not_ready with_port ≡ false) × Wanted (some first_entry) with_port)
should_process_exact_example = should_process_exact (some first_entry) with_port

with_port-processed : (process_replicaset cluster config with_port "shop/cart" state).0 ≡ ok tt
unfolding process_replicaset grpc_port grpc_port_str atoi get Dict.lookup string_eq upsert_filter
    create_service create_ingress ℕ_discrete transcode filter_grpc_services map_from_string
    split_commas Dict.insert trim_space upsert_envoy_filter
with_port-processed = refl

processed_again_example :
    let (r, st') = process_replicaset cluster config with_port "shop/cart" state in
    should_process_replicaset with_port "shop/cart" st'
    ≡ (if is_ok r then false else should_process_replicaset with_port "shop/cart" state)
processed_again_example = processed_again cluster config with_port "shop/cart" state

filter_grpc_services_exact_example :
    filter_grpc_services ("shop.Cart" ∷ []) with_port
    ≡ panic "runtime error: makeslice: cap out of range"
unfolding get Dict.lookup string_eq listed split_commas trim_space ℕ_discrete
filter_grpc_services_exact_example = filter_grpc_services_exact ("shop.Cart" ∷ []) with_port

no_port-absent : grpc_port no_port ≡ 0
unfolding grpc_port grpc_port_str atoi get Dict.lookup string_eq
no_port-absent = refl

abbrev timeout : Error
timeout = wrap "cannot delete EnvoyFilter cart-transflect" (api (other "timeout"))

deletion_fails : (delete_filter stuck_cluster no_port state.session).0 ≡ err timeout
unfolding delete_filter envoy_filter_name string_eq get_deployment
deletion_fails = refl

failed_delete_forgotten_example :
    let (r, st') = process_replicaset stuck_cluster config no_port "shop/cart" state in
    (r ≡ ok tt) × (should_process_replicaset no_port "shop/cart" st' ≡ false)
failed_delete_forgotten_example =
    failed_delete_forgotten stuck_cluster config no_port no_port "shop/cart" state timeout
      no_port-absent no_port-absent deletion_fails

-- A deployment that had a port.
abbrev later_state : State Stored
later_state = record state { active_state = ("shop/cart", first_entry) ∷ [] }

grpc_port_str_exact_example :
    (grpc_port_str "9090" ≡ 9090) ↔ ((atoi "9090" ≡ some (pos 9090)) × (9090 ≤ 65535))
grpc_port_str_exact_example = grpc_port_str_exact "9090" 9090 (omega arith)
