-- ===== src/Tests/Newest.antt =====
-- Three ReplicaSets of one deployment, out of order and one twice.
use native.Mathlib.Decide.{ℕ_discrete}
use transflect.Base.{
  ◌<◌, ◌≡◌, refl, String, Bool, true, false, List, [], ◌∷◌, map, arith, ◌==◌, ◌||◌, string_eq,
  if◌then◌else◌, inr, contains,
}
use transflect.Base.Dict
use transflect.Base.Dict.{lookup-insert}
use transflect.Text.{atoi, split_commas, trim_space}
use transflect.Kube.{ReplicaSet, get}
use transflect.Kube.Annotation
use transflect.Replica.{
  deploy_key, get_deployment_key, get_deployment, deploy_revision, deploy_revision_str, grpc_port,
  grpc_port_str, not_ready, should_enqueue,
}
use transflect.Services.{filter_grpc_services, map_from_string}
use transflect.Outcome.{Outcome, ok, err, message, not_found}
use transflect.Cluster.{Session, done, failed, is_ok}
use transflect.Upsert.{
  upsert_filter, create_service, create_ingress, transcode, upsert_envoy_filter,
}
use transflect.Operator.{Lister, queued, get_replicaset, run_worker}
use transflect.Operator.Newest.{IsCandidate}
use transflect.Operator.Handlers.{Object, replica_set, deployment, unknown, handle_all}
use transflect.Operator.Newest.Wins.{GoesOn}
use transflect.Operator.Newest.Informed.{OneOf, announced, IsListed, newest_announced}
use transflect.Tests.Samples.{Stored, cluster, config, state, no_port}
use transflect.Tests.Control.{content_at, cluster-IsStore, state-IsQuiet}

abbrev revision_text : String → String
revision_text k = if k == "cart-2" then "5" else "4"

abbrev rs_of : String → ReplicaSet
rs_of k = record no_port {
  name = k;
  annotations = (Annotation.revision, revision_text k) ∷ (Annotation.port, "9090") ∷ [];
}

-- The lister has two ReplicaSets, and nothing else.
abbrev lister : Lister Stored
lister = record {
  split_key = λ key. inr ("shop", key);
  replica_set = λ namespace name w.
      if name == "cart-1" || name == "cart-2" then done (rs_of name) else failed not_found;
}

abbrev Reads : String → Type 0
Reads k = (w : Stored) → get_replicaset cluster config lister k w ≡ ok (rs_of k)

cart_1-Reads : Reads "cart-1"
unfolding get_replicaset string_eq
cart_1-Reads w = refl

cart_2-Reads : Reads "cart-2"
unfolding get_replicaset string_eq
cart_2-Reads w = refl

abbrev keys : List String
keys = "cart-2" ∷ "cart-1" ∷ "cart-2" ∷ []

upserts :
    (k : String) (s : Session Stored) → is_ok (upsert_filter cluster config (rs_of k) s).0 ≡ true
unfolding upsert_filter grpc_port grpc_port_str atoi get Dict.lookup string_eq create_service
    create_ingress ℕ_discrete transcode filter_grpc_services map_from_string split_commas
    Dict.insert trim_space upsert_envoy_filter
upserts k s = ground arith

revised : (b : Bool) → 0 < deploy_revision_str (if b then "5" else "4")
unfolding deploy_revision_str atoi ℕ_discrete string_eq
revised true = omega arith
revised false = omega arith

candidate : (k : String) → IsCandidate "shop/cart" (rs_of k)
unfolding deploy_key get_deployment_key get_deployment string_eq not_ready grpc_port grpc_port_str
    deploy_revision deploy_revision_str atoi get Dict.lookup ℕ_discrete
candidate k = record {
  owned = refl;
  ready = refl;
  has_port = omega arith;
  has_revision = revised (k == "cart-2");
}

abbrev add : String → List String → List String
add k q = k ∷ q

abbrev key_func : Object → Outcome String
key_func (replica_set rs) = ok rs.name
key_func (deployment namespace name) = ok name
key_func unknown = err (message "object has no meta")

abbrev waits : String → List String → Bool
waits k q = contains q k

enqueued : (k : String) → should_enqueue (rs_of k) ≡ true
unfolding should_enqueue not_ready get_deployment_key get_deployment string_eq ℕ_discrete
enqueued k = refl

is_listed :
    (k : String)
    → Reads k
    → IsListed cluster config content_at cluster-IsStore "shop/cart" lister rs_of add key_func waits
        (λ k j q. refl)
        (rs_of k)
is_listed k has = record {
  candidate = candidate k;
  enqueued = enqueued k;
  listed = refl;
  reads = has;
  fine = upserts k;
}

delivered :
    (j : String)
    → contains keys j
      ≡ waits j (handle_all cluster config add key_func (announced (map rs_of keys)) ([], state)).0
unfolding handle_all should_enqueue not_ready get_deployment_key get_deployment string_eq ℕ_discrete
delivered j = refl

newest_announced_example :
    GoesOn cluster config content_at cluster-IsStore "shop/cart"
      (run_worker cluster config lister
        (map queued keys)
        (handle_all cluster config add key_func (announced (map rs_of keys)) ([], state)).1)
      (OneOf (map rs_of keys))
unfolding Dict.lookup
newest_announced_example =
    newest_announced cluster config content_at cluster-IsStore "shop/cart" lister rs_of add key_func
      waits (λ k j q. refl) (map rs_of keys) [] state "cart-2" ("cart-1" ∷ "cart-2" ∷ [])
      (
        is_listed "cart-2" cart_2-Reads,
        (is_listed "cart-1" cart_1-Reads, (is_listed "cart-2" cart_2-Reads, tt)),
      )
      (λ j. refl) state-IsQuiet refl delivered
