-- ===== src/Operator/Sync/Restart.antt =====
-- What an operator that restarts reads back from the EnvoyFilters that it wrote.
use transflect.Base.{
  ◌<◌, String, ◌≡◌, ◌≢◌, refl, false, not, ◌&&◌, some, List, arith, ◌==◌, nat_eq, string_eq,
}
use transflect.Base.Dict
use transflect.Kube.{ReplicaSet, get}
use transflect.Kube.Annotation
use transflect.Kube.Objects.{EnvoyFilter}
use transflect.Replica.{
  ActiveEntry, grpc_port, grpc_port_str, deploy_revision, deploy_revision_str, deploy_key,
  not_ready, new_active_entry, same_entry,
}
use transflect.Filter.{new_envoy_filter}
use transflect.Outcome.{ok}
use transflect.Operator.{should_process}
use transflect.Operator.Sync.{get_active_entry}

-- The entry read back: that of the ReplicaSet, with the three texts forgotten.
abbrev pub remembered : ReplicaSet → ActiveEntry
remembered rs = record (new_active_entry rs) {
  exclude_services = "";
  include_services = "";
  http_path_prefix = "";
}

module _ (rs : ReplicaSet) (protoset_base64 : String) (services : List String)
    (version : String) where
  abbrev written : EnvoyFilter
  written = new_envoy_filter rs protoset_base64 services version

  deployment-written : get written.annotations Annotation.deployment ≡ deploy_key rs
  unfolding new_envoy_filter get Dict.lookup string_eq
  deployment-written = refl

  port-written : grpc_port_str (get written.annotations Annotation.port) ≡ grpc_port rs
  unfolding new_envoy_filter get Dict.lookup string_eq grpc_port
  port-written = refl

  revision-written :
      deploy_revision_str (get written.annotations Annotation.revision) ≡ deploy_revision rs
  unfolding new_envoy_filter get Dict.lookup string_eq deploy_revision
  revision-written = refl

  -- From the EnvoyFilter written for a ReplicaSet with an owner, a port and a revision, a new leader
  -- reads back the key of its deployment, its port and its revision, and none of the three texts
  -- that choose services and the path prefix.
  pub get_active_entry-new_envoy_filter :
      deploy_key rs ≢ ""
      → 0 < grpc_port rs
      → 0 < deploy_revision rs
      → get_active_entry (new_envoy_filter rs protoset_base64 services version)
        ≡ ok (deploy_key rs, remembered rs)
  unfolding get_active_entry new_active_entry
  get_active_entry-new_envoy_filter named has_port has_revision =
      ground (arith, deployment-written, port-written, revision-written)

remembered-processed :
    (rs : ReplicaSet)
    → 0 < deploy_revision rs
    → not_ready rs ≡ false
    → should_process (some (remembered rs)) rs
      ≡ not (
          get rs.annotations Annotation.exclude == ""
          && get rs.annotations Annotation.include == ""
          && get rs.annotations Annotation.http_prefix == "")
unfolding should_process new_active_entry same_entry
remembered-processed rs has_revision ready = ground arith

-- A new leader reads an entry for the deployment back from the EnvoyFilter that was written for a
-- ready ReplicaSet with an owner, a port and a revision, whatever its descriptor set, its services and
-- the version. With that entry it passes over the unchanged ReplicaSet exactly if that has none of the
-- three annotations that choose services and the path prefix, or only empty ones; with any of them it
-- processes the ReplicaSet once more, though nothing about it has changed.
pub restart_reprocesses :
    (rs : ReplicaSet) (protoset_base64 : String) (services : List String) (version : String)
    → deploy_key rs ≢ ""
    → 0 < grpc_port rs
    → 0 < deploy_revision rs
    → not_ready rs ≡ false
    → (entry : ActiveEntry) × (get_active_entry
          (new_envoy_filter rs protoset_base64 services version)
        ≡ ok (deploy_key rs, entry))
      × (should_process (some entry) rs
          ≡ not (
              get rs.annotations Annotation.exclude == ""
              && get rs.annotations Annotation.include == ""
              && get rs.annotations Annotation.http_prefix == ""))
restart_reprocesses rs protoset_base64 services version owned has_port has_revision ready = (
  remembered rs,
  get_active_entry-new_envoy_filter rs protoset_base64 services version owned has_port has_revision,
  remembered-processed rs has_revision ready,
)
