-- ===== src/Upsert.antt =====
-- The operations on the cluster of cmd/transflect-operator/envoyfilter.go: temporary Services and
-- Ingresses, the EnvoyFilter, and `upsertFilter`, which puts them together.
pub mod Cleanup
pub mod Stored
use transflect.Base.{String, ◌<>◌, Bool, true, false, List, ◌∷◌, ◌==◌, string_eq, if◌then◌else◌}
use transflect.Kube.{ReplicaSet, get}
use transflect.Kube.Annotation
use transflect.Kube.Objects.{Service, Ingress, EnvoyFilter}
use transflect.Services.{filter_grpc_services}
use transflect.Filter.{
  DialOption, new_service, new_ingress, envoy_filter_name, new_envoy_filter, get_addr_opts,
}
use transflect.Outcome.{
  ApiError, already_exists, not_found, other, Outcome, ok, err, panic, Error, api, wrap, Exec, lift,
  wrapping, deferring, ◌>>=◌,
}
use transflect.Cluster.{
  Cluster, Reply, done, failed, Session, Kind, Verb, Call, request, inc, dec, is_ok,
}

-- The settings of the operator that are fixed at its start.
pub record Config : Type 0 where
  pub use_ingress : Bool
  pub plaintext : Bool
  pub address : String
  pub version : String
  pub http_path_prefix : String

module _ (c : Cluster) where
  open c use {World, Files}

  abbrev pub Action : Type 0 → Type 0
  Action = Exec (Session World)

  abbrev create_call : Service → Session World → Reply Service × Session World
  create_call service =
      request Verb.create Kind.service service.namespace service.name
        (c.services.create service.namespace service)

  -- The branch of `createService` for a Service that exists already.
  update_service : Service → Action Service
  update_service service s =
      let (found, s1) =
        request Verb.get Kind.service service.namespace service.name
          (c.services.get service.namespace service.name) s in
      elim found [
        | failed e ↦ (err (wrap "cannot get service to update" (api e)), s1)
        | done old ↦
            let service' = record service {
              resource_version = old.resource_version;
              cluster_ip = old.cluster_ip;
            } in
            let (updated, s2) =
              request Verb.update Kind.service service.namespace service.name
                (c.services.update service.namespace service') s1 in
            elim updated [
              | failed e ↦ (err (wrap "cannot update service" (api e)), s2)
              | done result ↦ (ok result, s2)
            ]
      ]

  unfoldable pub create_service : ReplicaSet → Action Service
  unfolding update_service new_service
  create_service rs s =
      let service = new_service rs in
      let (created, s1) = create_call service s in
      elim created [
        | done result ↦ (ok result, s1)
        | failed e ↦ elim e [
          | already_exists ↦ update_service service s1
          | not_found ↦ (err (wrap "cannot create service" (api not_found)), s1)
          | other text ↦ (err (wrap "cannot create service" (api (other text))), s1)
        ]
      ]

  -- The error of the call is logged, and goes no further.
  unfoldable pub delete_service : Service → Session World → Session World
  delete_service service s =
      let (_, s') =
        request Verb.delete Kind.service service.namespace service.name
          (c.services.delete service.namespace service.name) s in
      s'

  update_ingress : Ingress → Action Ingress
  update_ingress ingress s =
      let (found, s1) =
        request Verb.get Kind.ingress ingress.namespace ingress.name
          (c.ingresses.get ingress.namespace ingress.name) s in
      elim found [
        | failed e ↦ (err (wrap "Cannot get ingress to update" (api e)), s1)
        | done old ↦
            let ingress' = record ingress { resource_version = old.resource_version } in
            let (updated, s2) =
              request Verb.update Kind.ingress ingress.namespace ingress.name
                (c.ingresses.update ingress.namespace ingress') s1 in
            elim updated [
              | failed e ↦ (err (wrap "Cannot update ingress to update" (api e)), s2)
              | done result ↦ (ok result, s2)
            ]
      ]

  unfoldable pub create_ingress : ReplicaSet → Action Ingress
  unfolding update_ingress new_ingress
  create_ingress rs s =
      let ingress = new_ingress rs in
      let (created, s1) =
        request Verb.create Kind.ingress ingress.namespace ingress.name
          (c.ingresses.create ingress.namespace ingress) s in
      elim created [
        | done result ↦ (ok result, s1)
        | failed e ↦ elim e [
          | already_exists ↦ update_ingress ingress s1
          | not_found ↦ (err (wrap "cannot create ingress" (api not_found)), s1)
          | other text ↦ (err (wrap "cannot create ingress" (api (other text))), s1)
        ]
      ]

  unfoldable pub delete_ingress : Ingress → Session World → Session World
  delete_ingress ingress s =
      let (_, s') =
        request Verb.delete Kind.ingress ingress.namespace ingress.name
          (c.ingresses.delete ingress.namespace ingress.name) s in
      s'

  update_filter : EnvoyFilter → Action (Unit {0})
  update_filter filter s =
      let (found, s1) =
        request Verb.get Kind.filter filter.namespace filter.name
          (c.filters.get filter.namespace filter.name) s in
      elim found [
        | failed e ↦ (err (wrap "cannot get EnvoyFilter to update" (api e)), s1)
        | done old ↦
            let filter' = record filter { resource_version = old.resource_version } in
            let (updated, s2) =
              request Verb.update Kind.filter filter.namespace filter.name
                (c.filters.update filter.namespace filter') s1 in
            elim updated [
              | failed e ↦ (err (wrap "cannot Update envoyFilter" (api e)), s2)
              | done result ↦ (ok tt, s2)
            ]
      ]

  -- The gauge counts a new filter, and no update.
  write_filter : EnvoyFilter → Action (Unit {0})
  unfolding update_filter
  write_filter filter s =
      let (created, s1) =
        request Verb.create Kind.filter filter.namespace filter.name
          (c.filters.create filter.namespace filter) s in
      elim created [
        | done result ↦ (ok tt, record s1 { filters_gauge = inc s1.filters_gauge })
        | failed e ↦ elim e [
          | already_exists ↦ update_filter filter s1
          | not_found ↦ (err (wrap "cannot upsert EnvoyFilter" (api not_found)), s1)
          | other text ↦ (err (wrap "cannot upsert EnvoyFilter" (api (other text))), s1)
        ]
      ]

  unfoldable pub upsert_envoy_filter : String → ReplicaSet → Files → List String → Action (Unit {0})
  unfolding write_filter
  upsert_envoy_filter version rs fds services = do
    protoset_base64 ← wrapping "cannot encode proto FileDescriptorSet" (lift (c.base64_proto fds))
    write_filter (new_envoy_filter rs protoset_base64 services version)

  -- A filter that is not there counts as deleted.
  unfoldable pub delete_filter : ReplicaSet → Action (Unit {0})
  delete_filter rs s =
      let name = envoy_filter_name rs in
      let (deleted, s1) =
        request Verb.delete Kind.filter rs.namespace name (c.filters.delete rs.namespace name) s in
      let gone : Session World = record s1 { filters_gauge = dec s1.filters_gauge } in
      let failure = λ (e : ApiError). wrap ("cannot delete EnvoyFilter " <> name) (api e) in
      elim deleted [
        | done _ ↦ (ok tt, gone)
        | failed e ↦ elim e [
          | not_found ↦ (ok tt, gone)
          | already_exists ↦ (err (failure already_exists), s1)
          | other text ↦ (err (failure (other text)), s1)
        ]
      ]

  -- The call of pkg/transflect, logged under the address.
  query : String → String → List DialOption → Action (Files × List String)
  query address prefix options s =
      let (r, w) = c.get_file_descriptor_set address prefix options s.world in
      let entry : Call = record {
        verb = Verb.query;
        kind = Kind.reflection;
        namespace = "";
        name = address;
        succeeded = is_ok r;
      } in
      (r, record s { world = w; calls = entry ∷ s.calls })

  unfoldable pub path_prefix : Config → ReplicaSet → String
  path_prefix o rs =
      let prefix = get rs.annotations Annotation.http_prefix in
      if prefix == "" then o.http_path_prefix else prefix

  -- What `upsertFilter` does between the temporary objects.
  unfoldable pub transcode : Config → ReplicaSet → Action (Unit {0})
  unfolding query path_prefix
  transcode o rs = do
    let (address, options) = get_addr_opts o.use_ingress o.plaintext o.address rs
    (fds, services) ←
        wrapping ("cannot query Reflection API or create FileDescriptor for address " <> o.address)
          (query address (path_prefix o rs) options)
    chosen ← lift (filter_grpc_services services rs)
    wrapping "cannot upsert EnvoyFilter resource" (upsert_envoy_filter o.version rs fds chosen)

  behind_ingress : Config → ReplicaSet → Action (Unit {0})
  behind_ingress o rs = do
    ingress ← wrapping "cannot create Ingress" (create_ingress rs)
    deferring (delete_ingress ingress) (transcode o rs)

  unfoldable pub upsert_filter : Config → ReplicaSet → Action (Unit {0})
  unfolding behind_ingress
  upsert_filter o rs = do
    service ← wrapping "cannot create Service" (create_service rs)
    deferring (delete_service service)
        (if o.use_ingress then behind_ingress o rs else transcode o rs)
