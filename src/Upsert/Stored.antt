-- ===== src/Upsert/Stored.antt =====
-- What a successful upsert leaves in the cluster.
pub mod Joined
use transflect.Base.{
  String, ◌≡◌, refl, Bool, true, false, Option, none, some, List, arith, if◌then◌else◌, string_eq,
  nat_eq,
}
use transflect.Base.Dict.{Dict}
use transflect.Kube.{ReplicaSet}
use transflect.Kube.Objects.{EnvoyFilter, ConfigPatch}
use transflect.Services.{filter_grpc_services}
use transflect.Filter.{new_envoy_filter, envoy_filter_name, get_addr_opts}
use transflect.Outcome.{Outcome, ok, err, panic}
use transflect.Cluster.{Cluster, Session, is_ok, is_done}
use transflect.Upsert.{
  Config, create_service, delete_service, create_ingress, delete_ingress, upsert_envoy_filter,
  write_filter, path_prefix, transcode, behind_ingress, upsert_filter,
}

-- What the operator writes of an EnvoyFilter, without the version that the API server gives it.
pub record Content : Type 0 where
  pub labels : Dict String String
  pub annotations : Dict String String
  pub workload_selector : Dict String String
  pub config_patches : List ConfigPatch

abbrev pub content : EnvoyFilter → Content
content f = record {
  labels = f.labels;
  annotations = f.annotations;
  workload_selector = f.workload_selector;
  config_patches = f.config_patches;
}

abbrev pub is_some : Option Content → Bool
is_some none = false
is_some (some x) = true

module _ (c : Cluster) where
  open c use {World, Files}

  -- Of an API server that keeps the EnvoyFilters that it takes in, by namespace and name, whatever is
  -- done to the temporary objects.
  pub record IsStore (stored : String → String → World → Option Content) : Type 0 where
    pub created :
        (namespace : String) (f : EnvoyFilter) (w : World)
        → is_done (c.filters.create namespace f w).0 ≡ true
        → stored namespace f.name (c.filters.create namespace f w).1 ≡ some (content f)
    pub updated :
        (namespace : String) (f : EnvoyFilter) (w : World)
        → is_done (c.filters.update namespace f w).0 ≡ true
        → stored namespace f.name (c.filters.update namespace f w).1 ≡ some (content f)
    pub service_deleted :
        (k n namespace name : String) (w : World)
        → stored k n (c.services.delete namespace name w).1 ≡ stored k n w
    pub ingress_deleted :
        (k n namespace name : String) (w : World)
        → stored k n (c.ingresses.delete namespace name w).1 ≡ stored k n w

  -- What is to be stored for a ReplicaSet, by the answer of its server.
  pub wanted : String → ReplicaSet → Outcome (Files × List String) → Option Content
  wanted version rs (ok (files, services)) = elim (filter_grpc_services services rs) [
    | ok chosen ↦ elim (c.base64_proto files) [
      | ok text ↦ some (content (new_envoy_filter rs text chosen version))
      | err e ↦ none
      | panic p ↦ none
    ]
    | err e ↦ none
    | panic p ↦ none
  ]
  wanted version rs (err e) = none
  wanted version rs (panic p) = none

  -- The answer of the server of a ReplicaSet, asked in a world.
  pub asked : Config → ReplicaSet → World → Outcome (Files × List String)
  unfolding path_prefix
  asked o rs w =
      let (address, options) = get_addr_opts o.use_ingress o.plaintext o.address rs in
      (c.get_file_descriptor_set address (path_prefix c o rs) options w).0

  module _ (stored : String → String → World → Option Content) (store : IsStore stored) where
    open store use {created, updated, service_deleted, ingress_deleted}

    write_filter-stores :
        (f : EnvoyFilter) (s : Session World)
        → is_ok (write_filter c f s).0 ≡ true
        → stored f.namespace f.name (write_filter c f s).1.world ≡ some (content f)
    unfolding write_filter
    write_filter-stores f s h =
        let (r, w) = c.filters.create f.namespace f s.world in
        let (found, w1) = c.filters.get f.namespace f.name w in grind (arith, created, updated)

    transcode-stores :
        (o : Config) (rs : ReplicaSet) (s : Session World)
        → is_ok (transcode c o rs s).0 ≡ true
        → let goal = wanted o.version rs (asked o rs s.world) in
          (stored rs.namespace (envoy_filter_name rs) (transcode c o rs s).1.world ≡ goal)
          × (is_some goal ≡ true)
    unfolding transcode upsert_envoy_filter wanted asked new_envoy_filter
    transcode-stores o rs s h = grind (arith, write_filter-stores)

    behind_ingress-stores :
        (o : Config) (rs : ReplicaSet) (s : Session World)
        → is_ok (behind_ingress c o rs s).0 ≡ true
        → let goal = wanted o.version rs (asked o rs (create_ingress c rs s).1.world) in
          (stored rs.namespace (envoy_filter_name rs) (behind_ingress c o rs s).1.world ≡ goal)
          × (is_some goal ≡ true)
    unfolding behind_ingress delete_ingress
    behind_ingress-stores o rs s h = grind (arith, transcode-stores, ingress_deleted)

    -- After an upsert without an error, on an API server that keeps what it takes in, the cluster has
    -- the EnvoyFilter of the ReplicaSet with what is wanted by the answer of its gRPC server, asked
    -- behind the creation of the temporary objects: its descriptors, and those of its services that
    -- the annotations choose.
    pub upsert_filter-stores :
        (o : Config) (rs : ReplicaSet) (s : Session World)
        → is_ok (upsert_filter c o rs s).0 ≡ true
        → let s1 = (create_service c rs s).1 in
          let s2 = if o.use_ingress then (create_ingress c rs s1).1 else s1 in
          let goal = wanted o.version rs (asked o rs s2.world) in
          (stored rs.namespace (envoy_filter_name rs) (upsert_filter c o rs s).1.world ≡ goal)
          × (is_some goal ≡ true)
    unfolding upsert_filter delete_service
    upsert_filter-stores o rs s h =
        grind (arith, transcode-stores, behind_ingress-stores, service_deleted)

  -- What is wanted is an EnvoyFilter for the ReplicaSet, if anything.
  pub wanted-content :
      (version : String) (rs : ReplicaSet) (answer : Outcome (Files × List String))
      → is_some (wanted version rs answer) ≡ true
      → (text : String) × (chosen : List String) × (wanted version rs answer
          ≡ some (content (new_envoy_filter rs text chosen version)))
  unfolding wanted
  wanted-content version rs (err e) h = cc
  wanted-content version rs (panic p) h = cc
  wanted-content version rs (ok (files, services)) h =
      go (filter_grpc_services services rs) refl (c.base64_proto files) refl
    where
      go :
          (x : Outcome (List String))
          → filter_grpc_services services rs ≡ x
          → (y : Outcome String) → c.base64_proto files ≡ y
          → (text : String) × (chosen : List String) × (wanted version rs (ok (files, services))
              ≡ some (content (new_envoy_filter rs text chosen version)))
      go (ok chosen) q (ok text) q' = (text, chosen, rw (q, q', wanted) refl)
      go (ok chosen) q (err e) q' = ground (arith, q, q', h)
      go (ok chosen) q (panic p) q' = ground (arith, q, q', h)
      go (err e) q y q' = ground (arith, q, h)
      go (panic p) q y q' = ground (arith, q, h)
