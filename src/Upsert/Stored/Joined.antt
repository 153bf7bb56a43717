-- ===== src/Upsert/Stored/Joined.antt =====
-- The operator's cluster with the reflection client of pkg/transflect in the place of the call that
-- asks a gRPC server, and what an upsert then stores.
use mathlib.Core.Path.{subst}
use transflect.Base.{
  if◌then◌else◌, ℕ, ◌<◌, String, ◌≡◌, refl, true, false, Option, none, some, List, length, arith,
}
use transflect.Kube.{ReplicaSet}
use transflect.Kube.Objects.{Service, Ingress, EnvoyFilter}
use transflect.Services.{filter_grpc_services}
use transflect.Filter.{DialOption, new_envoy_filter, envoy_filter_name, get_addr_opts}
use transflect.Outcome.{Outcome, ok, err, panic, Exec}
use transflect.Cluster.{Cluster, Resource, Reply, Session, is_ok}
use transflect.Backoff.{Backoff, IsBackoff}
use transflect.Descriptor.{File}
use transflect.Toposort.Order.{InOrder}
use transflect.Reflection.{Client, Run}
use transflect.Reflection.Closure.{Returns}
use transflect.Reflection.Described.{Table, IsDescriptorSet, IsDescribed}
use transflect.Reflection.Whole.{IsSound}
use transflect.Reflection.Dialled.{get_file_descriptor_set, get_file_descriptor_set-InOrder}
use transflect.Upsert.{Config, create_service, create_ingress, path_prefix, upsert_filter}
use transflect.Upsert.Stored.{
  Content, content, is_some, IsStore, wanted, asked, upsert_filter-stores,
}

-- The API server alone.
pub record Api (World : Type 0) : Type 0 where
  pub services : Resource World Service
  pub ingresses : Resource World Ingress
  pub filters : Resource World EnvoyFilter
  pub list_filters : String → ℕ → String → World → Reply (List EnvoyFilter × String) × World
  pub base64_proto : List File → Outcome String

-- A call that ends; a call whose fuel runs out counts as a panic.
abbrev pub settled : {W A : Type 0} → Run W A → W → Outcome A × W
settled none w = (panic "out of fuel", w)
settled (some r) w = r

module _ (c : Client) (b : Backoff) (dial : String → List DialOption → Exec c.World (Unit {0}))
    (close : c.World → c.World) (api : Api c.World) (fuel : ℕ) where
  abbrev pub joined : Cluster
  joined = record {
    World = c.World;
    Files = List File;
    services = api.services;
    ingresses = api.ingresses;
    filters = api.filters;
    list_filters = api.list_filters;
    get_file_descriptor_set = λ address prefix options w.
        settled (get_file_descriptor_set c b (dial address options) close fuel prefix w) w;
    base64_proto = api.base64_proto;
  }

  -- An EnvoyFilter for a ReplicaSet with the descriptor set that the server describes, complete by
  -- itself and in order, and with those of the server's services that the annotations choose.
  abbrev pub Filters : Table → Config → ReplicaSet → Option Content → Type 0
  Filters t o rs found =
      (files : List File) × (services : List String) × (chosen : List String) × (text : String)
      × InOrder (λ d. false) files
      × IsDescriptorSet t (path_prefix joined o rs) files services
      × (filter_grpc_services services rs ≡ ok chosen)
      × (api.base64_proto files ≡ ok text)
      × (found ≡ some (content (new_envoy_filter rs text chosen o.version)))

  wanted-Filters :
      (t : Table) (o : Config) (rs : ReplicaSet) (r : Outcome (List File × List String))
      → ((files : List File) (services : List String)
          → r ≡ ok (files, services)
          → InOrder (λ d. false) files × IsDescriptorSet t (path_prefix joined o rs) files services)
      → is_some (wanted joined o.version rs r) ≡ true
      → Filters t o rs (wanted joined o.version rs r)
  unfolding wanted
  wanted-Filters t o rs (err e) order h = cc
  wanted-Filters t o rs (panic p) order h = cc
  wanted-Filters t o rs (ok (files, services)) order h =
      go (filter_grpc_services services rs) refl (api.base64_proto files) refl
    where
      go :
          (x : Outcome (List String))
          → filter_grpc_services services rs ≡ x
          → (y : Outcome String) → api.base64_proto files ≡ y
          → Filters t o rs (wanted joined o.version rs (ok (files, services)))
      go (ok chosen) q (ok text) q' =
          let (sorted, set) = order files services refl in
          (files, services, chosen, text, sorted, set, q, q', rw (q, q', wanted) refl)
      go (ok chosen) q (err e) q' = ground (arith, q, q', h)
      go (ok chosen) q (panic p) q' = ground (arith, q, q', h)
      go (err e) q y q' = ground (arith, q, h)
      go (panic p) q y q' = ground (arith, q, h)

module _ {W A : Type 0} (P : A → Type 0) where
  settled-Returns : (m : Run W A) (w : W) (a : A) → Returns P m → (settled m w).0 ≡ ok a → P a
  settled-Returns none w a h e = absurd h
  settled-Returns (some (ok x, w')) w a h e = let same : x ≡ a = cc in subst P same h
  settled-Returns (some (err x, w')) w a h e = cc
  settled-Returns (some (panic x, w')) w a h e = cc

module _ (c : Client) (b : Backoff) (law : IsBackoff b)
    (dial : String → List DialOption → Exec c.World (Unit {0})) (close : c.World → c.World)
    (api : Api c.World) (universe : List String) (rank : String → ℕ) (bound : ℕ)
    (sound : IsSound c universe rank bound) (t : Table) (described : IsDescribed c t) (fuel : ℕ)
    (stored : String → String → c.World → Option Content)
    (store : IsStore (joined c b dial close api fuel) stored) where
  open c use {World}

  asked-InOrder :
      (o : Config) (rs : ReplicaSet) (w : World) (files : List File) (services : List String)
      → length universe < fuel
      → bound < fuel
      → asked (joined c b dial close api fuel) o rs w ≡ ok (files, services)
      → InOrder (λ d. false) files
        × IsDescriptorSet t (path_prefix (joined c b dial close api fuel) o rs) files services
  unfolding asked path_prefix
  asked-InOrder o rs w files services many deep e =
      let (address, options) = get_addr_opts o.use_ingress o.plaintext o.address rs in
      let prefix = path_prefix (joined c b dial close api fuel) o rs in
      settled-Returns
        (λ (r : List File × List String).
          InOrder (λ d. false) r.0 × IsDescriptorSet t prefix r.0 r.1)
        (get_file_descriptor_set c b (dial address options) close fuel prefix w) w (files, services)
        (get_file_descriptor_set-InOrder c b law (dial address options) close universe rank bound
          sound t described fuel prefix w many deep)
        e

  -- With the reflection client asking a server that answers by a table of its services and files,
  -- from finitely many files that import one another in no circle, and ends each stream behind its
  -- closing, and with an API server that keeps what it takes in: after an upsert without an error the
  -- cluster has the EnvoyFilter of the ReplicaSet. It is made from those of the services that the
  -- server listed that the annotations choose, and from a descriptor set that has every file that the
  -- server answered for one of its services, each with the rules of the path prefix, and otherwise the
  -- server's files as they are, each file once and each import of each file before it.
  pub upsert_filter-Filters :
      (o : Config) (rs : ReplicaSet) (s : Session World)
      → length universe < fuel
      → bound < fuel
      → is_ok (upsert_filter (joined c b dial close api fuel) o rs s).0 ≡ true
      → Filters c b dial close api fuel t o rs (
          stored rs.namespace
            (envoy_filter_name rs)
            (upsert_filter (joined c b dial close api fuel) o rs s).1.world)
  upsert_filter-Filters o rs s many deep h =
      let cluster = joined c b dial close api fuel in
      let s1 = (create_service cluster rs s).1 in
      let s2 = if o.use_ingress then (create_ingress cluster rs s1).1 else s1 in
      let (q, found) = upsert_filter-stores cluster stored store o rs s h in
      rw q (
        wanted-Filters c b dial close api fuel t o rs (asked cluster o rs s2.world)
          (λ files services e. asked-InOrder o rs s2.world files services many deep e) found)
