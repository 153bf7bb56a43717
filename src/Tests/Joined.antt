-- ===== src/Tests/Joined.antt =====
-- An operator on a cluster in memory whose gRPC server is the one of `Tests/Reflection`.
use native.Mathlib.Decide.{ℕ_discrete}
use transflect.Base.{
  ◌≡◌, refl, String, true, none, some, Option, List, [], ◌∷◌, pos, arith, ◌==◌, string_eq,
  if◌then◌else◌,
}
use transflect.Base.Dict
use transflect.Base.Dict.{lookup-insert}
use transflect.Backoff.{counter, counter-IsBackoff}
use transflect.Outcome.{Outcome, ok}
use transflect.Kube.{ReplicaSet, get}
use transflect.Kube.Annotation
use transflect.Kube.Objects.{EnvoyFilter}
use transflect.Filter.{DialOption, envoy_filter_name}
use transflect.Replica.{grpc_port, grpc_port_str}
use transflect.Text.{atoi, split_commas, trim_space}
use transflect.Services.{filter_grpc_services, map_from_string}
use transflect.Cluster.{Resource, done, failed, Session, is_ok}
use transflect.Outcome.{not_found}
use transflect.Descriptor.{annotate_http_rule}
use transflect.Reflection.{
  Request, list_services, Client, file_descriptor_by_filename, file_descriptor_by_symbol, do_refl,
  decode_response, file_descriptor_set, get_services, gather, collect, complete, add_files,
  add_dependencies, fetch_all, dependencies, store_files,
}
use transflect.Reflection.Retries.{with_retry, retry_loop, final_error}
use transflect.Reflection.Dialled.{get_file_descriptor_set}
use transflect.Reflection.Streams.{EndsStreams}
use transflect.Reflection.Described.{IsDescribed}
use transflect.Reflection.Whole.{IsSound}
use transflect.Toposort.{topo_sort}
use transflect.Upsert.{
  upsert_filter, create_service, create_ingress, transcode, upsert_envoy_filter,
}
use transflect.Upsert.Stored.{Content, content, IsStore}
use transflect.Upsert.Stored.Joined.{Api, joined, Filters, upsert_filter-Filters}
use transflect.Tests.Files.{base_file}
use transflect.Tests.Reflection.{
  answer, closed, one_file, universe, rank, cart_name-ne-base, table, table-keyed,
}
use transflect.Tests.Samples.{Stored, find, add, drop, config, no_port}

-- The request that was sent last, and the filters.
abbrev World : Type 0
World = Request × Stored

abbrev client : Client
client = record {
  World = World;
  connect = λ w. (ok tt, w);
  send = λ r w. (ok tt, (r, w.1));
  recv = λ w. (answer w.0, w);
  close_send = λ w. (closed, w.1);
  unmarshal = λ b. if b == "base.proto" then ok base_file else ok one_file;
  own_status = λ e. none;
  patience = 2;
}

client-streams : EndsStreams client
unfolding string_eq
client-streams w = tt

client-IsSound : IsSound client universe rank 2
unfolding file_descriptor_by_filename file_descriptor_by_symbol do_refl decode_response
client-IsSound = record {
  server = record { answers = λ d w. ground arith; streams = client-streams };
  by_filename = λ d w. ground (arith, cart_name-ne-base);
  by_symbol = λ s w. ground (arith, cart_name-ne-base);
}

client-IsDescribed : IsDescribed client table
unfolding get_services file_descriptor_by_filename file_descriptor_by_symbol do_refl decode_response
    string_eq
client-IsDescribed = record {
  keyed = table-keyed;
  services = λ w. refl;
  by_symbol = λ s w. refl;
  by_name = λ d w. ground arith;
}

abbrev dial : String → List DialOption → World → Outcome (Unit {0}) × World
dial address options w = (ok tt, w)

abbrev passing : {R : Type 0} → Resource World R
passing = record {
  create = λ namespace r w. (done r, w);
  get = λ namespace name w. (failed not_found, w);
  update = λ namespace r w. (done r, w);
  delete = λ namespace name w. (done tt, w);
}

-- With the request that is kept beside.
abbrev beside : {A : Type 0} → Request → A × Stored → A × World
beside r (a, s) = (a, (r, s))

abbrev api : Api World
api = record {
  services = passing;
  ingresses = passing;
  filters = record {
    create = λ namespace f w. beside w.0 (add f w.1 (Dict.lookup f.name w.1));
    get = λ namespace name w. (find (Dict.lookup name w.1), w);
    update = λ namespace f w. (done f, (w.0, Dict.insert f.name f w.1));
    delete = λ namespace name w. beside w.0 (drop name w.1 (Dict.lookup name w.1));
  };
  list_filters = λ selector limit token w. (done ([], ""), w);
  base64_proto = λ files. ok "CgA=";
}

abbrev content_of : Option EnvoyFilter → Option Content
content_of none = none
content_of (some f) = some (content f)

abbrev content_at : String → String → World → Option Content
content_at namespace name w = content_of (Dict.lookup name w.1)

store : IsStore (joined client counter dial (λ w. w) api 3) content_at
store = record {
  created = λ namespace f w h. ground (arith, lookup-insert f.name f.name f w.1);
  updated = λ namespace f w h. ground (arith, lookup-insert f.name f.name f w.1);
  service_deleted = λ k n namespace name w. refl;
  ingress_deleted = λ k n namespace name w. refl;
}

abbrev plain_set : ReplicaSet
plain_set = record no_port {
  annotations = (Annotation.revision, "4") ∷ (Annotation.port, "9090") ∷ [];
}

abbrev session : Session World
session = record { world = (list_services, []); calls = []; filters_gauge = pos 0 }

plain_set-upserted :
    is_ok (upsert_filter (joined client counter dial (λ w. w) api 3) config plain_set session).0
    ≡ true
unfolding upsert_filter grpc_port grpc_port_str atoi get Dict.lookup string_eq create_service
    create_ingress ℕ_discrete transcode filter_grpc_services map_from_string split_commas
    Dict.insert trim_space upsert_envoy_filter get_file_descriptor_set with_retry retry_loop
    final_error file_descriptor_set get_services do_refl gather collect file_descriptor_by_symbol
    decode_response complete add_files add_dependencies fetch_all dependencies annotate_http_rule
    file_descriptor_by_filename store_files Dict.erase topo_sort
plain_set-upserted = refl

upsert_filter-Filters_example :
    Filters client counter dial
      (λ w. w)
      api
      3
      table
      config
      plain_set
      (content_at "shop"
        (envoy_filter_name plain_set)
        (upsert_filter
          (joined client counter dial (λ w. w) api 3)
          config
          plain_set
          session).1.world)
upsert_filter-Filters_example =
    upsert_filter-Filters client counter counter-IsBackoff dial (λ w. w) api universe rank 2
      client-IsSound table client-IsDescribed 3 content_at store config plain_set session
      (omega arith) (omega arith) plain_set-upserted
