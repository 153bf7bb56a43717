-- ===== src/Tests/Samples.antt =====
-- A cluster in memory, an operator on it and some ReplicaSets.
use transflect.Base.{
  String, true, false, Option, none, some, List, [], ◌∷◌, ◌==◌, string_eq, if◌then◌else◌, pos, inr,
}
use transflect.Base.Dict
use transflect.Base.Dict.{Dict}
use transflect.Kube.{ReplicaSet, OwnerReference}
use transflect.Kube.Annotation
use transflect.Kube.Objects.{EnvoyFilter}
use transflect.Descriptor.{File}
use transflect.Outcome.{already_exists, not_found, other, ok}
use transflect.Cluster.{Cluster, Resource, Reply, done, failed, Session}
use transflect.Upsert.{Config}
use transflect.MutexMap.{empty}
use transflect.Operator.{State, Counters, Lister}

-- The filters by name.
abbrev pub Stored : Type 0
Stored = Dict String EnvoyFilter

abbrev pub find : Option EnvoyFilter → Reply EnvoyFilter
find none = failed not_found
find (some f) = done f

abbrev pub add : EnvoyFilter → Stored → Option EnvoyFilter → Reply EnvoyFilter × Stored
add f w none = (done f, Dict.insert f.name f w)
add f w (some old) = (failed already_exists, w)

abbrev pub drop : String → Stored → Option EnvoyFilter → Reply (Unit {0}) × Stored
drop name w none = (failed not_found, w)
drop name w (some old) = (done tt, Dict.erase name w)

-- An object that every call of the API accepts, and that nothing keeps.
abbrev pub passing : {R : Type 0} → Resource Stored R
passing = record {
  create = λ namespace r w. (done r, w);
  get = λ namespace name w. (failed not_found, w);
  update = λ namespace r w. (done r, w);
  delete = λ namespace name w. (done tt, w);
}

abbrev pub stored_filters : Resource Stored EnvoyFilter
stored_filters = record {
  create = λ namespace f w. add f w (Dict.lookup f.name w);
  get = λ namespace name w. (find (Dict.lookup name w), w);
  update = λ namespace f w. (done f, Dict.insert f.name f w);
  delete = λ namespace name w. drop name w (Dict.lookup name w);
}

abbrev pub values : Stored → List EnvoyFilter
values [] = []
values ((name, f) ∷ w) = f ∷ values w

abbrev pub cluster : Cluster
cluster = record {
  World = Stored;
  Files = List File;
  services = passing;
  ingresses = passing;
  filters = stored_filters;
  list_filters = λ selector limit token w. (done (values w, ""), w);
  get_file_descriptor_set = λ address prefix options w. (ok ([], "shop.Cart" ∷ "health" ∷ []), w);
  base64_proto = λ files. ok "CgA=";
}

-- The same with an API server that fails to delete filters.
abbrev pub stuck_cluster : Cluster
stuck_cluster = record cluster {
  filters = record stored_filters { delete = λ namespace name w. (failed (other "timeout"), w) };
}

abbrev pub config : Config
config = record {
  use_ingress = true;
  plaintext = false;
  address = "ingress:443";
  version = "transflect-1";
  http_path_prefix = "/api";
}

abbrev pub owner : OwnerReference
owner = record { api_version = "apps/v1"; kind = "Deployment"; name = "cart"; uid = "7" }

abbrev pub no_port : ReplicaSet
no_port = record {
  namespace = "shop";
  name = "cart-1";
  api_version = "apps/v1";
  uid = "8";
  annotations = (Annotation.revision, "3") ∷ [];
  owner_references = owner ∷ [];
  ready_replicas = pos 2;
  template_labels = ("app", "cart") ∷ ("pod-template-hash", "1") ∷ [];
}

abbrev pub with_port : ReplicaSet
with_port = record no_port {
  annotations =
      (Annotation.revision, "3")
      ∷ (Annotation.port, "9090")
      ∷ (Annotation.exclude, "health, admin")
      ∷ [];
}

abbrev pub lister : Lister Stored
lister = record {
  split_key = λ key. inr ("shop", key);
  replica_set = λ namespace name w. if name == "cart-1" then done with_port else failed not_found;
}

abbrev pub no_counts : Counters
no_counts = record {
  upsert_success = 0;
  upsert_error = 0;
  delete_success = 0;
  delete_error = 0;
  preprocess_error = 0;
  ignored = 0;
}

abbrev pub session : Session Stored
session = record { world = []; calls = []; filters_gauge = pos 0 }

abbrev pub state : State Stored
state = record {
  session = session;
  active_state = [];
  locker = empty;
  counters = no_counts;
  finished = [];
}
