-- ===== src/Setup.antt =====
-- How an operator is set up in cmd/transflect-operator/operator.go: `newOperator`, `getClientSets`,
-- `getConfig`, `newLock` and `newElection`. What client-go, the environment and the generator of UUIDs
-- give is a parameter.
pub mod Found
use transflect.Base.{ℕ, String, ◌<>◌, Bool, List, [], ◌∷◌, ◌==◌, string_eq, if◌then◌else◌}
use transflect.Outcome.{Outcome, ok, err, panic, Error, message, wrap, wrapped}

-- The flags of cmd/transflect-operator/main.go that the operator takes over.
pub record Flags : Type 0 where
  pub use_ingress : Bool
  pub address : String
  pub plaintext : Bool
  pub lease_namespace : String
  pub lease_id : String
  pub http_path_prefix : String

pub record Host : Type 1 where
  -- `*rest.Config`, and the two client sets
  pub RestConfig : Type 0
  pub Clientset : Type 0
  pub IstioClient : Type 0
  pub in_cluster_config : Outcome RestConfig
  -- `errors.Is(err, rest.ErrNotInCluster)`
  pub is_not_in_cluster : Error → Bool
  pub getenv : String → String
  pub home_dir : String
  -- `filepath.Join`
  pub join : List String → String
  -- `clientcmd.BuildConfigFromFlags("", path)`
  pub build_config : String → Outcome RestConfig
  pub new_clientset : RestConfig → Outcome Clientset
  pub new_istio : RestConfig → Outcome IstioClient
  pub new_uuid : String
  -- `version` of main.go, which the build sets
  pub version : String

module _ (h : Host) where
  open h use {RestConfig, Clientset, IstioClient}

  at_home : String → Outcome String
  at_home home =
      if home == ""
      then err (message "cannot find kubeconfig. Set KUBECONFIG env var")
      else ok (h.join (home ∷ ".kube" ∷ "config" ∷ []))

  unfoldable pub kubeconfig_path : Outcome String
  unfolding at_home
  kubeconfig_path =
      let path = h.getenv "KUBECONFIG" in if path == "" then at_home h.home_dir else ok path

  built : Outcome String → Outcome RestConfig
  built (ok path) = wrapped "cannot find kube config" (h.build_config path)
  built (err e) = err e
  built (panic p) = panic p

  outside_cluster : Outcome RestConfig → Outcome RestConfig
  unfolding built kubeconfig_path
  outside_cluster (ok cfg) = ok cfg
  outside_cluster (panic p) = panic p
  outside_cluster (err e) =
      if h.is_not_in_cluster e then built kubeconfig_path else err (wrap "cannot get kubeconfig" e)

  unfoldable pub get_config : Outcome RestConfig
  unfolding outside_cluster
  get_config = outside_cluster h.in_cluster_config

  with_istio : Clientset → Outcome IstioClient → Outcome (Clientset × IstioClient)
  with_istio k8s (ok istio) = ok (k8s, istio)
  with_istio k8s (err e) = err (wrap "cannot get Istio ClientSet" e)
  with_istio k8s (panic p) = panic p

  with_k8s : RestConfig → Outcome Clientset → Outcome (Clientset × IstioClient)
  unfolding with_istio
  with_k8s cfg (ok k8s) = with_istio k8s (h.new_istio cfg)
  with_k8s cfg (err e) = err (wrap "cannot get Kubernetes ClientSet" e)
  with_k8s cfg (panic p) = panic p

  with_config : Outcome RestConfig → Outcome (Clientset × IstioClient)
  unfolding with_k8s
  with_config (ok cfg) = with_k8s cfg (h.new_clientset cfg)
  with_config (err e) = err (wrap "cannot get Kubernetes config" e)
  with_config (panic p) = panic p

  unfoldable pub get_client_sets : Outcome (Clientset × IstioClient)
  unfolding with_config get_config
  get_client_sets = with_config get_config

  -- The part of an operator that is set here and stays.
  pub record Identity : Type 0 where
    pub k8s : Clientset
    pub istio : IstioClient
    pub use_ingress : Bool
    pub plaintext : Bool
    pub address : String
    pub version : String
    pub lease_namespace : String
    pub lease_id : String
    pub http_path_prefix : String

  unfoldable pub lease_id_of : Flags → String
  lease_id_of cfg = if cfg.lease_id == "" then h.new_uuid else cfg.lease_id

  identity : Flags → Clientset → IstioClient → Identity
  unfolding lease_id_of
  identity cfg k8s istio = record {
    k8s = k8s;
    istio = istio;
    use_ingress = cfg.use_ingress;
    plaintext = cfg.plaintext;
    address = cfg.address;
    version = "transflect-" <> h.version;
    lease_namespace = cfg.lease_namespace;
    lease_id = lease_id_of cfg;
    http_path_prefix = cfg.http_path_prefix;
  }

  identified : Flags → Outcome (Clientset × IstioClient) → Outcome Identity
  unfolding identity
  identified cfg (ok (k8s, istio)) = ok (identity cfg k8s istio)
  identified cfg (err e) = err e
  identified cfg (panic p) = panic p

  unfoldable pub new_operator : Flags → Outcome Identity
  unfolding identified get_client_sets
  new_operator cfg = identified cfg get_client_sets

-- `resourcelock.LeaseLock`
pub record LeaseLock : Type 0 where
  pub name : String
  pub namespace : String
  pub identity : String

abbrev pub new_lock : String → String → LeaseLock
new_lock lease_namespace id = record {
  name = "transflect-leader";
  namespace = lease_namespace;
  identity = id;
}

-- `leaderelection.LeaderElectionConfig`, with the times in seconds.
pub record Election : Type 0 where
  pub lock : LeaseLock
  pub release_on_cancel : Bool
  pub lease_duration : ℕ
  pub renew_deadline : ℕ
  pub retry_period : ℕ

abbrev pub new_election : LeaseLock → Election
new_election lock = record {
  lock = lock;
  release_on_cancel = Bool.true;
  lease_duration = 20;
  renew_deadline = 15;
  retry_period = 5;
}
