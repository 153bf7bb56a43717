-- ===== src/Replica.antt =====
-- The pure functions on ReplicaSets of cmd/transflect-operator/operator.go: the deployment that owns
-- a ReplicaSet, its key, the port and revision annotations, the entry recorded as active.
pub mod Ports
use transflect.Base.{
  ℕ, ◌%◌, ◌^◌, String, ◌<>◌, Bool, true, false, ◌&&◌, Option, none, some, List, [], ◌∷◌, ltb, ◌==◌,
  nat_eq, string_eq, if◌then◌else◌, ℤ, pos, negsuc,
}
use transflect.Text.{atoi}
use transflect.Kube.{ReplicaSet, OwnerReference, get}
use transflect.Kube.Annotation

-- `uint32(i)` behind the range test; the error of `Atoi` reads as 0.
port_of : Option ℤ → ℕ
port_of none = 0
port_of (some (negsuc n)) = 0
port_of (some (pos n)) = if ltb 65535 n then 0 else n % 2 ^ 32

unfoldable pub grpc_port_str : String → ℕ
unfolding port_of
grpc_port_str s = port_of (atoi s)

unfoldable pub grpc_port : ReplicaSet → ℕ
grpc_port rs = grpc_port_str (get rs.annotations Annotation.port)

revision_of : Option ℤ → ℕ
revision_of none = 0
revision_of (some (negsuc n)) = 0
revision_of (some (pos n)) = n

unfoldable pub deploy_revision_str : String → ℕ
unfolding revision_of
deploy_revision_str s = revision_of (atoi s)

unfoldable pub deploy_revision : ReplicaSet → ℕ
deploy_revision rs = deploy_revision_str (get rs.annotations Annotation.revision)

-- The loop over the owner references.
unfoldable pub find_deployment : List OwnerReference → Option OwnerReference
find_deployment [] = none
find_deployment (owner ∷ owners) =
    if owner.kind == "Deployment" then some owner else find_deployment owners

unfoldable pub get_deployment : ReplicaSet → Option OwnerReference
unfolding find_deployment
get_deployment rs = find_deployment rs.owner_references

unfoldable pub object_key : String → String → String
object_key namespace name = if namespace == "" then name else namespace <> ("/" <> name)

key_of : String → Option OwnerReference → Option String
unfolding object_key
key_of namespace none = none
key_of namespace (some d) = some (object_key namespace d.name)

-- `none` is the `false` of the second result.
unfoldable pub get_deployment_key : ReplicaSet → Option String
unfolding key_of
get_deployment_key rs = key_of rs.namespace (get_deployment rs)

key_or_empty : Option String → String
key_or_empty none = ""
key_or_empty (some k) = k

-- `deployKey, _ := getDeploymentKey(rs)`
unfoldable pub deploy_key : ReplicaSet → String
unfolding key_or_empty
deploy_key rs = key_or_empty (get_deployment_key rs)

is_zero : ℤ → Bool
is_zero (pos n) = n == 0
is_zero (negsuc n) = false

-- `rs.Status.ReadyReplicas == 0`
unfoldable pub not_ready : ReplicaSet → Bool
unfolding is_zero
not_ready rs = is_zero rs.ready_replicas

has_key : Option String → Bool
has_key none = false
has_key (some k) = true

unfoldable pub should_enqueue : ReplicaSet → Bool
unfolding not_ready has_key
should_enqueue rs = if not_ready rs then false else has_key (get_deployment_key rs)

pub record ActiveEntry : Type 0 where
  pub revision : ℕ
  pub grpc_port : ℕ
  pub exclude_services : String
  pub include_services : String
  pub http_path_prefix : String

-- Go's `==` on the struct.
unfoldable pub same_entry : ActiveEntry → ActiveEntry → Bool
same_entry a b =
    a.revision == b.revision
    && a.grpc_port == b.grpc_port
    && a.exclude_services == b.exclude_services
    && a.include_services == b.include_services
    && a.http_path_prefix == b.http_path_prefix

unfoldable pub new_active_entry : ReplicaSet → ActiveEntry
new_active_entry rs = record {
  grpc_port = grpc_port rs;
  revision = deploy_revision rs;
  exclude_services = get rs.annotations Annotation.exclude;
  include_services = get rs.annotations Annotation.include;
  http_path_prefix = get rs.annotations Annotation.http_prefix;
}
