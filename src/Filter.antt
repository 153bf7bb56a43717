-- ===== src/Filter.antt =====
-- The objects built for a ReplicaSet in cmd/transflect-operator/envoyfilter.go, and the address at
-- which its gRPC server is asked.
use transflect.Base.{
  String, ◌<>◌, Bool, true, false, Option, none, some, List, [], ◌∷◌, ◌==◌, string_eq,
  if◌then◌else◌,
}
use transflect.Base.Dict.{Dict}
use transflect.Text.{itoa}
use transflect.Kube.{ReplicaSet, OwnerReference, get}
use transflect.Kube.Annotation
use transflect.Kube.Objects.{
  Service, Ingress, EnvoyFilter, Value, string_value, bool_value, list_value, struct_value, Values,
  nil, cons, Fields, end, field,
}
use transflect.Replica.{grpc_port, get_deployment, deploy_key}

-- `int32(grpcPort(rs))`: the port is below 2^16, so that the conversion keeps it.
unfoldable pub new_service : ReplicaSet → Service
new_service rs = record {
  namespace = rs.namespace;
  name = rs.name;
  resource_version = "";
  selector = rs.template_labels;
  ports = (record { name = "grpc"; port = grpc_port rs }) ∷ [];
  cluster_ip = "";
}

unfoldable pub new_ingress : ReplicaSet → Ingress
new_ingress rs = record {
  namespace = rs.namespace;
  name = rs.name;
  resource_version = "";
  annotations = ("kubernetes.io/ingress.class", "istio") ∷ [];
  rules =
      (record {
        host = rs.name <> ".local";
        paths =
            (record {
              path = "/";
              path_type = "Prefix";
              service_name = rs.name;
              service_port = grpc_port rs;
            })
            ∷ [];
      })
      ∷ [];
}

filter_base_name : String → Option OwnerReference → String
filter_base_name name none = name
filter_base_name name (some deployment) = deployment.name

unfoldable pub envoy_filter_name : ReplicaSet → String
unfolding filter_base_name
envoy_filter_name rs = filter_base_name rs.name (get_deployment rs) <> "-transflect"

filter_owner : ReplicaSet → Option OwnerReference → OwnerReference
filter_owner rs none = record {
  api_version = rs.api_version;
  name = rs.name;
  kind = "Replicaset";
  uid = rs.uid;
}
filter_owner rs (some deployment) = deployment

unfoldable pub envoy_filter_owner : ReplicaSet → List OwnerReference
unfolding filter_owner
envoy_filter_owner rs = filter_owner rs (get_deployment rs) ∷ []

-- The loop over the labels of the pod template.
copy_labels : Dict String String → Dict String String
copy_labels [] = []
copy_labels ((k, v) ∷ labels) =
    let rest = copy_labels labels in if k == "pod-template-hash" then rest else (k, v) ∷ rest

unfoldable pub envoy_filter_selector : ReplicaSet → Dict String String
unfolding copy_labels
envoy_filter_selector rs = copy_labels rs.template_labels

-- `stringVal` and `boolVal` are the constructors `string_value` and `bool_value`.
string_values : List String → Values
string_values [] = nil
string_values (s ∷ ss) = cons (string_value s) (string_values ss)

unfoldable pub list_val : List String → Value
unfolding string_values
list_val ss = list_value (string_values ss)

print_options : Fields
print_options = field "add_whitespace" (bool_value false) (
    field "always_print_primitive_fields" (bool_value true) (
      field "always_print_enums_as_ints" (bool_value false)
        (field "preserve_proto_field_names" (bool_value true) end)))

transcoder_config : String → List String → Fields
transcoder_config protoset_base64 services =
    field "@type"
      (string_value
        "type.googleapis.com/envoy.extensions.filters.http.grpc_json_transcoder.v3.GrpcJsonTranscoder")
      (field "proto_descriptor_bin" (string_value protoset_base64) (
        field "services" (list_val services)
          (field "print_options" (struct_value print_options) end)))

unfoldable pub new_envoy_filter : ReplicaSet → String → List String → String → EnvoyFilter
unfolding print_options transcoder_config
new_envoy_filter rs protoset_base64 services version = record {
  namespace = rs.namespace;
  name = envoy_filter_name rs;
  resource_version = "";
  labels = ("app", "transflect") ∷ [];
  annotations =
      (Annotation.version, version)
      ∷ (Annotation.replicaset, rs.name)
      ∷ (Annotation.deployment, deploy_key rs)
      ∷ (Annotation.port, get rs.annotations Annotation.port)
      ∷ (Annotation.revision, get rs.annotations Annotation.revision)
      ∷ [];
  owner_references = envoy_filter_owner rs;
  workload_selector = envoy_filter_selector rs;
  config_patches =
      (record {
        apply_to = "HTTP_FILTER";
        match = record {
          context = "SIDECAR_INBOUND";
          port_number = grpc_port rs;
          filter_name = "envoy.filters.network.http_connection_manager";
          sub_filter_name = "envoy.filters.http.router";
        };
        patch = record {
          operation = "INSERT_BEFORE";
          value = field "name" (string_value "envoy.filters.http.grpc_json_transcoder") (
              field "typed_config" (struct_value (transcoder_config protoset_base64 services)) end);
        };
      })
      ∷ [];
}

-- `grpc.DialOption`, as far as the program makes them.
pub data DialOption : Type 0 where
  with_authority : String → DialOption
  with_insecure : DialOption

insecure_option : Bool → List DialOption
insecure_option plaintext = if plaintext then with_insecure ∷ [] else []

-- The two flags and the address are those of the operator.
unfoldable pub get_addr_opts : Bool → Bool → String → ReplicaSet → String × List DialOption
unfolding insecure_option
get_addr_opts use_ingress plaintext address rs =
    if use_ingress
    then (address, with_authority (rs.namespace <> ".local") ∷ insecure_option plaintext)
    else (
      rs.name <> ("." <> (rs.namespace <> (".svc.cluster.local:" <> itoa (grpc_port rs)))),
      insecure_option plaintext,
    )
