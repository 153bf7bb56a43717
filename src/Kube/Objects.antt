-- ===== src/Kube/Objects.antt =====
-- The objects that the operator writes: temporary Services and Ingresses, and EnvoyFilters with the
-- settings that it fills in. Constant settings are in the functions that build the objects.
use transflect.Base.{ℕ, String, Bool, List}
use transflect.Base.Dict.{Dict}
use transflect.Kube.{OwnerReference}

pub record ServicePort : Type 0 where
  pub name : String
  pub port : ℕ

-- `corev1.Service`
pub record Service : Type 0 where
  pub namespace : String
  pub name : String
  pub resource_version : String
  pub selector : Dict String String
  pub ports : List ServicePort
  pub cluster_ip : String

pub record IngressPath : Type 0 where
  pub path : String
  pub path_type : String
  pub service_name : String
  pub service_port : ℕ

pub record IngressRule : Type 0 where
  pub host : String
  pub paths : List IngressPath

-- `netv1.Ingress`
pub record Ingress : Type 0 where
  pub namespace : String
  pub name : String
  pub resource_version : String
  pub annotations : Dict String String
  pub rules : List IngressRule

-- `types.Value` of protobuf's `Struct`, the lists and the fields of one as data of their own.
mutual
  pub data Value : Type 0 where
    string_value : String → Value
    bool_value : Bool → Value
    list_value : Values → Value
    struct_value : Fields → Value

  pub data Values : Type 0 where
    nil : Values
    cons : Value → Values → Values

  pub data Fields : Type 0 where
    end : Fields
    field : String → Value → Fields → Fields

-- `EnvoyFilter_EnvoyConfigObjectMatch`
pub record Match : Type 0 where
  pub context : String
  pub port_number : ℕ
  pub filter_name : String
  pub sub_filter_name : String

-- `EnvoyFilter_Patch`
pub record Patch : Type 0 where
  pub operation : String
  pub value : Fields

pub record ConfigPatch : Type 0 where
  pub apply_to : String
  pub match : Match
  pub patch : Patch

-- `istionet.EnvoyFilter`
pub record EnvoyFilter : Type 0 where
  pub namespace : String
  pub name : String
  pub resource_version : String
  pub labels : Dict String String
  pub annotations : Dict String String
  pub owner_references : List OwnerReference
  pub workload_selector : Dict String String
  pub config_patches : List ConfigPatch
