-- ===== src/Kube.antt =====
-- The fields that the operator reads and writes of the Kubernetes objects it handles.
pub mod Annotation
pub mod Objects
use transflect.Base.{String, Option, none, some, List, ℤ, string_eq}
use transflect.Base.Dict
use transflect.Base.Dict.{Dict}

-- `metav1.OwnerReference`
pub record OwnerReference : Type 0 where
  pub api_version : String
  pub kind : String
  pub name : String
  pub uid : String

-- `appsv1.ReplicaSet`
pub record ReplicaSet : Type 0 where
  pub namespace : String
  pub name : String
  pub api_version : String
  pub uid : String
  pub annotations : Dict String String
  pub owner_references : List OwnerReference
  pub ready_replicas : ℤ
  pub template_labels : Dict String String

text_or_empty : Option String → String
text_or_empty none = ""
text_or_empty (some v) = v

-- `m[k]` of a `map[string]string`: a missing key, as in a nil map, reads as the empty text.
unfoldable pub get : Dict String String → String → String
unfolding text_or_empty
get m k = text_or_empty (Dict.lookup k m)
