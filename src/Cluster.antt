-- ===== src/Cluster.antt =====
-- What the operator calls and does not implement: the API server through the Kubernetes and Istio
-- client sets, and the package pkg/transflect, which asks a gRPC server what it serves. Every call
-- may change the world and may fail. A session is the world with the log of the calls made in it.
use transflect.Base.{ℕ, zero, suc, String, Bool, true, false, List, ◌∷◌, ℤ, pos, negsuc}
use transflect.Kube.Objects.{Service, Ingress, EnvoyFilter}
use transflect.Filter.{DialOption}
use transflect.Outcome.{ApiError, Outcome, ok, err, panic}

pub data Reply (A : Type 0) : Type 0 where
  done : A → Reply A
  failed : ApiError → Reply A

-- The four calls for one kind of object. The first text is a namespace, the second a name.
pub record Resource (World R : Type 0) : Type 0 where
  pub create : String → R → World → Reply R × World
  pub get : String → String → World → Reply R × World
  pub update : String → R → World → Reply R × World
  pub delete : String → String → World → Reply (Unit {0}) × World

pub record Cluster : Type 1 where
  pub World : Type 0
  -- `descriptorpb.FileDescriptorSet`
  pub Files : Type 0
  pub services : Resource World Service
  pub ingresses : Resource World Ingress
  pub filters : Resource World EnvoyFilter
  -- `List` of the EnvoyFilters of all namespaces: label selector, limit, continue token; the answer
  -- has a continue token too.
  pub list_filters : String → ℕ → String → World → Reply (List EnvoyFilter × String) × World
  -- `transflect.GetFileDescriptorSet`: address, path prefix, dial options
  pub get_file_descriptor_set :
      String → String → List DialOption → World → Outcome (Files × List String) × World
  -- `transflect.Base64Proto`
  pub base64_proto : Files → Outcome String

pub data Verb : Type 0 where
  create get update delete query : Verb

pub data Kind : Type 0 where
  service ingress filter reflection : Kind

-- A call that was made, and whether it succeeded.
pub record Call : Type 0 where
  pub verb : Verb
  pub kind : Kind
  pub namespace : String
  pub name : String
  pub succeeded : Bool

-- The latest call first. `filters_gauge` is the gauge of that name in metrics.go.
pub record Session (World : Type 0) : Type 0 where
  pub world : World
  pub calls : List Call
  pub filters_gauge : ℤ

-- `Inc` and `Dec` of a gauge.
abbrev pub inc : ℤ → ℤ
inc (pos n) = pos (suc n)
inc (negsuc zero) = pos 0
inc (negsuc (suc n)) = negsuc n

abbrev pub dec : ℤ → ℤ
dec (pos zero) = negsuc 0
dec (pos (suc n)) = pos n
dec (negsuc n) = negsuc (suc n)

abbrev pub is_done : {A : Type 0} → Reply A → Bool
is_done (done a) = true
is_done (failed e) = false

abbrev pub is_ok : {A : Type 0} → Outcome A → Bool
is_ok (ok a) = true
is_ok (err e) = false
is_ok (panic p) = false

module _ {World A : Type 0} where
  -- A call of the API server, logged.
  abbrev pub request :
      Verb
      → Kind
      → String
      → String
      → (World → Reply A × World)
      → Session World
      → Reply A × Session World
  request verb kind namespace name call s =
      let (r, w) = call s.world in
      let entry : Call = record {
        verb = verb;
        kind = kind;
        namespace = namespace;
        name = name;
        succeeded = is_done r;
      } in
      (r, record s { world = w; calls = entry ∷ s.calls })
