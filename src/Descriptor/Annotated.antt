-- ===== src/Descriptor/Annotated.antt =====
-- What `AnnotateHTTPRule` makes of a file.
use mathlib.Core.Path.{ap₂}
use transflect.Base.{String, ◌<>◌, ◌≡◌, refl, Option, none, some, List, [], ◌∷◌, map, arith}
use transflect.Descriptor.{
  HttpRule, Method, ServiceDescriptor, File, http_rule, annotate_method, annotate_service,
  annotate_http_rule,
}

-- The rule that a method of a service is to have.
abbrev expected : String → String → String → Method → HttpRule
expected prefix package_name service method = elim (http_rule method.options) [
  | some rule ↦ rule
  | none ↦ record {
    pattern = "post";
    path = prefix <> ("/" <> (package_name <> ("." <> (service <> ("/" <> method.name)))));
    body = "*";
  }
]

-- The rules of a file, by service and method.
pub rules : File → List (List (Option HttpRule))
rules file =
    map (λ (s : ServiceDescriptor). map (λ (m : Method). http_rule m.options) s.methods)
      file.services

pub expected_rules : String → File → List (List (Option HttpRule))
expected_rules prefix file =
    map
      (λ (s : ServiceDescriptor).
        map (λ (m : Method). some (expected prefix file.package_name s.name m)) s.methods)
      file.services

module _ (prefix package_name : String) where
  method_rule :
      (service : String) (m : Method)
      → http_rule (annotate_method prefix package_name service m).options
        ≡ some (expected prefix package_name service m)
  unfolding annotate_method
  method_rule service m = ground arith

  method_rules :
      (service : String) (ms : List Method)
      → map
          (λ (m : Method). http_rule m.options)
          (map (annotate_method prefix package_name service) ms)
        ≡ map (λ (m : Method). some (expected prefix package_name service m)) ms
  method_rules service [] = refl
  method_rules service (m ∷ ms) = ap₂ ◌∷◌ (method_rule service m) (method_rules service ms)

  service_rules :
      (ss : List ServiceDescriptor)
      → map
          (λ (s : ServiceDescriptor). map (λ (m : Method). http_rule m.options) s.methods)
          (map (annotate_service prefix package_name) ss)
        ≡ map
            (λ (s : ServiceDescriptor).
              map (λ (m : Method). some (expected prefix package_name s.name m)) s.methods)
            ss
  unfolding annotate_service
  service_rules [] = refl
  service_rules (s ∷ ss) = ap₂ ◌∷◌ (method_rules s.name s.methods) (service_rules ss)

  annotate_method_idem :
      (other service : String) (m : Method)
      → annotate_method other package_name service (annotate_method prefix package_name service m)
        ≡ annotate_method prefix package_name service m
  unfolding annotate_method
  annotate_method_idem other service m = ground arith

-- After the annotation every method of every service of the file has a rule: the one it had, or a
-- POST of the whole body to `<prefix>/<package>.<service>/<method>`.
pub rules-annotate_http_rule :
    (prefix : String) (file : File)
    → rules (annotate_http_rule prefix file) ≡ expected_rules prefix file
unfolding rules expected_rules annotate_http_rule
rules-annotate_http_rule prefix file = service_rules prefix file.package_name file.services
