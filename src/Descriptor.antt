-- ===== src/Descriptor.antt =====
-- Protobuf's file descriptors, as far as pkg/transflect/transflect.go reads and writes them, and
-- `AnnotateHTTPRule` of that file. `rest` is all else that a descriptor holds.
pub mod Annotated
use transflect.Base.{ℕ, String, ◌<>◌, Bool, true, false, Option, none, some, List, map}

-- `annotations.HttpRule`; `pattern` is the kind of the pattern, such as `post`, and `path` its path.
pub record HttpRule : Type 0 where
  pub pattern : String
  pub path : String
  pub body : String

-- `descriptorpb.MethodOptions`: the extension `E_Http`, and the rest.
pub record MethodOptions : Type 0 where
  pub http : Option HttpRule
  pub rest : String

pub record Method : Type 0 where
  pub name : String
  pub options : Option MethodOptions

pub record ServiceDescriptor : Type 0 where
  pub name : String
  pub methods : List Method

pub record File : Type 0 where
  pub name : String
  pub package_name : String
  pub dependency : List String
  pub services : List ServiceDescriptor
  pub rest : String

-- `proto.HasExtension(opts, annotations.E_Http)`; options that are nil have none.
unfoldable pub http_rule : Option MethodOptions → Option HttpRule
http_rule none = none
http_rule (some options) = options.http

rest_of : Option MethodOptions → String
rest_of none = ""
rest_of (some options) = options.rest

post_rule : String → HttpRule
post_rule path = record { pattern = "post"; path = path; body = "*" }

rule_path : String → String → String → String → String
rule_path prefix package_name service method =
    prefix <> ("/" <> (package_name <> ("." <> (service <> ("/" <> method)))))

-- The body of the inner loop.
unfoldable pub annotate_method : String → String → String → Method → Method
unfolding http_rule rest_of post_rule rule_path
annotate_method prefix package_name service method = elim (http_rule method.options) [
  | some rule ↦ method
  | none ↦ record method {
    options = some (record {
      http = some (post_rule (rule_path prefix package_name service method.name));
      rest = rest_of method.options;
    });
  }
]

unfoldable pub annotate_service : String → String → ServiceDescriptor → ServiceDescriptor
annotate_service prefix package_name service = record service {
  methods = map (annotate_method prefix package_name service.name) service.methods;
}

unfoldable pub annotate_http_rule : String → File → File
annotate_http_rule prefix file = record file {
  services = map (annotate_service prefix file.package_name) file.services;
}
