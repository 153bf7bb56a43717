-- ===== src/Kube/Annotation.antt =====
-- The annotation keys: the constants at the top of cmd/transflect-operator/operator.go, and the key
-- of a deployment's revision.
use transflect.Base.{String}

abbrev pub deployment : String
deployment = "transflect.cash.squareup.com/deployment"

abbrev pub exclude : String
exclude = "transflect.cash.squareup.com/exclude-grpc-services"

abbrev pub http_prefix : String
http_prefix = "transflect.cash.squareup.com/http-path-prefix"

abbrev pub include : String
include = "transflect.cash.squareup.com/include-grpc-services"

abbrev pub port : String
port = "transflect.cash.squareup.com/port"

abbrev pub replicaset : String
replicaset = "transflect.cash.squareup.com/replicaset"

abbrev pub version : String
version = "transflect.cash.squareup.com/version"

abbrev pub revision : String
revision = "deployment.kubernetes.io/revision"
