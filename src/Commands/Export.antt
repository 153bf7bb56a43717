-- ===== src/Commands/Export.antt =====
-- cmd/transflect/main.go: the command that prints what a gRPC server serves, from `main` to the
-- printers and `getPort`, and `Base64Proto` of pkg/transflect/transflect.go. The files, the encoders
-- of protobuf, the templates and `net.SplitHostPort` are parameters.
pub mod Address
pub mod Written
pub mod Whole
pub mod Unnoticed
use transflect.Base.{
  ℕ, ◌<>◌, pos, String, Bool, Option, none, some, List, [], ◌∷◌, ◌++◌, ℤ, not, ◌==◌, string_eq,
  if◌then◌else◌,
}
use transflect.Text.{atoi}
use transflect.Outcome.{
  Outcome, ok, err, panic, Error, message, wrap, wrapped, Exec, pure, lift, wrapping, exit_code,
  ◌>>=◌, ◌>>◌,
}
use transflect.Filter.{DialOption, with_authority, with_insecure}
use transflect.Descriptor.{File}
use transflect.Backoff.{Backoff}
use transflect.Reflection.{Client, Run, and_then}
use transflect.Reflection.Dialled.{get_file_descriptor_set}

-- The formats that the flag admits; `plain` is the text `none`, which prints nothing.
pub data Format : Type 0 where
  json base64 plain envoy istio protoset : Format

pub record Config : Type 0 where
  pub address : String
  pub plaintext : Bool
  pub authority : String
  pub out : String
  pub format : Format
  pub http_port : ℕ
  pub app : String
  pub namespace : String
  pub istio_port : ℕ
  pub http_path_prefix : String

-- `tmplData`
pub record TmplData : Type 0 where
  pub protoset_base64 : String
  pub services : List String
  pub app_port : ℤ
  pub http_port : ℕ
  pub app : String
  pub namespace : String
  pub istio_app_port : ℕ

-- `envoy.yaml.tmpl` and `istio.yaml.tmpl`
pub data Template : Type 0 where
  envoy_tmpl istio_tmpl : Template

-- What the command calls.
pub record Tools (World : Type 0) : Type 1 where
  pub Handle : Type 0
  pub stdout : Handle
  -- `os.Create`
  pub create : String → World → Outcome Handle × World
  -- `Write` of a file
  pub write : Handle → String → World → Outcome (Unit {0}) × World
  -- `Execute` of a template
  pub execute : Template → TmplData → Handle → World → Outcome (Unit {0}) × World
  -- `proto.Marshal`, `protojson.Marshal`, `base64.StdEncoding.EncodeToString`
  pub marshal : List File → Outcome String
  pub json_marshal : List File → Outcome String
  pub encode_to_string : String → String
  -- `%q` of a message
  pub quoted : List File → String
  -- `net.SplitHostPort`
  pub split_host_port : String → Outcome (String × String)
  -- The error of `strconv.Atoi`.
  pub atoi_error : String → Error

-- `grpc.WithInsecure` and `grpc.WithAuthority`, as the flags ask for them.
unfoldable pub dial_options : Config → List DialOption
unfolding string_eq
dial_options cfg =
    let authority = if cfg.authority == "" then [] else with_authority cfg.authority ∷ [] in
    if cfg.plaintext then with_insecure ∷ authority else authority

module _ {World : Type 0} (t : Tools World) where
  open t use {Handle}

  parsed_port : String → Option ℤ → Outcome ℤ
  parsed_port port none = err (wrap "cannot parse port" (t.atoi_error port))
  parsed_port port (some i) = ok i

  port_text : Outcome (String × String) → Outcome ℤ
  unfolding parsed_port
  port_text (ok (host, port)) = parsed_port port (atoi port)
  port_text (err e) = err (wrap "cannot parse address" e)
  port_text (panic p) = panic p

  unfoldable pub get_port : String → Outcome ℤ
  unfolding port_text
  get_port addr = port_text (t.split_host_port addr)

  encoded : Outcome String → Outcome String
  encoded (ok b) = ok (t.encode_to_string b)
  encoded (err e) = err e
  encoded (panic p) = panic p

  -- `transflect.Base64Proto`
  unfoldable pub base64_proto : List File → Outcome String
  unfolding encoded
  base64_proto files =
      encoded (wrapped ("cannot proto marshal message " <> t.quoted files) (t.marshal files))

  -- `fmt.Fprintln`, whose error nobody looks at.
  println : Handle → String → Exec World (Unit {0})
  println out text w = (ok tt, (t.write out (text <> "\n") w).1)

  unfoldable pub write_protoset_file : Handle → List File → Exec World (Unit {0})
  write_protoset_file out files = do
    b ← wrapping "failed to marshal file descriptor set" (lift (t.marshal files))
    wrapping "failed to write file descriptor set" (t.write out b)

  unfoldable pub print_json : Handle → List File → Exec World (Unit {0})
  unfolding println
  print_json out files = do
    text ← wrapping "cannot JSON marshal proto message" (lift (t.json_marshal files))
    println out text

  unfoldable pub print_base64 : Handle → List File → Exec World (Unit {0})
  unfolding println base64_proto
  print_base64 out files = do
    text ← wrapping "cannot base64 encode proto message" (lift (base64_proto files))
    println out text

  -- The fields of Go's struct that the literal leaves out are empty.
  unfoldable pub envoy_data : Config → String → List String → ℤ → TmplData
  envoy_data cfg text services port = record {
    protoset_base64 = text;
    services = services;
    app_port = port;
    http_port = cfg.http_port;
    app = "";
    namespace = "";
    istio_app_port = 0;
  }

  unfoldable pub istio_data : Config → String → List String → TmplData
  istio_data cfg text services = record {
    protoset_base64 = text;
    services = services;
    app_port = pos 0;
    http_port = 0;
    app = cfg.app;
    namespace = cfg.namespace;
    istio_app_port = cfg.istio_port;
  }

  unfoldable pub print_envoy : Handle → List File → List String → Config → Exec World (Unit {0})
  unfolding base64_proto get_port envoy_data
  print_envoy out files services cfg = do
    text ← wrapping "cannot base64 encode FileDescriptorSet" (lift (base64_proto files))
    port ← lift (get_port cfg.address)
    wrapping "cannot parser envoy template"
        (t.execute envoy_tmpl (envoy_data cfg text services port) out)

  unfoldable pub print_istio : Handle → List File → List String → Config → Exec World (Unit {0})
  unfolding base64_proto istio_data
  print_istio out files services cfg = do
    text ← wrapping "cannot base64 encode FileDescriptorSet" (lift (base64_proto files))
    wrapping "cannot parser istio template"
        (t.execute istio_tmpl (istio_data cfg text services) out)

  -- The switch on the format.
  unfoldable pub print_as :
      Format → Handle → List File → List String → Config → Exec World (Unit {0})
  unfolding print_json print_base64 print_envoy print_istio write_protoset_file
  print_as base64 out files services cfg = print_base64 out files
  print_as json out files services cfg = print_json out files
  print_as envoy out files services cfg = print_envoy out files services cfg
  print_as istio out files services cfg = print_istio out files services cfg
  print_as protoset out files services cfg = write_protoset_file out files
  print_as plain out files services cfg = pure tt

  unfoldable pub open_output : Config → Exec World Handle
  unfolding string_eq
  open_output cfg =
      if cfg.out == "-"
      then pure t.stdout
      else wrapping "cannot create output file" (t.create cfg.out)

  unfoldable pub write_output : Config → List File → List String → Exec World (Unit {0})
  unfolding open_output print_as
  write_output cfg files services = do
    out ← open_output cfg
    print_as cfg.format out files services cfg

-- The whole command, on the reflection client.
module _ (c : Client) (b : Backoff) (dial : String → List DialOption → Exec c.World (Unit {0}))
    (close : c.World → c.World) (t : Tools c.World) where
  open c use {World}

  with_cause : {A : Type 0} → String → Run World A → Run World A
  with_cause text none = none
  with_cause text (some (r, w)) = some (wrapped text r, w)

  unfoldable pub protoset_from_reflection : ℕ → Config → World → Run World (List File × List String)
  unfolding with_cause dial_options
  protoset_from_reflection fuel cfg w = with_cause "cannot create file descriptor set" (
      get_file_descriptor_set c b (dial cfg.address (dial_options cfg)) close fuel
        cfg.http_path_prefix w)

  unfoldable pub run : ℕ → Config → World → Run World (Unit {0})
  unfolding protoset_from_reflection write_output
  run fuel cfg w =
      and_then (protoset_from_reflection fuel cfg w)
        λ (files, services) w'. some (write_output t cfg files services w')

  -- `main` behind the parsing of the flags: the exit code, and the world at the end.
  exiting : Run World (Unit {0}) → Option (ℕ × World)
  exiting none = none
  exiting (some (r, w)) = some (exit_code r, w)

  unfoldable pub main : ℕ → Config → World → Option (ℕ × World)
  unfolding exiting
  main fuel cfg w = exiting (run fuel cfg w)
