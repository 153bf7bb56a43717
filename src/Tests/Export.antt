-- ===== src/Tests/Export.antt =====
-- The command cmd/transflect with one output file, on the reflection server of `Tests/Reflection`.
use Prim.Native.Char.{code}
use Prim.Native.String.append
use native.Mathlib.Decide.{ℕ_discrete}
use transflect.Base.{
  ℕ, ◌≡◌, ◌≢◌, ◌↔◌, refl, sym, ap, String, ◌<>◌, true, false, none, some, Option, List, [], arith,
  ◌==◌, nat_eq, string_eq, if◌then◌else◌,
}
use transflect.Backoff.{counter, counter-IsBackoff}
use transflect.Outcome.{Outcome, ok, err, message}
use transflect.Filter.{DialOption}
use transflect.Reflection.{
  get_services, Request, list_services, Client, file_descriptor_by_filename,
  file_descriptor_by_symbol, do_refl, decode_response,
}
use transflect.Reflection.Streams.{EndsStreams}
use transflect.Reflection.Described.{IsDescribed}
use transflect.Reflection.Whole.{IsSound}
use transflect.Commands.Export.{
  Config, istio, json, Tools, Template, TmplData, main, write_output, open_output,
}
use transflect.Commands.Export.Written.{IsDisk}
use transflect.Commands.Export.Unnoticed.{Encodes, write_output_unnoticed}
use transflect.Commands.Export.Whole.{LeftBy, main-Left}
use transflect.Commands.Export.Address.{is_plain, IsSplit}
use transflect.Tests.Files.{base_file}
use transflect.Tests.Reflection.{
  answer, closed, one_file, universe, rank, cart_name-ne-base, table, table-keyed,
}

-- The request that was sent last, and the output file.
abbrev World : Type 0
World = Request × String

abbrev client : Client
client = record {
  World = World;
  connect = λ w. (ok tt, w);
  send = λ r w. (ok tt, (r, w.1));
  recv = λ w. (answer w.0, w);
  close_send = λ w. (closed, w.1);
  unmarshal = λ b. if b == "base.proto" then ok base_file else ok one_file;
  own_status = λ e. none;
  patience = 2;
}

client-streams : EndsStreams client
unfolding string_eq
client-streams w = tt

client-IsSound : IsSound client universe rank 2
unfolding file_descriptor_by_filename file_descriptor_by_symbol do_refl decode_response
client-IsSound = record {
  server = record { answers = λ d w. ground arith; streams = client-streams };
  by_filename = λ d w. ground (arith, cart_name-ne-base);
  by_symbol = λ s w. ground (arith, cart_name-ne-base);
}

-- At the first colon.
split_colon : String → Option (String × String)
split_colon String.[] = none
split_colon (String.◌∷◌ c s) =
    let rest = split_colon s in
    if code c == b':'
    then some ("", s)
    else elim rest [ none ↦ none | some (host, port) ↦ some (String.◌∷◌ c host, port) ]

split_outcome : Option (String × String) → Outcome (String × String)
split_outcome none = err (message "missing port in address")
split_outcome (some r) = ok r

abbrev tools : Tools World
tools = record {
  Handle = String;
  stdout = "-";
  create = λ name w. (ok name, (w.0, ""));
  write = λ h text w. (ok tt, (w.0, w.1 <> text));
  execute = λ tmpl d h w. (ok tt, (w.0, w.1 <> d.protoset_base64));
  marshal = λ files. ok "set";
  json_marshal = λ files. ok "{}";
  encode_to_string = λ s. s;
  quoted = λ files. "";
  split_host_port = λ s. split_outcome (split_colon s);
  atoi_error = message;
}

abbrev contents : String → World → String
contents name w = w.1

abbrev expand : Template → TmplData → String
expand tmpl d = d.protoset_base64

tools-IsDisk : IsDisk tools contents (λ h. h) expand
tools-IsDisk = record {
  create-opens = λ name w w' h e. (cc, ap (λ (r : Outcome String × World). r.1.1) (sym e));
  write-appends = λ h text w w' e. ap (λ (r : Outcome (Unit {0}) × World). r.1.1) (sym e);
  execute-appends = λ tmpl d h w w' e. ap (λ (r : Outcome (Unit {0}) × World). r.1.1) (sym e);
}

split_colon-joined :
    (host port : String)
    → is_plain host ≡ true
    → split_colon (host <> (":" <> port)) ≡ some (host, port)
unfolding split_colon is_plain ℕ_discrete
split_colon-joined String.[] port h =
    rw (append.nil (":" <> port), append.cons ":" "" port, append.nil port) refl
split_colon-joined (String.◌∷◌ c s) port h =
    rw (append.cons c s (":" <> port)) (ground (arith, split_colon-joined s port))

tools-IsSplit : IsSplit tools
unfolding split_outcome
tools-IsSplit host port h k = rw (split_colon-joined host port h) refl

abbrev config : Config
config = record {
  address = "cart-1.shop.svc.cluster.local:9090";
  plaintext = true;
  authority = "";
  out = "filter.yaml";
  format = istio;
  http_port = 9999;
  app = "cart";
  namespace = "shop";
  istio_port = 8080;
  http_path_prefix = "/api";
}

not_dash : (config.out == "-") ≡ false
unfolding string_eq
not_dash = refl

out-ne-dash : config.out ≢ "-"
out-ne-dash = ground (arith, not_dash)

client-IsDescribed : IsDescribed client table
unfolding get_services file_descriptor_by_filename file_descriptor_by_symbol do_refl decode_response
    string_eq
client-IsDescribed = record {
  keyed = table-keyed;
  services = λ w. refl;
  by_symbol = λ s w. refl;
  by_name = λ d w. ground arith;
}

abbrev dial : String → List DialOption → World → Outcome (Unit {0}) × World
dial address options w = (ok tt, w)

main-Left_example :
    (code : ℕ) × (w' : World) × (main client counter dial
        (λ w. w)
        tools
        3
        config
        (list_services, "old")
      ≡ some (code, w'))
    × LeftBy client counter counter-IsBackoff dial
        (λ w. w)
        universe
        rank
        2
        client-IsSound
        table
        client-IsDescribed
        tools
        contents
        (λ h. h)
        expand
        tools-IsDisk
        config
        code
        w'
main-Left_example =
    main-Left client counter counter-IsBackoff dial (λ w. w) universe rank 2 client-IsSound table
      client-IsDescribed tools contents (λ h. h) expand tools-IsDisk 3 config (list_services, "old")
      (omega arith) (omega arith) out-ne-dash refl

abbrev json_config : Config
json_config = record config { format = json }

write_output_unnoticed_example :
    ((write_output tools json_config [] [] (list_services, "")).0 ≡ ok tt) ↔ (
      ((h : String) × ((open_output tools json_config (list_services, "")).0 ≡ ok h))
      × Encodes tools json [])
write_output_unnoticed_example =
    write_output_unnoticed tools json_config [] [] (list_services, "") refl
