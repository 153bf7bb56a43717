-- ===== src/Commands/Export/Unnoticed.antt =====
-- The printers of the command that do not look at the error of the write.
use transflect.Base.{String, ◌≡◌, refl, ap, ◌↔◌, true, List}
use transflect.Outcome.{Outcome, ok, continue}
use transflect.Descriptor.{File}
use transflect.Commands.Export.{
  Format, json, base64, plain, envoy, istio, protoset, Config, Tools, base64_proto, print_json,
  print_base64, print_as, open_output, write_output,
}
use transflect.Commands.Export.Written.{ignores_write_error, bind-ok, lift-wrapped-ok}

module _ {World : Type 0} (t : Tools World) where
  -- The descriptors can be encoded for the format.
  abbrev pub Encodes : Format → List File → Type 0
  Encodes json files = (text : String) × (t.json_marshal files ≡ ok text)
  Encodes base64 files = (text : String) × (base64_proto t files ≡ ok text)
  Encodes _ files = Unit

  print_as-Encodes :
      (f : Format) (cfg : Config) (files : List File) (services : List String) (h : t.Handle)
      (w w' : World)
      → ignores_write_error t f ≡ true
      → print_as t f h files services cfg w ≡ (ok tt, w')
      → Encodes f files
  unfolding print_as print_json print_base64
  print_as-Encodes json cfg files services h w w' i e =
      let (text, q, e1) = lift-wrapped-ok _ (t.json_marshal files) _ w w' tt e in (text, q)
  print_as-Encodes base64 cfg files services h w w' i e =
      let (text, q, e1) = lift-wrapped-ok _ (base64_proto t files) _ w w' tt e in (text, q)
  print_as-Encodes plain cfg files services h w w' i e = tt
  print_as-Encodes envoy cfg files services h w w' i e = tt
  print_as-Encodes istio cfg files services h w w' i e = tt
  print_as-Encodes protoset cfg files services h w w' i e = tt

  Encodes-print_as :
      (f : Format) (cfg : Config) (files : List File) (services : List String) (h : t.Handle)
      (w : World)
      → ignores_write_error t f ≡ true
      → Encodes f files
      → (print_as t f h files services cfg w).0 ≡ ok tt
  unfolding print_as print_json print_base64
  Encodes-print_as json cfg files services h w i (text, q) = rw q refl
  Encodes-print_as base64 cfg files services h w i (text, q) = rw q refl
  Encodes-print_as plain cfg files services h w i e = cc
  Encodes-print_as envoy cfg files services h w i e = cc
  Encodes-print_as istio cfg files services h w i e = cc
  Encodes-print_as protoset cfg files services h w i e = cc

  opened_then :
      (cfg : Config) (files : List File) (services : List String) (h : t.Handle)
      (r : Outcome t.Handle × World)
      → r.0 ≡ ok h
      → ((w : World) → (print_as t cfg.format h files services cfg w).0 ≡ ok tt)
      → (continue r.0 (λ out. print_as t cfg.format out files services cfg) r.1).0 ≡ ok tt
  opened_then cfg files services h (r, w) e next = rw e (next w)

  -- For the formats json and base64, `writeOutput` ends without an error exactly if the output can be
  -- opened and the descriptors can be encoded, whether or not the text can be written to the output.
  pub write_output_unnoticed :
      (cfg : Config) (files : List File) (services : List String) (w : World)
      → ignores_write_error t cfg.format ≡ true
      → ((write_output t cfg files services w).0 ≡ ok tt)
        ↔ (((h : t.Handle) × ((open_output t cfg w).0 ≡ ok h)) × Encodes cfg.format files)
  unfolding write_output
  write_output_unnoticed cfg files services w i = (forth, back)
    where
      forth :
          (write_output t cfg files services w).0 ≡ ok tt
          → ((h : t.Handle) × ((open_output t cfg w).0 ≡ ok h)) × Encodes cfg.format files
      forth e =
          let w' = (write_output t cfg files services w).1 in
          let (h, w1, q, e1) =
            bind-ok (open_output t cfg) _ w w' tt (ap (λ (r : Outcome (Unit {0})). (r, w')) e) in
          (
            (h, ap (λ (r : Outcome t.Handle × World). r.0) q),
            print_as-Encodes cfg.format cfg files services h w1 w' i e1,
          )

      back :
          ((h : t.Handle) × ((open_output t cfg w).0 ≡ ok h)) × Encodes cfg.format files
          → (write_output t cfg files services w).0 ≡ ok tt
      back ((h, q), e) =
          opened_then cfg files services h (open_output t cfg w) q
            (λ w1. Encodes-print_as cfg.format cfg files services h w1 i e)
