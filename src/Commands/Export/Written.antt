-- ===== src/Commands/Export/Written.antt =====
-- What the command leaves in its output file.
use Prim.Native.String.append
use mathlib.Core.Path.{subst}
use transflect.Base.{
  ◌<>◌, String, ◌≡◌, refl, ◌≢◌, ◌∙◌, sym, ap, true, false, Bool, List, ℤ, arith, ◌==◌, string_eq,
  if◌then◌else◌,
}
use transflect.Outcome.{
  Outcome, ok, err, panic, Exec, wrapped, wrapping, continue, ◌>>=◌, lift, pure,
}
use transflect.Descriptor.{File}
use transflect.Commands.Export.{
  Format, json, base64, plain, envoy, istio, protoset, Config, TmplData, Template, envoy_tmpl,
  istio_tmpl, Tools, get_port, base64_proto, envoy_data, istio_data, write_protoset_file,
  print_envoy, print_istio, print_as, open_output, write_output,
}

module _ {S A : Type 0} where
  wrapping-ok :
      (text : String) (m : Exec S A) (s s' : S) (a : A)
      → wrapping text m s ≡ (ok a, s')
      → m s ≡ (ok a, s')
  wrapping-ok text m s s' a e = go (m s) e
    where
      go :
          (r : Outcome A × S)
          → ◌≡◌ {A = Outcome A × S} (wrapped text r.0, r.1) (ok a, s')
          → r ≡ (ok a, s')
      go (ok x, s1) q = q
      go (err x, s1) q = cc
      go (panic x, s1) q = cc

  pub bind-ok :
      {B : Type 0} (m : Exec S A) (f : A → Exec S B) (s s' : S) (b : B)
      → (m >>= f) s ≡ (ok b, s')
      → (a : A) × (s1 : S) × (m s ≡ (ok a, s1)) × (f a s1 ≡ (ok b, s'))
  bind-ok {B = B} m f s s' b e = go (m s) refl e
    where
      go :
          (r : Outcome A × S)
          → m s ≡ r
          → continue r.0 f r.1 ≡ (ok b, s')
          → (a : A) × (s1 : S) × (m s ≡ (ok a, s1)) × (f a s1 ≡ (ok b, s'))
      go (ok x, s1) here q = (x, s1, here, q)
      go (err x, s1) here q = cc
      go (panic x, s1) here q = cc

  lift-ok :
      {B : Type 0} (r : Outcome A) (f : A → Exec S B) (s s' : S) (b : B)
      → (lift r >>= f) s ≡ (ok b, s')
      → (a : A) × (r ≡ ok a) × (f a s ≡ (ok b, s'))
  lift-ok (ok x) f s s' b e = (x, refl, e)
  lift-ok (err x) f s s' b e = cc
  lift-ok (panic x) f s s' b e = cc

  pub lift-wrapped-ok :
      {B : Type 0} (text : String) (r : Outcome A) (f : A → Exec S B) (s s' : S) (b : B)
      → (wrapping text (lift r) >>= f) s ≡ (ok b, s')
      → (a : A) × (r ≡ ok a) × (f a s ≡ (ok b, s'))
  lift-wrapped-ok text (ok x) f s s' b e = (x, refl, e)
  lift-wrapped-ok text (err x) f s s' b e = cc
  lift-wrapped-ok text (panic x) f s s' b e = cc

module _ {World : Type 0} (t : Tools World) where
  open t use {Handle}

  -- A file system: what each file holds, the name of an open file, and the text of a template.
  pub record IsDisk (contents : String → World → String) (named : Handle → String)
      (expand : Template → TmplData → String) : Type 0 where
    pub create-opens :
        (name : String) (w w' : World) (h : Handle)
        → t.create name w ≡ (ok h, w')
        → (named h ≡ name) × (contents name w' ≡ "")
    pub write-appends :
        (h : Handle) (text : String) (w w' : World)
        → t.write h text w ≡ (ok tt, w')
        → contents (named h) w' ≡ contents (named h) w <> text
    pub execute-appends :
        (tmpl : Template) (d : TmplData) (h : Handle) (w w' : World)
        → t.execute tmpl d h w ≡ (ok tt, w')
        → contents (named h) w' ≡ contents (named h) w <> expand tmpl d

  -- The formats that are printed with no look at the error of the write.
  abbrev pub ignores_write_error : Format → Bool
  ignores_write_error json = true
  ignores_write_error base64 = true
  ignores_write_error _ = false

  module _ (contents : String → World → String) (named : Handle → String)
      (expand : Template → TmplData → String) (disk : IsDisk contents named expand) where
    -- The text that a format stands for.
    abbrev pub Prints : Format → Config → List File → List String → String → Type 0
    Prints protoset cfg files services text = t.marshal files ≡ ok text
    Prints envoy cfg files services text =
        (b : String) × (port : ℤ) × (base64_proto t files ≡ ok b)
        × (get_port t cfg.address ≡ ok port)
        × (text ≡ expand envoy_tmpl (envoy_data t cfg b services port))
    Prints istio cfg files services text =
        (b : String) × (base64_proto t files ≡ ok b)
        × (text ≡ expand istio_tmpl (istio_data t cfg b services))
    Prints _ cfg files services text = text ≡ ""

    after_empty :
        (h : Handle) (w w' : World) (text : String)
        → contents (named h) w ≡ ""
        → contents (named h) w' ≡ contents (named h) w <> text
        → contents (named h) w' ≡ text
    after_empty h w w' text z e = e ∙ ap (λ s. s <> text) z ∙ append.nil text

    print_envoy-Prints :
        (cfg : Config) (files : List File) (services : List String) (h : Handle) (w w' : World)
        → contents (named h) w ≡ ""
        → print_envoy t h files services cfg w ≡ (ok tt, w')
        → Prints envoy cfg files services (contents (named h) w')
    unfolding print_envoy
    print_envoy-Prints cfg files services h w w' z e =
        let (b, q1, e1) = lift-wrapped-ok _ (base64_proto t files) _ w w' tt e in
        let (port, q2, e2) = lift-ok (get_port t cfg.address) _ w w' tt e1 in
        let e3 =
          wrapping-ok _ (t.execute envoy_tmpl (envoy_data t cfg b services port) h) w w' tt e2 in
        (b, port, q1, q2, after_empty h w w' _ z (disk.execute-appends envoy_tmpl _ h w w' e3))

    print_istio-Prints :
        (cfg : Config) (files : List File) (services : List String) (h : Handle) (w w' : World)
        → contents (named h) w ≡ ""
        → print_istio t h files services cfg w ≡ (ok tt, w')
        → Prints istio cfg files services (contents (named h) w')
    unfolding print_istio
    print_istio-Prints cfg files services h w w' z e =
        let (b, q1, e1) = lift-wrapped-ok _ (base64_proto t files) _ w w' tt e in
        let e2 = wrapping-ok _ (t.execute istio_tmpl (istio_data t cfg b services) h) w w' tt e1 in
        (b, q1, after_empty h w w' _ z (disk.execute-appends istio_tmpl _ h w w' e2))

    write_protoset_file-Prints :
        (cfg : Config) (files : List File) (services : List String) (h : Handle) (w w' : World)
        → contents (named h) w ≡ ""
        → write_protoset_file t h files w ≡ (ok tt, w')
        → Prints protoset cfg files services (contents (named h) w')
    unfolding write_protoset_file
    write_protoset_file-Prints cfg files services h w w' z e =
        let (b, q, e1) = lift-wrapped-ok _ (t.marshal files) _ w w' tt e in
        let e2 = wrapping-ok _ (t.write h b) w w' tt e1 in
        q ∙ ap ok (sym (after_empty h w w' b z (disk.write-appends h b w w' e2)))

    print_as-Prints :
        (f : Format) (cfg : Config) (files : List File) (services : List String) (h : Handle)
        (w w' : World)
        → ignores_write_error f ≡ false
        → contents (named h) w ≡ ""
        → print_as t f h files services cfg w ≡ (ok tt, w')
        → Prints f cfg files services (contents (named h) w')
    unfolding print_as
    print_as-Prints json cfg files services h w w' i z e = cc
    print_as-Prints base64 cfg files services h w w' i z e = cc
    print_as-Prints plain cfg files services h w w' i z e =
        sym (ap (λ (r : Outcome (Unit {0}) × World). contents (named h) r.1) e) ∙ z
    print_as-Prints envoy cfg files services h w w' i z e =
        print_envoy-Prints cfg files services h w w' z e
    print_as-Prints istio cfg files services h w w' i z e =
        print_istio-Prints cfg files services h w w' z e
    print_as-Prints protoset cfg files services h w w' i z e =
        write_protoset_file-Prints cfg files services h w w' z e

    opened :
        (cfg : Config) (w w' : World) (h : Handle)
        → cfg.out ≢ "-"
        → open_output t cfg w ≡ (ok h, w')
        → (named h ≡ cfg.out) × (contents (named h) w' ≡ "")
    unfolding open_output string_eq
    opened cfg w w' h n e =
        let file : (cfg.out == "-") ≡ false = ground (arith, n) in
        let e' =
          subst
            (λ b.
              (if b then pure t.stdout else wrapping "cannot create output file" (t.create cfg.out))
                w
              ≡ (ok h, w'))
            file e in
        let (a, b) =
          disk.create-opens cfg.out w w' h (wrapping-ok _ (t.create cfg.out) w w' h e') in
        (a, ap (λ name. contents name w') a ∙ b)

    -- Given a file system that appends what is written: where the output is a file and the format is
    -- none of the two whose printers ignore the error of a write, a run of `writeOutput` without an
    -- error leaves in that file exactly the text that the format stands for, whatever it held before.
    pub write_output-Prints :
        (cfg : Config) (files : List File) (services : List String) (w w' : World)
        → cfg.out ≢ "-"
        → ignores_write_error cfg.format ≡ false
        → write_output t cfg files services w ≡ (ok tt, w')
        → Prints cfg.format cfg files services (contents cfg.out w')
    unfolding write_output
    write_output-Prints cfg files services w w' n i e =
        let (h, w1, q, e1) = bind-ok (open_output t cfg) _ w w' tt e in
        let (same, z) = opened cfg w w1 h n q in
        subst (λ name. Prints cfg.format cfg files services (contents name w')) same
          (print_as-Prints cfg.format cfg files services h w1 w' i z e1)
