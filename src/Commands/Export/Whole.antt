-- ===== src/Commands/Export/Whole.antt =====
-- The whole command, from the connection to the output file.
use transflect.Base.{ℕ, zero, suc, ◌<◌, String, ◌≡◌, refl, ap, ◌≢◌, false, none, some, List, length}
use transflect.Backoff.{Backoff, IsBackoff}
use transflect.Outcome.{Outcome, ok, err, panic, Exec, exit_code}
use transflect.Filter.{DialOption}
use transflect.Descriptor.{File}
use transflect.Toposort.Order.{InOrder}
use transflect.Reflection.{Client, Run, and_then}
use transflect.Reflection.Closure.{Returns}
use transflect.Reflection.Described.{Table, IsDescriptorSet, IsDescribed}
use transflect.Reflection.Whole.{IsSound}
use transflect.Reflection.Dialled.{get_file_descriptor_set, get_file_descriptor_set-InOrder}
use transflect.Commands.Export.{
  Config, TmplData, Template, Tools, with_cause, protoset_from_reflection, dial_options, run,
  write_output, main, exiting,
}
use transflect.Commands.Export.Written.{IsDisk, ignores_write_error, Prints, write_output-Prints}

module _ (c : Client) (b : Backoff) (law : IsBackoff b)
    (dial : String → List DialOption → Exec c.World (Unit {0})) (close : c.World → c.World)
    (universe : List String) (rank : String → ℕ) (bound : ℕ) (sound : IsSound c universe rank bound)
    (table : Table) (described : IsDescribed c table) (t : Tools c.World)
    (contents : String → c.World → String) (named : t.Handle → String)
    (expand : Template → TmplData → String) (disk : IsDisk t contents named expand) where
  open c use {World}

  with_cause-Returns :
      (text : String) (P : List File × List String → Type 0)
      (m : Run World (List File × List String))
      → Returns P m
      → Returns P (with_cause c b dial close t text m)
  unfolding with_cause
  with_cause-Returns text P none h = h
  with_cause-Returns text P (some (ok a, w)) h = h
  with_cause-Returns text P (some (err e, w)) h = tt
  with_cause-Returns text P (some (panic p, w)) h = tt

  -- What the command left: without an error the file has the format's text for the services that
  -- the server listed and the descriptor set that it describes, complete by itself and in order.
  abbrev pub Left : Config → Outcome (Unit {0}) → World → Type 0
  Left cfg (ok x) w =
      (files : List File) × (services : List String) × InOrder (λ d. false) files
      × IsDescriptorSet table cfg.http_path_prefix files services
      × Prints t contents named expand disk cfg.format cfg files services (contents cfg.out w)
  Left cfg (err e) w = Unit
  Left cfg (panic p) w = Unit

  Left-wrote :
      (cfg : Config) (files : List File) (services : List String) (w w' : World)
      (r : Outcome (Unit {0}))
      → cfg.out ≢ "-"
      → ignores_write_error t cfg.format ≡ false
      → InOrder (λ d. false) files × IsDescriptorSet table cfg.http_path_prefix files services
      → write_output t cfg files services w ≡ (r, w')
      → Left cfg r w'
  Left-wrote cfg files services w w' (err e) n i h q = tt
  Left-wrote cfg files services w w' (panic p) n i h q = tt
  Left-wrote cfg files services w w' (ok x) n i (order, set) q = (
    files,
    services,
    order,
    set,
    write_output-Prints t contents named expand disk cfg files services w w' n i q,
  )

  written :
      (cfg : Config) (m : Run World (List File × List String))
      → cfg.out ≢ "-"
      → ignores_write_error t cfg.format ≡ false
      → Returns
          (λ (r : List File × List String).
            InOrder (λ d. false) r.0 × IsDescriptorSet table cfg.http_path_prefix r.0 r.1)
          m
      → (r : Outcome (Unit {0})) × (w' : World) × (and_then m
            (λ a w1. some (write_output t cfg a.0 a.1 w1))
          ≡ some (r, w'))
        × Left cfg r w'
  written cfg none n i h = absurd h
  written cfg (some (err e, w)) n i h = (err e, w, refl, tt)
  written cfg (some (panic p, w)) n i h = (panic p, w, refl, tt)
  written cfg (some (ok (files, services), w)) n i h =
      let (r, w') = write_output t cfg files services w in
      (r, w', refl, Left-wrote cfg files services w w' r n i h refl)

  run-Left :
      (fuel : ℕ) (cfg : Config) (w : World)
      → length universe < fuel
      → bound < fuel
      → cfg.out ≢ "-"
      → ignores_write_error t cfg.format ≡ false
      → (r : Outcome (Unit {0})) × (w' : World) × (run c b dial close t fuel cfg w ≡ some (r, w'))
        × Left cfg r w'
  unfolding run protoset_from_reflection
  run-Left fuel cfg w many deep n i =
      let options = dial_options cfg in
      let m =
        get_file_descriptor_set c b (dial cfg.address options) close fuel cfg.http_path_prefix w in
      written cfg (with_cause c b dial close t "cannot create file descriptor set" m) n i (
        with_cause-Returns _ _ m (
          get_file_descriptor_set-InOrder c b law (dial cfg.address options) close universe rank
            bound sound table described fuel cfg.http_path_prefix w many deep))

  -- What the process left at its exit code.
  abbrev pub LeftBy : Config → ℕ → World → Type 0
  LeftBy cfg zero w = Left cfg (ok tt) w
  LeftBy cfg (suc code) w = Unit

  Left-LeftBy :
      (cfg : Config) (r : Outcome (Unit {0})) (w : World)
      → Left cfg r w
      → LeftBy cfg (exit_code r) w
  Left-LeftBy cfg (ok x) w h = h
  Left-LeftBy cfg (err e) w h = tt
  Left-LeftBy cfg (panic p) w h = tt

  -- On a server that answers by a table of its services and files, from finitely many files that
  -- import one another in no circle, and that ends each stream behind its closing, with a file system
  -- that appends what is written, and where the format is none of the two whose printers ignore the
  -- error of a write: the process ends, and where its exit code is 0, its output file holds exactly
  -- the format's text for the services that the server listed and a descriptor set. The set has every
  -- file that the server answered for one of the services, each with the rules, and otherwise the
  -- server's files as they are, each file once and each import of each file before it.
  pub main-Left :
      (fuel : ℕ) (cfg : Config) (w : World)
      → length universe < fuel
      → bound < fuel
      → cfg.out ≢ "-"
      → ignores_write_error t cfg.format ≡ false
      → (code : ℕ) × (w' : World) × (main c b dial close t fuel cfg w ≡ some (code, w'))
        × LeftBy cfg code w'
  unfolding main exiting
  main-Left fuel cfg w many deep n i =
      let (r, w', e, h) = run-Left fuel cfg w many deep n i in
      (exit_code r, w', ap (exiting c b dial close t) e, Left-LeftBy cfg r w' h)
