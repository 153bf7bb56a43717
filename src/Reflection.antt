-- ===== src/Reflection.antt =====
-- The reflection client of pkg/transflect/transflect.go: the requests, the collection of the file
-- descriptors with all that they import, and the retries. The gRPC stream is a parameter.
pub mod Closure
pub mod Streams
pub mod Complete
pub mod Gathered
pub mod Holds
pub mod Described
pub mod Whole
pub mod Dialled
pub mod Down
pub mod Retries
use transflect.Base.{
  ℕ, zero, suc, String, Bool, true, false, Option, none, some, List, [], ◌∷◌, ◌++◌, ltb, ◌==◌,
  nat_eq, string_eq, if◌then◌else◌,
}
use transflect.Base.Dict
use transflect.Backoff.{Backoff}
use transflect.Outcome.{
  Outcome, ok, err, panic, Error, wrap, wrapped, Exec, pure, lift, wrapping, deferring, ◌>>=◌,
}
use transflect.Descriptor.{File, annotate_http_rule}
use transflect.Toposort.{Files, topo_sort}

-- `rpb.ServerReflectionRequest`, without the host.
pub data Request : Type 0 where
  file_by_filename file_containing_symbol : String → Request
  list_services : Request

-- `rpb.ServerReflectionResponse`; `other_response` stands for every other kind, an error among them.
pub data Response : Type 0 where
  file_descriptors : List String → Response
  service_names : List String → Response
  other_response : String → Response

pub record Client : Type 1 where
  pub World : Type 0
  -- `client.ServerReflectionInfo`, and `Send`, `Recv` and `CloseSend` of the stream
  pub connect : Exec World (Unit {0})
  pub send : Request → Exec World (Unit {0})
  pub recv : Exec World Response
  pub close_send : World → World
  -- `proto.Unmarshal`
  pub unmarshal : String → Outcome File
  -- `GRPCStatus().Code()` of an error that has this method itself
  pub own_status : Error → Option ℕ
  -- how many messages the loop of `closeAndDrain` is followed for
  pub patience : ℕ

-- `getGRPCStatus`: `errors.As` looks at the error and at what it wraps, and the errors that wrap have
-- no such method.
unfoldable pub get_grpc_status : (Error → Option ℕ) → Error → Option ℕ
get_grpc_status own (wrap text e) = get_grpc_status own e
get_grpc_status own e = own e

-- A run over the state of the client; `none` is a run that has not ended.
abbrev pub Run : Type 0 → Type 0 → Type 0
Run W A = Option (Outcome A × W)

module _ {W A B : Type 0} where
  abbrev pub and_then : Run W A → (A → W → Run W B) → Run W B
  and_then none k = none
  and_then (some (ok a, w)) k = k a w
  and_then (some (err e, w)) k = some (err e, w)
  and_then (some (panic p, w)) k = some (panic p, w)

-- `append(names, name)` and the map, for a file that the map does not have.
unfoldable pub add_file : String → File → List String × Files → List String × Files
add_file prefix file (names, files) = elim (Dict.lookup file.name files) [
  | some old ↦ (names, files)
  | none ↦ (names ++ (file.name ∷ []), Dict.insert file.name (annotate_http_rule prefix file) files)
]

unfoldable pub add_files : String → List File → List String × Files → List String × Files
unfolding add_file
add_files prefix [] acc = acc
add_files prefix (f ∷ fs) acc = add_files prefix fs (add_file prefix f acc)

-- `files[name].GetDependency()`
unfoldable pub dependencies : Option File → List String
dependencies none = []
dependencies (some f) = f.dependency

names_listed : Response → List String
names_listed (service_names names) = names
names_listed _ = []

module _ (c : Client) where
  open c use {World}

  abbrev pub Action : Type 0 → Type 0
  Action = Exec World

  -- Behind one answer, with the rest of the loop.
  after_answer : Outcome Response → World → Run World (Unit {0}) → Run World (Unit {0})
  after_answer (ok response) w rest = rest
  after_answer (err e) w rest = some (ok tt, w)
  after_answer (panic p) w rest = some (panic p, w)

  -- The loop of `closeAndDrain`, on fuel.
  unfoldable pub drain : ℕ → World → Run World (Unit {0})
  unfolding after_answer
  drain zero w = none
  drain (suc n) w = let (r, w') = c.recv w in after_answer r w' (drain n w')

  unfoldable pub close_and_drain : World → Run World (Unit {0})
  unfolding drain
  close_and_drain w = drain c.patience (c.close_send w)

  -- The outcome of the body, or the panic of the deferred call.
  behind_drain : {A : Type 0} → Outcome A → Run World (Unit {0}) → Run World A
  behind_drain r none = none
  behind_drain r (some (ok x, w)) = some (r, w)
  behind_drain r (some (err e, w)) = some (r, w)
  behind_drain r (some (panic p, w)) = some (panic p, w)

  -- `defer closeAndDrain(stream)` behind the rest of the body.
  unfoldable pub draining : {A : Type 0} → Outcome A × World → Run World A
  unfolding close_and_drain behind_drain
  draining (r, w) = behind_drain r (close_and_drain w)

  -- The rest of the body of `doRefl`.
  ask : Request → Action Response
  ask request = do
    _ ← wrapping "cannot send reflection request" (c.send request)
    wrapping "cannot receive reflection response" c.recv

  unfoldable pub do_refl : Request → World → Run World Response
  unfolding draining ask
  do_refl request w =
      and_then (some (wrapping "cannot setup reflection stream" c.connect w))
        λ _ w'. draining (ask request w')

  -- The loop over the encoded files.
  unmarshal_all : List String → Outcome (List File)
  unmarshal_all [] = ok []
  unmarshal_all (b ∷ bs) =
      let rest = unmarshal_all bs in
      elim (wrapped "cannot unmarshal FileDescriptorProto" (c.unmarshal b)) [
        | ok f ↦ elim rest [ ok fs ↦ ok (f ∷ fs) | err e ↦ err e | panic p ↦ panic p ]
        | err e ↦ err e
        | panic p ↦ panic p
      ]

  -- A response of another kind has no file descriptors to read a field of.
  unfoldable pub decode_response : Response → Outcome (List File)
  unfolding unmarshal_all
  decode_response (file_descriptors bs) = unmarshal_all bs
  decode_response (service_names names) =
      panic "runtime error: invalid memory address or nil pointer dereference"
  decode_response (other_response text) =
      panic "runtime error: invalid memory address or nil pointer dereference"

  unfoldable pub file_descriptor_by_filename : String → World → Run World (List File)
  file_descriptor_by_filename filename w =
      and_then (do_refl (file_by_filename filename) w)
        λ response w'. some (decode_response response, w')

  unfoldable pub file_descriptor_by_symbol : String → World → Run World (List File)
  file_descriptor_by_symbol symbol w =
      and_then (do_refl (file_containing_symbol symbol) w)
        λ response w'. some (decode_response response, w')

  unfoldable pub get_services : World → Run World (List String)
  unfolding names_listed
  get_services w =
      and_then (do_refl list_services w) λ response w'. some (ok (names_listed response), w')

  -- The loop over the services, with the names and the files so far.
  unfoldable pub collect :
      String → List String → List String × Files → World → Run World (List String × Files)
  collect prefix [] acc w = some (ok acc, w)
  collect prefix (service ∷ services) acc w =
      and_then (file_descriptor_by_symbol service w)
        λ fs. collect prefix services (add_files prefix fs acc)

  -- The inner loop of `addDependencies`, over the recursive call.
  unfoldable pub store_files :
      (String → Files → World → Run World Files) → List File → Files → World → Run World Files
  store_files rec [] files w = some (ok files, w)
  store_files rec (f ∷ fs) files w = elim (Dict.lookup f.name files) [
    | some old ↦ store_files rec fs files w
    | none ↦ and_then (rec f.name (Dict.insert f.name f files) w) (store_files rec fs)
  ]

  -- The outer loop.
  unfoldable pub fetch_all :
      (String → Files → World → Run World Files) → List String → Files → World → Run World Files
  fetch_all rec [] files w = some (ok files, w)
  fetch_all rec (d ∷ ds) files w = elim (Dict.lookup d files) [
    | some old ↦ fetch_all rec ds files w
    | none ↦
        and_then (and_then (file_descriptor_by_filename d w) (λ fs. store_files rec fs files))
          (fetch_all rec ds)
  ]

  -- On fuel for the depth of the recursion.
  unfoldable pub add_dependencies : ℕ → String → Files → World → Run World Files
  add_dependencies zero name files w = none
  add_dependencies (suc fuel) name files w =
      fetch_all (add_dependencies fuel) (dependencies (Dict.lookup name files)) files w

  -- The loop over the names.
  unfoldable pub complete : ℕ → List String → Files → World → Run World Files
  complete fuel [] files w = some (ok files, w)
  complete fuel (name ∷ names) files w =
      and_then (add_dependencies fuel name files w) (complete fuel names)

  -- The collection, and the loop over the names.
  unfoldable pub gather : ℕ → String → List String → World → Run World (List String × Files)
  gather fuel prefix services w =
      and_then (collect prefix services ([], []) w)
        λ acc w1. and_then (complete fuel acc.0 acc.1 w1) λ files w2. some (ok (acc.0, files), w2)

  sort_files : ℕ → List String → List String × Files → World → Run World (List File × List String)
  sort_files fuel services acc w = elim (topo_sort fuel acc.0 acc.1) [
    | none ↦ none
    | some (out, left) ↦ some (ok (out, services), w)
  ]

  -- `getFileDescriptorSet`, with one bound for the two recursions.
  unfoldable pub file_descriptor_set : ℕ → String → World → Run World (List File × List String)
  unfolding sort_files
  file_descriptor_set fuel prefix w =
      and_then (get_services w)
        λ services w1. and_then (gather fuel prefix services w1) (sort_files fuel services)
