-- ===== src/Reflection/Holds.antt =====
-- What holds of every file of a server's answers, over the gathering of `getFileDescriptorSet`.
use transflect.Base.{
  ℕ, zero, suc, String, ◌≡◌, Bool-cases, Option-cases, inl, inr, none, some, List, [], ◌∷◌, arith,
  ◌==◌, string_eq, All, All-mono,
}
use transflect.Base.Dict
use transflect.Base.Dict.{lookup-insert, lookup-nil}
use transflect.Outcome.{ok, err, panic}
use transflect.Descriptor.{File, annotate_http_rule}
use transflect.Toposort.{Files}
use transflect.Reflection.{
  Client, Run, and_then, add_file, add_files, dependencies, file_descriptor_by_filename,
  file_descriptor_by_symbol, store_files, fetch_all, add_dependencies, complete, collect, gather,
}
use transflect.Reflection.Closure.{IfReturns, IfReturns-mono}

pub and_then_partial :
    {W A B : Type 0} (P : A → Type 0) (Q : B → Type 0) (m : Run W A) (k : A → W → Run W B)
    → IfReturns P m
    → ((a : A) (w : W) → P a → IfReturns Q (k a w))
    → IfReturns Q (and_then m k)
and_then_partial P Q none k h next = tt
and_then_partial P Q (some (ok a, w)) k h next = next a w h
and_then_partial P Q (some (err e, w)) k h next = tt
and_then_partial P Q (some (panic p, w)) k h next = tt

-- `G` holds of every name and its file.
abbrev pub Holds : (String → File → Type 0) → Files → Type 0
Holds G files = (n : String) (f : File) → Dict.lookup n files ≡ some f → G n f

-- Of each file that an answer has, under its own name, and of the file with the rules added.
abbrev pub Good : (String → File → Type 0) → List File → Type 0
Good G = All (λ f. G f.name f × ((prefix : String) → G f.name (annotate_http_rule prefix f)))

-- What is kept of the map where a file of an answer is stored that it does not have.
module _ (c : Client) (I : Files → Type 0) (Found : File → Type 0)
    (insert-I : (files : Files) (f : File)
      → Dict.lookup f.name files ≡ none
      → Found f
      → I files
      → I (Dict.insert f.name f files))
    (found_by_name : (d : String) (w : c.World)
      → IfReturns (All Found) (file_descriptor_by_filename c d w)) where
  open c use {World}

  module _ (rec : String → Files → World → Run World Files)
      (rec-Holds : (name : String) (files : Files) (w : World)
        → I files
        → IfReturns I (rec name files w)) where
    store_files-Keeps :
        (fs : List File) (files : Files) (w : World)
        → All Found fs
        → I files
        → IfReturns I (store_files c rec fs files w)
    unfolding store_files
    store_files-Keeps [] files w good h = h
    store_files-Keeps (f ∷ fs) files w (g, good) h =
        elim (Option-cases (Dict.lookup f.name files)) [
          | inl new ↦
              rw (new, store_files)
                (and_then_partial I I (rec f.name (Dict.insert f.name f files) w)
                  (store_files c rec fs)
                  (rec-Holds f.name (Dict.insert f.name f files) w (insert-I files f new g h))
                  (λ files1 w1 h1. store_files-Keeps fs files1 w1 good h1))
          | inr (old, there) ↦ rw (there, store_files) (store_files-Keeps fs files w good h)
        ]

    fetch_one-Keeps :
        (d : String) (files : Files) (w : World)
        → I files
        → IfReturns I
            (and_then (file_descriptor_by_filename c d w) (λ fs. store_files c rec fs files))
    fetch_one-Keeps d files w h =
        and_then_partial (All Found) I (file_descriptor_by_filename c d w) _ (found_by_name d w)
          (λ fs w' good. store_files-Keeps fs files w' good h)

    fetch_all-Keeps :
        (ds : List String) (files : Files) (w : World)
        → I files
        → IfReturns I (fetch_all c rec ds files w)
    unfolding fetch_all
    fetch_all-Keeps [] files w h = h
    fetch_all-Keeps (d ∷ ds) files w h = elim (Option-cases (Dict.lookup d files)) [
      | inl new ↦
          rw (new, fetch_all)
            (and_then_partial I I
              (and_then (file_descriptor_by_filename c d w) (λ fs. store_files c rec fs files))
              (fetch_all c rec ds) (fetch_one-Keeps d files w h) (fetch_all-Keeps ds))
      | inr (old, there) ↦ rw (there, fetch_all) (fetch_all-Keeps ds files w h)
    ]

  add_dependencies-Keeps :
      (fuel : ℕ) (name : String) (files : Files) (w : World)
      → I files
      → IfReturns I (add_dependencies c fuel name files w)
  unfolding add_dependencies
  add_dependencies-Keeps zero name files w h = tt
  add_dependencies-Keeps (suc fuel) name files w h =
      fetch_all-Keeps (add_dependencies c fuel) (add_dependencies-Keeps fuel)
        (dependencies (Dict.lookup name files)) files w h

  pub complete-Keeps :
      (fuel : ℕ) (names : List String) (files : Files) (w : World)
      → I files
      → IfReturns I (complete c fuel names files w)
  unfolding complete
  complete-Keeps fuel [] files w h = h
  complete-Keeps fuel (name ∷ names) files w h =
      and_then_partial I I (add_dependencies c fuel name files w) (complete c fuel names)
        (add_dependencies-Keeps fuel name files w h) (complete-Keeps fuel names)

module _ (G : String → File → Type 0) where
  pub Holds-insert :
      (files : Files) (n : String) (f : File)
      → Holds G files
      → G n f
      → Holds G (Dict.insert n f files)
  Holds-insert files n f h g k f' q = elim (Bool-cases (k == n)) [
    | inl same ↦
        let e : k ≡ n = ground arith in
        let e' : f' ≡ f = ground (arith, lookup-insert k n f files) in rw (e, e') g
    | inr apart ↦ h k f' (ground (arith, lookup-insert k n f files))
  ]

  add_file-Holds :
      (prefix : String) (f : File) (acc : List String × Files)
      → G f.name (annotate_http_rule prefix f)
      → Holds G acc.1
      → Holds G (add_file prefix f acc).1
  unfolding add_file
  add_file-Holds prefix f (names, files) g h = elim (Option-cases (Dict.lookup f.name files)) [
    | inl new ↦ rw (new, add_file) (Holds-insert files f.name (annotate_http_rule prefix f) h g)
    | inr (old, there) ↦ rw (there, add_file) h
  ]

  add_files-Holds :
      (prefix : String) (fs : List File) (acc : List String × Files)
      → All (λ (f : File). G f.name f × ((p : String) → G f.name (annotate_http_rule p f))) fs
      → Holds G acc.1
      → Holds G (add_files prefix fs acc).1
  unfolding add_files
  add_files-Holds prefix [] acc good h = h
  add_files-Holds prefix (f ∷ fs) acc (g, good) h =
      add_files-Holds prefix fs (add_file prefix f acc) good
        (add_file-Holds prefix f acc (g.1 prefix) h)

  module _ (c : Client)
      (good_by_name : (d : String) (w : c.World)
        → IfReturns (Good G) (file_descriptor_by_filename c d w))
      (good_by_symbol : (d : String) (w : c.World)
        → IfReturns (Good G) (file_descriptor_by_symbol c d w)) where
    open c use {World}

    complete-Holds :
        (fuel : ℕ) (names : List String) (files : Files) (w : World)
        → Holds G files
        → IfReturns (Holds G) (complete c fuel names files w)
    complete-Holds =
        complete-Keeps c (Holds G) (λ f. G f.name f)
          (λ files f new g h. Holds-insert files f.name f h g)
          λ d w.
            IfReturns-mono (Good G) (All (λ f. G f.name f)) (λ fs h. All-mono fs (λ f g. g.0) h)
              (file_descriptor_by_filename c d w) (good_by_name d w)

    collect-Holds :
        (prefix : String) (services : List String) (acc : List String × Files) (w : World)
        → Holds G acc.1
        → IfReturns (λ r. Holds G r.1) (collect c prefix services acc w)
    unfolding collect
    collect-Holds prefix [] acc w h = h
    collect-Holds prefix (s ∷ services) acc w h =
        and_then_partial (Good G) (λ (r : List String × Files). Holds G r.1)
          (file_descriptor_by_symbol c s w) _ (good_by_symbol s w)
          λ fs w2 good.
            collect-Holds prefix services (add_files prefix fs acc) w2
              (add_files-Holds prefix fs acc good h)

    -- Every file that is gathered is good under the name at which it stands.
    pub gather-Holds :
        (fuel : ℕ) (prefix : String) (services : List String) (w : World)
        → IfReturns (λ r. Holds G r.1) (gather c fuel prefix services w)
    unfolding gather
    gather-Holds fuel prefix services w =
        and_then_partial (λ (r : List String × Files). Holds G r.1)
          (λ (r : List String × Files). Holds G r.1) (collect c prefix services ([], []) w) _
          (collect-Holds prefix services ([], []) w (λ n f q. cc (lookup-nil {V = File} n)))
          λ acc w1 h.
            and_then_partial (Holds G) (λ (r : List String × Files). Holds G r.1)
              (complete c fuel acc.0 acc.1 w1) _ (complete-Holds fuel acc.0 acc.1 w1 h)
              (λ files w2 h2. h2)
