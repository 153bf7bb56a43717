-- ===== src/Reflection/Gathered.antt =====
-- The files that `getFileDescriptorSet` has before it sorts them.
use transflect.Base.{
  ℕ, ◌≤◌, ◌<◌, String, ◌≡◌, true, Option-cases, inl, inr, some, List, [], ◌∷◌, arith, string_eq,
  contains, contains-append, length,
}
use transflect.Base.Dict
use transflect.Base.Dict.{has, lookup-insert, lookup-nil}
use transflect.Descriptor.{File, annotate_http_rule}
use transflect.Toposort.{Files}
use transflect.Reflection.{
  Client, add_file, add_files, file_descriptor_by_symbol, collect, complete, gather,
}
use transflect.Reflection.Closure.{missing, Returns, Returns-mono, and_then_rule}
use transflect.Reflection.Streams.{EndsStreams, by_symbol-Ends, IsServer}
use transflect.Reflection.Complete.{complete-closes}

-- The names are those of the map.
abbrev pub Covers : List String × Files → Type 0
Covers (names, files) = (n : String) → contains names n ≡ has files n

add_file-Covers :
    (prefix : String) (f : File) (acc : List String × Files)
    → Covers acc
    → Covers (add_file prefix f acc)
unfolding add_file
add_file-Covers prefix f (names, files) covers n = ground (
  arith,
  covers n,
  covers f.name,
  contains-append names (f.name ∷ []) n,
  lookup-insert n f.name (annotate_http_rule prefix f) files,
)

pub add_files-Covers :
    (prefix : String) (fs : List File) (acc : List String × Files)
    → Covers acc
    → Covers (add_files prefix fs acc)
unfolding add_files
add_files-Covers prefix [] acc covers = covers
add_files-Covers prefix (f ∷ fs) acc covers =
    add_files-Covers prefix fs (add_file prefix f acc) (add_file-Covers prefix f acc covers)

missing-length : (us : List String) (files : Files) → missing us files ≤ length us
missing-length [] files = omega arith
missing-length (u ∷ us) files = ground (arith, missing-length us files)

module _ (c : Client) where
  open c use {World}

  collect-Covers :
      (streams : EndsStreams c) (prefix : String) (services : List String)
      (acc : List String × Files) (w : World)
      → Covers acc
      → Returns Covers (collect c prefix services acc w)
  unfolding collect
  collect-Covers streams prefix [] acc w covers = covers
  collect-Covers streams prefix (s ∷ services) acc w covers =
      and_then_rule (λ _. Unit {0}) Covers (file_descriptor_by_symbol c s w) _
        (by_symbol-Ends c streams s w)
        λ fs w2 _.
          collect-Covers streams prefix services (add_files prefix fs acc) w2
            (add_files-Covers prefix fs acc covers)

  -- The names are in the map, and so is all that a file of the map imports.
  abbrev pub IsClosed : List String × Files → Type 0
  IsClosed (names, files) =
      ((n : String) → contains names n ≡ true → has files n ≡ true)
      × ((n : String) (f : File) (d : String)
          → Dict.lookup n files ≡ some f
          → contains f.dependency d ≡ true
          → has files d ≡ true)

  -- Let a server answer each request for a file by its name with files among which it is, from a
  -- universe of finitely many names, and end each stream behind its closing. Then, on fuel above their number, the files of any services are
  -- gathered in finitely many steps: the run ends, and if it ends without an error and a panic, the
  -- map has a file for each of the names and every import of every file.
  pub gather-closes :
      (universe : List String) (server : IsServer c universe) (fuel : ℕ) (prefix : String)
      (services : List String) (w : World)
      → length universe < fuel
      → Returns IsClosed (gather c fuel prefix services w)
  unfolding gather
  gather-closes universe server fuel prefix services w fits =
      and_then_rule Covers IsClosed (collect c prefix services ([], []) w) _
        (collect-Covers server.streams prefix services ([], []) w
          (λ n. ground (arith, lookup-nil {V = File} n)))
        λ acc w1 covers.
          and_then_rule (λ files. IsClosed (acc.0, files)) IsClosed (complete c fuel acc.0 acc.1 w1)
            _
            (Returns-mono _ (λ files. IsClosed (acc.0, files))
              (λ files (kept, closed). (
                λ n p. elim (Option-cases (Dict.lookup n acc.1)) [
                  | inl gone ↦ ground (arith, covers n)
                  | inr (f, there) ↦ ground (arith, kept n f there)
                ],
                closed,
              ))
              (complete c fuel acc.0 acc.1 w1)
              (complete-closes c universe server fuel acc.0 acc.1 w1
                (omega (arith, missing-length universe acc.1)) (λ n p. ground (arith, covers n))))
            λ files w2 closed. closed
