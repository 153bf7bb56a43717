-- ===== src/Reflection/Complete.antt =====
-- `addDependencies` of pkg/transflect/transflect.go, against a server with finitely many files.
use transflect.Base.{
  ℕ, zero, suc, ◌≤◌, ◌<◌, String, ◌≡◌, true, Option-cases, inl, inr, none, some, List, [], ◌∷◌,
  arith, string_eq, contains, All,
}
use transflect.Base.Dict
use transflect.Base.Dict.{has, lookup-insert, lookup-nil}
use transflect.Descriptor.{File}
use transflect.Toposort.{Files}
use transflect.Toposort.Order.{names_of}
use transflect.Reflection.{
  Client, Run, and_then, dependencies, file_descriptor_by_filename, store_files, fetch_all,
  add_dependencies, complete,
}
use transflect.Reflection.Closure.{
  missing, Grows, Grows-refl, Grows-trans, Grows-insert, has-kept, Returns, Returns-mono,
  and_then_rule, Answers, Ends-Returns, Stores, Completes, missing-Grows, missing-insert,
}
use transflect.Reflection.Streams.{IsServer, by_filename-Ends}

module _ (c : Client) (universe : List String) where
  open c use {World}

  abbrev Known : File → Type 0
  Known f = contains universe f.name ≡ true

  abbrev Reaches : ℕ → Files → Type 0
  Reaches fuel files = missing universe files ≤ fuel

  -- One name is there, and the others are stored behind it.
  Stores-then :
      (files : Files) {files1 : Files} (name : String) (names : List String)
      → Grows files files1
      → has files1 name ≡ true
      → (m : Run World Files) → Returns (Stores c universe names files1) m
      → Returns (Stores c universe (name ∷ names) files) m
  Stores-then files {files1} name names g there =
      Returns-mono (Stores c universe names files1) (Stores c universe (name ∷ names) files)
        λ files' (g', stored).
          (Grows-trans g g', λ d p. ground (arith, stored d, has-kept g' name there))

  module _ (fuel : ℕ) (rec : String → Files → World → Run World Files)
      (rec-Completes : (name : String) (files : Files) (w : World)
        → missing universe files < fuel
        → Returns (Completes c universe name files) (rec name files w)) where
    -- What the recursive call leaves for a file that was stored before it.
    inserted :
        (files : Files) (f : File) (w : World)
        → Reaches fuel files
        → Known f
        → Dict.lookup f.name files ≡ none
        → Returns
            (λ files'. Grows files files' × (has files' f.name ≡ true))
            (rec f.name (Dict.insert f.name f files) w)
    inserted files f w fits known new =
        let files1 = Dict.insert f.name f files in
        let stored = lookup-insert f.name f.name f files in
        Returns-mono (Completes c universe f.name files1)
          (λ files'. Grows files files' × (has files' f.name ≡ true))
          (λ files' (g, imports). (
            Grows-insert f new g (λ d p. imports f d (ground (arith, stored)) p),
            has-kept g f.name (ground (arith, stored)),
          ))
          (rec f.name files1 w)
          (rec-Completes f.name files1 w
            (omega (arith, missing-insert c universe files f known new)))

    store_files-Stores :
        (fs : List File) (files : Files) (w : World)
        → Reaches fuel files
        → All Known fs
        → Returns (Stores c universe (names_of fs) files) (store_files c rec fs files w)
    unfolding store_files
    store_files-Stores [] files w fits known = (Grows-refl files, λ d p. cc)
    store_files-Stores (f ∷ fs) files w fits (k, known) =
        elim (Option-cases (Dict.lookup f.name files)) [
          | inl new ↦
              rw (new, store_files)
                (and_then_rule (λ files1. Grows files files1 × (has files1 f.name ≡ true))
                  (Stores c universe (names_of (f ∷ fs)) files)
                  (rec f.name (Dict.insert f.name f files) w) (store_files c rec fs)
                  (inserted files f w fits k new)
                  (λ files1 w1 (g, there).
                    Stores-then files f.name (names_of fs) g there (store_files c rec fs files1 w1)
                      (store_files-Stores fs files1 w1 (omega (arith, missing-Grows c universe g))
                        known)))
          | inr (old, there) ↦
              rw (there, store_files)
                (Stores-then files f.name (names_of fs) (Grows-refl files) (ground arith)
                  (store_files c rec fs files w) (store_files-Stores fs files w fits known))
        ]

    module _ (server : IsServer c universe) where
      -- A file that is not there is asked for, and comes with what it imports.
      fetch_one :
          (files : Files) (d : String) (w : World)
          → Reaches fuel files
          → Returns
              (λ files'. Grows files files' × (has files' d ≡ true))
              (and_then (file_descriptor_by_filename c d w) (λ fs. store_files c rec fs files))
      fetch_one files d w fits =
          let asked = file_descriptor_by_filename c d w in
          and_then_rule (Answers c universe d) _ asked _
            (Ends-Returns (Answers c universe d) asked (by_filename-Ends c server.streams d w)
              (server.answers d w))
            λ fs w' (there, known).
              Returns-mono (Stores c universe (names_of fs) files)
                (λ files'. Grows files files' × (has files' d ≡ true))
                (λ files' (g, stored). (g, stored d there)) (store_files c rec fs files w')
                (store_files-Stores fs files w' fits known)

      fetch_all-Stores :
          (ds : List String) (files : Files) (w : World)
          → Reaches fuel files
          → Returns (Stores c universe ds files) (fetch_all c rec ds files w)
      unfolding fetch_all
      fetch_all-Stores [] files w fits = (Grows-refl files, λ d p. cc)
      fetch_all-Stores (d ∷ ds) files w fits = elim (Option-cases (Dict.lookup d files)) [
        | inl new ↦
            rw (new, fetch_all)
              (and_then_rule (λ files1. Grows files files1 × (has files1 d ≡ true))
                (Stores c universe (d ∷ ds) files)
                (and_then (file_descriptor_by_filename c d w) (λ fs. store_files c rec fs files))
                (fetch_all c rec ds) (fetch_one files d w fits)
                (λ files1 w1 (g, there).
                  Stores-then files d ds g there (fetch_all c rec ds files1 w1)
                    (fetch_all-Stores ds files1 w1 (omega (arith, missing-Grows c universe g)))))
        | inr (old, there) ↦
            rw (there, fetch_all)
              (Stores-then files d ds (Grows-refl files) (ground arith) (fetch_all c rec ds files w)
                (fetch_all-Stores ds files w fits))
      ]

  module _ (server : IsServer c universe) where
    add_dependencies-Completes :
        (fuel : ℕ) (name : String) (files : Files) (w : World)
        → missing universe files < fuel
        → Returns (Completes c universe name files) (add_dependencies c fuel name files w)
    unfolding add_dependencies dependencies
    add_dependencies-Completes zero name files w fits = absurd (omega arith)
    add_dependencies-Completes (suc fuel) name files w fits =
        let ds = dependencies (Dict.lookup name files) in
        Returns-mono (Stores c universe ds files) (Completes c universe name files)
          (λ files' (g, stored). (g, λ f d e p. ground (arith, stored d)))
          (fetch_all c (add_dependencies c fuel) ds files w)
          (fetch_all-Stores fuel (add_dependencies c fuel) (add_dependencies-Completes fuel) server
            ds files w (omega arith))

    -- What the loop over the names leaves: the map with all that the files at the names import.
    abbrev CompletesAll : List String → Files → Files → Type 0
    CompletesAll names files files' =
        Grows files files'
        × ((n : String) (f : File) (d : String)
            → contains names n ≡ true
            → Dict.lookup n files ≡ some f
            → contains f.dependency d ≡ true
            → has files' d ≡ true)

    complete-CompletesAll :
        (fuel : ℕ) (names : List String) (files : Files) (w : World)
        → missing universe files < fuel
        → Returns (CompletesAll names files) (complete c fuel names files w)
    unfolding complete
    complete-CompletesAll fuel [] files w fits = (Grows-refl files, λ n f d p q e. cc)
    complete-CompletesAll fuel (name ∷ names) files w fits =
        and_then_rule (Completes c universe name files) (CompletesAll (name ∷ names) files)
          (add_dependencies c fuel name files w) (complete c fuel names)
          (add_dependencies-Completes fuel name files w fits)
          λ files1 w1 (g, imports).
            Returns-mono (CompletesAll names files1) (CompletesAll (name ∷ names) files)
              (λ files' (g', rest). (
                Grows-trans g g',
                λ n f d p q e. ground (arith, rest n f d, g.kept n f q, has-kept g' d, imports f d),
              ))
              (complete c fuel names files1 w1)
              (complete-CompletesAll fuel names files1 w1
                (omega (arith, missing-Grows c universe g)))

    -- Let the names cover the map, and let a server answer each request for a file with files among
    -- which it is, from a universe of finitely many names. Then, on fuel above the number of those
    -- names that the map does not have, `addDependencies` over all the names returns; and if it
    -- returns no error, the map has the files that it had, and each file of it has all its imports
    -- in the map.
    pub complete-closes :
        (fuel : ℕ) (names : List String) (files : Files) (w : World)
        → missing universe files < fuel
        → ((n : String) → has files n ≡ true → contains names n ≡ true)
        → Returns
            (λ files'.
              ((n : String) (f : File)
                → Dict.lookup n files ≡ some f
                → Dict.lookup n files' ≡ some f)
              × ((n : String) (f : File) (d : String)
                  → Dict.lookup n files' ≡ some f
                  → contains f.dependency d ≡ true
                  → has files' d ≡ true))
            (complete c fuel names files w)
    complete-closes fuel names files w fits covered =
        Returns-mono (CompletesAll names files) _
          (λ files' (g, imports). (
            g.kept,
            λ n f d q p. elim (Option-cases (Dict.lookup n files)) [
              | inl new ↦ g.closed n f q new d p
              | inr (f', there) ↦ ground (arith, imports n f' d, covered n, g.kept n f' there)
            ],
          ))
          (complete c fuel names files w) (complete-CompletesAll fuel names files w fits)
