-- ===== src/Toposort/Circle.antt =====
-- `topoSort` on files that import one another in a circle. A file leaves the map only after the call
-- for its dependencies.
use transflect.Base.{
  ℕ, zero, suc, String, Option-cases, inl, inr, ◌≡◌, refl, ◌∙◌, Bool, Bool-cases, true, false, none,
  some, List, [], ◌∷◌, arith, string_eq, contains,
}
use transflect.Base.Dict
use transflect.Base.Dict.{lookup-erase}
use transflect.Descriptor.{File}
use transflect.Toposort.{Files, Sorting, join, take_file, visit, sort_loop, topo_sort}

module _ (circle : String → Bool) where
  -- Each name of the circle has a file in the map that imports a name of the circle.
  abbrev pub IsCircle : Files → Type 0
  IsCircle files =
      (n : String)
      → circle n ≡ true
      → (f : File) × (Dict.lookup n files ≡ some f)
        × (d : String) × (contains f.dependency d ≡ true)
        × (circle d ≡ true)

  -- A call that returned has met no name of the circle, and has left the files of the circle.
  abbrev Avoids : List String → Files → Sorting → Type 0
  Avoids names files none = Unit
  Avoids names files (some (out, files')) =
      ((n : String) → circle n ≡ true → Dict.lookup n files' ≡ Dict.lookup n files)
      × ((n : String) → contains names n ≡ true → circle n ≡ false)

  kept-IsCircle :
      (files files' : Files)
      → ((n : String) → circle n ≡ true → Dict.lookup n files' ≡ Dict.lookup n files)
      → IsCircle files
      → IsCircle files'
  kept-IsCircle files files' same c n h = let (f, e, d, m, p) = c n h in (f, same n h ∙ e, d, m, p)

  outside :
      {name : String} (files : Files) {file : File}
      → IsCircle files
      → Dict.lookup name files ≡ some file
      → ((n : String) → contains file.dependency n ≡ true → circle n ≡ false)
      → circle name ≡ false
  outside {name} files c present free = elim (Bool-cases (circle name)) [
    | inl h ↦ let (f, e, d, m, p) = c name h in ground (arith, free d)
    | inr h ↦ h
  ]

  skip :
      (name : String) (names : List String) (files : Files)
      → Dict.lookup name files ≡ none
      → IsCircle files
      → (e : Sorting) → Avoids names files e
      → Avoids (name ∷ names) files e
  skip name names files gone c none h = tt
  skip name names files gone c (some (out, files')) (same, free) = (
    same,
    λ n m. elim (Bool-cases (circle n)) [
      | inl h ↦ let (f, e, d, q, p) = c n h in ground (arith, free n)
      | inr h ↦ h
    ],
  )

  module _ {name : String} (files files1 : Files) (names : List String)
      (out_of : circle name ≡ false)
      (same : (n : String) → circle n ≡ true → Dict.lookup n files1 ≡ Dict.lookup n files) where
    erased-same :
        (n : String)
        → circle n ≡ true
        → Dict.lookup n (Dict.erase name files1) ≡ Dict.lookup n files
    erased-same n h = ground (arith, same n h, lookup-erase n name files1)

    join-Avoids :
        (before : List File) (file : File) (e : Sorting)
        → Avoids names (Dict.erase name files1) e
        → Avoids (name ∷ names) files (join before file e)
    unfolding join
    join-Avoids before file none h = tt
    join-Avoids before file (some (after, files2)) (kept, free) =
        (λ n h. kept n h ∙ erased-same n h, λ n m. ground (arith, free n))

  module _ (sort : List String → Files → Sorting)
      (sort-Avoids : (names : List String) (files : Files)
        → IsCircle files
        → Avoids names files (sort names files)) where
    take_file-Avoids :
        (rest : Files → Sorting) (name : String) (names : List String) (files : Files) (file : File)
        → IsCircle files
        → Dict.lookup name files ≡ some file
        → ((files' : Files) → IsCircle files' → Avoids names files' (rest files'))
        → (e : Sorting) → Avoids file.dependency files e
        → Avoids (name ∷ names) files (take_file rest name file e)
    unfolding take_file
    take_file-Avoids rest name names files file c present ok none h = tt
    take_file-Avoids rest name names files file c present ok (some (before, files1)) (same, free) =
        let out_of = outside files c present free in
        join-Avoids files files1 names out_of same before file (rest (Dict.erase name files1)) (
          ok (Dict.erase name files1) (
            kept-IsCircle files (Dict.erase name files1)
              (erased-same files files1 names out_of same) c))

    sort_loop-Avoids :
        (names : List String) (files : Files)
        → IsCircle files
        → Avoids names files (sort_loop sort names files)
    unfolding sort_loop
    sort_loop-Avoids [] files c = (λ n h. refl, λ n m. cc)
    sort_loop-Avoids (name ∷ names) files c = elim (Option-cases (Dict.lookup name files)) [
      | inl gone ↦
          rw (gone, visit)
            (skip name names files gone c (sort_loop sort names files)
              (sort_loop-Avoids names files c))
      | inr (file, present) ↦
          rw (present, visit)
            (take_file-Avoids (sort_loop sort names) name names files file c present
              (λ files' c'. sort_loop-Avoids names files' c') (sort file.dependency files)
              (sort-Avoids file.dependency files c))
    ]

  topo_sort-Avoids :
      (depth : ℕ) (names : List String) (files : Files)
      → IsCircle files
      → Avoids names files (topo_sort depth names files)
  unfolding topo_sort
  topo_sort-Avoids zero names files c = tt
  topo_sort-Avoids (suc depth) names files c =
      sort_loop-Avoids (topo_sort depth) (topo_sort-Avoids depth) names files c

  -- If the map holds files that import one another in a circle and one of the names is in the
  -- circle, `topoSort` returns at no depth of recursion: the recursion never ends.
  pub topo_sort-circle :
      (depth : ℕ) (names : List String) (files : Files) (n : String)
      → IsCircle files
      → contains names n ≡ true
      → circle n ≡ true
      → topo_sort depth names files ≡ none
  topo_sort-circle depth names files n c m h =
      go (topo_sort depth names files) (topo_sort-Avoids depth names files c)
    where
      go : (e : Sorting) → Avoids names files e → e ≡ none
      go none a = refl
      go (some (out, files')) (same, free) = ground (arith, free n)
