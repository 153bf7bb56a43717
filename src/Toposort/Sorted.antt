-- ===== src/Toposort/Sorted.antt =====
-- `topoSort` on files whose dependencies do not run in circles.
use transflect.Base.{
  ℕ, zero, suc, ◌<◌, String, Option-cases, inl, inr, ◌≡◌, refl, true, false, ◌||◌, none, some, List,
  [], ◌∷◌, ◌++◌, arith, string_eq, contains, All, All-append, All-mono,
}
use transflect.Base.Dict
use transflect.Base.Dict.{has, lookup-erase}
use transflect.Descriptor.{File}
use transflect.Toposort.{Files, Sorting, join, take_file, visit, sort_loop, topo_sort}
use transflect.Toposort.Order.{names_of, absent, InOrder, InOrder-cong, InOrder-append}

module _ (rank : String → ℕ) where
  -- Each file stands under its name, and its dependencies that are in the map rank below it.
  pub record IsAcyclic (files : Files) : Type 0 where
    pub keyed : (n : String) (f : File) → Dict.lookup n files ≡ some f → f.name ≡ n
    pub ranked :
        (n : String) (f : File) (d : String)
        → Dict.lookup n files ≡ some f
        → contains f.dependency d ≡ true
        → has files d ≡ true
        → rank d < rank n

  -- Those of the names that are in the map rank below `r`.
  abbrev pub Below : ℕ → List String → Files → Type 0
  Below r names files = (d : String) → contains names d ≡ true → has files d ≡ true → rank d < r

  -- What sorting the names takes from `files` into `out`, and leaves in `files'`.
  pub record Sorts (r : ℕ) (names : List String) (files : Files) (out : List File) (files' : Files)
      : Type 0 where
    pub order : InOrder (absent files) out
    pub left : (d : String) → absent files' d ≡ (contains (names_of out) d || absent files d)
    pub kept :
        (d : String) (f : File) → Dict.lookup d files' ≡ some f → Dict.lookup d files ≡ some f
    pub taken : All (λ (f : File). Dict.lookup f.name files ≡ some f) out
    pub low : All (λ (f : File). rank f.name < r) out
    pub covers : (d : String) → contains names d ≡ true → absent files' d ≡ true

  abbrev SortsEnd : ℕ → List String → Files → Sorting → Type 0
  SortsEnd r names files none = ⊥
  SortsEnd r names files (some (out, files')) = Sorts r names files out files'

  submap-IsAcyclic :
      {files files' : Files}
      → ((d : String) (f : File) → Dict.lookup d files' ≡ some f → Dict.lookup d files ≡ some f)
      → IsAcyclic files
      → IsAcyclic files'
  submap-IsAcyclic {files} {files'} sub h = record {
    keyed = λ n f q. h.keyed n f (sub n f q);
    ranked = λ n f d q m p. h.ranked n f d (sub n f q) m (present d p);
  }
    where
      present : (d : String) → has files' d ≡ true → has files d ≡ true
      present d p = elim (Option-cases (Dict.lookup d files')) [
        | inl e ↦ ground arith
        | inr (f, e) ↦ ground (arith, sub d f e)
      ]

  low-new :
      (out : List File) (n : String)
      → All (λ (f : File). rank f.name < rank n) out
      → contains (names_of out) n ≡ false
  low-new [] n h = refl
  low-new (f ∷ out) n (h, hs) = ground (arith, low-new out n hs)

  contains-names_of :
      (xs ys : List File) (d : String)
      → contains (names_of (xs ++ ys)) d ≡ (contains (names_of xs) d || contains (names_of ys) d)
  contains-names_of [] ys d = refl
  contains-names_of (x ∷ xs) ys d = ground (arith, contains-names_of xs ys d)

  erased-kept :
      {r : ℕ} {names : List String} {files files1 : Files} {out : List File} (name : String)
      → Sorts r names files out files1
      → (d : String) (f : File) → Dict.lookup d (Dict.erase name files1) ≡ some f
      → Dict.lookup d files ≡ some f
  erased-kept {files1} name deps d f q = deps.kept d f (ground (arith, lookup-erase d name files1))

  Sorts-nil : (r : ℕ) (files : Files) → Sorts r [] files [] files
  Sorts-nil r files = record {
    order = tt;
    left = λ d. refl;
    kept = λ d f q. q;
    taken = tt;
    low = tt;
    covers = λ d m. cc;
  }

  Sorts-skip :
      (r : ℕ) (name : String) (names : List String) (files : Files) (e : Sorting)
      → Dict.lookup name files ≡ none
      → SortsEnd r names files e
      → SortsEnd r (name ∷ names) files e
  Sorts-skip r name names files none gone h = h
  Sorts-skip r name names files (some (out, files')) gone h = record {
    order = h.order;
    left = h.left;
    kept = h.kept;
    taken = h.taken;
    low = h.low;
    covers = λ d m. ground (arith, h.left d, h.covers d);
  }

  module _ {r : ℕ} {name : String} {names : List String} {files files1 files2 : Files} {file : File}
      {before after : List File} (present : Dict.lookup name files ≡ some file)
      (key : file.name ≡ name) (below : rank name < r)
      (deps : Sorts (rank name) file.dependency files before files1)
      (later : Sorts r names (Dict.erase name files1) after files2) where
    join-order : InOrder (absent files) (before ++ (file ∷ after))
    join-order = InOrder-append (absent files) before (file ∷ after) deps.order (
      ground (arith, low-new before name deps.low),
      λ d m. ground (arith, deps.covers d m, deps.left d),
      InOrder-cong _ _ after (λ d. ground (arith, lookup-erase d name files1, deps.left d))
          later.order,
    )

    Sorts-join : Sorts r (name ∷ names) files (before ++ (file ∷ after)) files2
    Sorts-join = record {
      order = join-order;
      left = λ d. ground (
        arith,
        contains-names_of before (file ∷ after) d,
        later.left d,
        deps.left d,
        lookup-erase d name files1,
      );
      kept = λ d f q. erased-kept name deps d f (later.kept d f q);
      taken =
          All-append _ before (file ∷ after) deps.taken
            (ground arith, All-mono after (λ f q. erased-kept name deps f.name f q) later.taken);
      low =
          All-append _ before (file ∷ after) (All-mono before (λ f q. omega arith) deps.low)
            (ground arith, later.low);
      covers = λ d m. ground (arith, later.left d, later.covers d, lookup-erase d name files1);
    }

  module _ {r : ℕ} (name : String) (names : List String) {files : Files} {file : File}
      (acyclic : IsAcyclic files) (present : Dict.lookup name files ≡ some file)
      (below : Below r (name ∷ names) files) where
    lowered : rank name < r
    lowered = below name (ground arith) (ground arith)

    join-Sorts :
        (before : List File) (files1 : Files)
        → Sorts (rank name) file.dependency files before files1
        → (e : Sorting) → SortsEnd r names (Dict.erase name files1) e
        → SortsEnd r (name ∷ names) files (join before file e)
    unfolding join
    join-Sorts before files1 deps none h = h
    join-Sorts before files1 deps (some (after, files2)) h =
        Sorts-join present (acyclic.keyed name file present) lowered deps h

    take_file-Sorts :
        (rest : Files → Sorting)
        → ((files' : Files)
            → IsAcyclic files'
            → Below r names files'
            → SortsEnd r names files' (rest files'))
        → (e : Sorting) → SortsEnd (rank name) file.dependency files e
        → SortsEnd r (name ∷ names) files (take_file rest name file e)
    unfolding take_file
    take_file-Sorts rest ok none h = h
    take_file-Sorts rest ok (some (before, files1)) deps =
        join-Sorts before files1 deps (rest (Dict.erase name files1)) (
          ok (Dict.erase name files1) (submap-IsAcyclic (erased-kept name deps) acyclic) λ d m p.
            below d (ground arith) (ground (arith, lookup-erase d name files1, deps.left d)))

  module _ (sort : List String → Files → Sorting) (depth : ℕ)
      (sort-Sorts : (r : ℕ) (names : List String) (files : Files)
        → r < depth
        → IsAcyclic files
        → Below r names files
        → SortsEnd r names files (sort names files)) where
    sort_loop-Sorts :
        (r : ℕ) (names : List String) (files : Files)
        → r < suc depth
        → IsAcyclic files
        → Below r names files
        → SortsEnd r names files (sort_loop sort names files)
    unfolding sort_loop
    sort_loop-Sorts r [] files fits acyclic below = Sorts-nil r files
    sort_loop-Sorts r (name ∷ names) files fits acyclic below =
        elim (Option-cases (Dict.lookup name files)) [
          | inl gone ↦
              rw (gone, visit)
                (Sorts-skip r name names files (sort_loop sort names files) gone
                  (sort_loop-Sorts r names files fits acyclic (λ d m p. below d (ground arith) p)))
          | inr (file, present) ↦
              rw (present, visit)
                (take_file-Sorts name names acyclic present below (sort_loop sort names)
                  (λ files' acyclic' below'. sort_loop-Sorts r names files' fits acyclic' below')
                  (sort file.dependency files)
                  (sort-Sorts (rank name) file.dependency files
                    (omega (arith, lowered name names acyclic present below)) acyclic
                    (λ d m p. acyclic.ranked name file d present m p)))
        ]

  topo_sort-SortsEnd :
      (depth r : ℕ) (names : List String) (files : Files)
      → r < depth
      → IsAcyclic files
      → Below r names files
      → SortsEnd r names files (topo_sort depth names files)
  unfolding topo_sort
  topo_sort-SortsEnd zero r names files fits acyclic below = absurd (omega arith)
  topo_sort-SortsEnd (suc depth) r names files fits acyclic below =
      sort_loop-Sorts (topo_sort depth) depth (topo_sort-SortsEnd depth) r names files fits acyclic
        below

  -- On a map of files in which each file stands under its name and the dependencies run in no
  -- circle, so that a rank falls along them, `topoSort` returns with a depth of recursion above the
  -- ranks of the names. The result holds files of the map, each one once and behind those of its
  -- dependencies that are in the map; what is left of the map is the map without those files; and
  -- none of the names is left.
  pub topo_sort-Sorts :
      (depth r : ℕ) (names : List String) (files : Files)
      → r < depth
      → IsAcyclic files
      → Below r names files
      → (out : List File) × (files' : Files) × (topo_sort depth names files ≡ some (out, files'))
        × Sorts r names files out files'
  topo_sort-Sorts depth r names files fits acyclic below =
      go (topo_sort depth names files) (topo_sort-SortsEnd depth r names files fits acyclic below)
    where
      go :
          (e : Sorting)
          → SortsEnd r names files e
          → (out : List File) × (files' : Files) × (e ≡ some (out, files'))
            × Sorts r names files out files'
      go none h = absurd h
      go (some (out, files')) h = (out, files', refl, h)
