-- ===== src/Toposort/Contained.antt =====
-- `topoSort` on a map that has every import of every file, as `getFileDescriptorSet` gathers it.
use transflect.Base.{
  ℕ, ◌<◌, String, ◌≡◌, Bool, true, false, ◌||◌, some, List, [], ◌∷◌, arith, ◌==◌, string_eq,
  contains, All,
}
use transflect.Base.Dict
use transflect.Base.Dict.{has}
use transflect.Descriptor.{File}
use transflect.Toposort.{Files, topo_sort}
use transflect.Toposort.Order.{absent, InOrder, InOrder-cong}
use transflect.Toposort.Sorted.{IsAcyclic, Below, Sorts, topo_sort-Sorts}

-- The map has every import of every file.
abbrev pub HasImports : Files → Type 0
HasImports files =
    (n : String) (f : File) (d : String)
    → Dict.lookup n files ≡ some f
    → contains f.dependency d ≡ true
    → has files d ≡ true

-- Names that no file of the list imports need not be done.
InOrder-less :
    (gone done : String → Bool) (out : List File)
    → All (λ (f : File). (d : String) → contains f.dependency d ≡ true → gone d ≡ false) out
    → InOrder (λ d. gone d || done d) out
    → InOrder done out
InOrder-less gone done [] h order = tt
InOrder-less gone done (f ∷ out) (here, h) (new, ready, order) = (
  ground arith,
  λ d p. ground (arith, here d p, ready d p),
  InOrder-less gone (λ d. d == f.name || done d) out h
      (InOrder-cong _ _ out (λ d. ground arith) order),
)

imports-there :
    (files : Files) (out : List File)
    → HasImports files
    → All (λ (f : File). Dict.lookup f.name files ≡ some f) out
    → All (λ (f : File). (d : String) → contains f.dependency d ≡ true → absent files d ≡ false) out
imports-there files [] has_imports taken = tt
imports-there files (f ∷ out) has_imports (there, taken) = (
  λ d p. ground (arith, has_imports f.name f d there p),
  imports-there files out has_imports taken,
)

-- If the map has every import of every file, and the imports run in no circle, the list that
-- `topoSort` gives is complete by itself: no file comes twice, and each import of each file is the
-- name of an earlier file of the list.
pub topo_sort-InOrder :
    (rank : String → ℕ) (depth r : ℕ) (names : List String) (files : Files)
    → r < depth
    → IsAcyclic rank files
    → Below rank r names files
    → HasImports files
    → (out : List File) × (files' : Files) × (topo_sort depth names files ≡ some (out, files'))
      × InOrder (λ d. false) out
      × Sorts rank r names files out files'
topo_sort-InOrder rank depth r names files fits acyclic below has_imports =
    let (out, files', e, sorts) = topo_sort-Sorts rank depth r names files fits acyclic below in
    let order = InOrder-cong _ _ out (λ d. ground arith) sorts.order in
    (
      out,
      files',
      e,
      InOrder-less (absent files) (λ d. false) out (imports-there files out has_imports sorts.taken)
          order,
      sorts,
    )
