-- ===== src/Toposort.antt =====
-- `topoSort` of pkg/transflect/transflect.go.
pub mod Order
pub mod Sorted
pub mod Circle
pub mod Contained
use transflect.Base.{ℕ, zero, suc, String, Option, none, some, List, [], ◌∷◌, ◌++◌, string_eq}
use transflect.Base.Dict
use transflect.Base.Dict.{Dict}
use transflect.Descriptor.{File}

abbrev pub Files : Type 0
Files = Dict String File

-- What a call returns, and what it leaves of the map; `none` is a call that has not returned.
abbrev pub Sorting : Type 0
Sorting = Option (List File × Files)

-- `result = append(result, …)` for a file, with what its dependencies and the later names give.
unfoldable pub join : List File → File → Sorting → Sorting
join before file none = none
join before file (some (after, files)) = some (before ++ (file ∷ after), files)

-- Behind the recursive call for the dependencies of a file: the file goes, and the loop goes on.
unfoldable pub take_file : (Files → Sorting) → String → File → Sorting → Sorting
unfolding join
take_file rest name file none = none
take_file rest name file (some (before, files)) = join before file (rest (Dict.erase name files))

-- The body of the `for` loop, with the rest of the loop and what the map has at the name.
unfoldable pub visit :
    (List String → Files → Sorting) → (Files → Sorting) → String → Files → Option File → Sorting
visit sort rest name files none = rest files
visit sort rest name files (some file) = take_file rest name file (sort file.dependency files)

-- The `for` loop, over the recursive call.
unfoldable pub sort_loop : (List String → Files → Sorting) → List String → Files → Sorting
unfolding visit take_file
sort_loop sort [] files = some ([], files)
sort_loop sort (name ∷ names) files =
    visit sort (sort_loop sort names) name files (Dict.lookup name files)

-- On fuel for the depth of the recursion.
unfoldable pub topo_sort : ℕ → List String → Files → Sorting
unfolding sort_loop
topo_sort zero names files = none
topo_sort (suc depth) names files = sort_loop (topo_sort depth) names files
