-- ===== src/Tests/Files.antt =====
-- File descriptors: one file that imports another, and one that imports itself.
use transflect.Base.{
  ℕ, ◌≡◌, ◌≢◌, refl, String, Bool, false, none, some, List, [], ◌∷◌, arith, ◌==◌, string_eq,
  if◌then◌else◌,
}
use transflect.Base.Dict
use transflect.Descriptor.{File, annotate_http_rule}
use transflect.Descriptor.Annotated.{rules, expected_rules, rules-annotate_http_rule}
use transflect.Toposort.{Files, topo_sort}
use transflect.Toposort.Sorted.{IsAcyclic, Below, Sorts, topo_sort-Sorts}
use transflect.Toposort.Contained.{HasImports}
use transflect.Toposort.Circle.{IsCircle, topo_sort-circle}

abbrev pub base_file : File
base_file = record {
  name = "base.proto";
  package_name = "shop";
  dependency = [];
  services = [];
  rest = "";
}

abbrev pub cart_file : File
cart_file = record {
  name = "cart.proto";
  package_name = "shop";
  dependency = "base.proto" ∷ "gone.proto" ∷ [];
  services =
      (record {
        name = "Cart";
        methods =
            (record { name = "Add"; options = none })
            ∷ (record {
              name = "Get";
              options = some (record {
                http = some (record { pattern = "get"; path = "/cart"; body = "" });
                rest = "";
              });
            })
            ∷ [];
      })
      ∷ [];
  rest = "";
}

abbrev files : Files
files = ("cart.proto", cart_file) ∷ ("base.proto", base_file) ∷ []

abbrev rank : String → ℕ
rank n = if n == "cart.proto" then 1 else 0

abbrev cart_name : String
cart_name = "cart.proto"

tests-differ : ((cart_name == "base.proto") ≡ false) × ((cart_name == "gone.proto") ≡ false)
unfolding string_eq
tests-differ = (refl, refl)

names-differ : (cart_name ≢ "base.proto") × (cart_name ≢ "gone.proto")
names-differ = (λ e. ground (arith, tests-differ), λ e. ground (arith, tests-differ))

files-IsAcyclic : IsAcyclic rank files
unfolding Dict.lookup
files-IsAcyclic = record {
  keyed = λ n f q. ground arith;
  ranked = λ n f d q m p. ground (arith, names-differ);
}

files-Below : Below rank 2 ("cart.proto" ∷ []) files
files-Below d m p = ground arith

topo_sort-Sorts_example :
    (out : List File) × (files' : Files) × (topo_sort 3 ("cart.proto" ∷ []) files
      ≡ some (out, files'))
    × Sorts rank 2 ("cart.proto" ∷ []) files out files'
topo_sort-Sorts_example =
    topo_sort-Sorts rank 3 2 ("cart.proto" ∷ []) files (omega arith) files-IsAcyclic files-Below

-- The same run computed.
sorted : topo_sort 3 ("cart.proto" ∷ []) files ≡ some (base_file ∷ cart_file ∷ [], [])
unfolding topo_sort Dict.lookup Dict.erase string_eq
sorted = refl

rules-annotate_http_rule_example :
    rules (annotate_http_rule "/api" cart_file) ≡ expected_rules "/api" cart_file
rules-annotate_http_rule_example = rules-annotate_http_rule "/api" cart_file

-- The first file without the import that is not there.
abbrev full_files : Files
full_files =
    ("cart.proto", record cart_file { dependency = "base.proto" ∷ [] })
    ∷ ("base.proto", base_file)
    ∷ []

full_files-IsAcyclic : IsAcyclic rank full_files
unfolding Dict.lookup
full_files-IsAcyclic = record {
  keyed = λ n f q. ground arith;
  ranked = λ n f d q m p. ground (arith, names-differ);
}

full_files-Below : Below rank 2 ("cart.proto" ∷ []) full_files
full_files-Below d m p = ground arith

full_files-HasImports : HasImports full_files
unfolding Dict.lookup
full_files-HasImports n f d q p = ground (arith, names-differ)

abbrev self_file : File
self_file = record base_file { name = "self.proto"; dependency = "self.proto" ∷ [] }

abbrev self_files : Files
self_files = ("self.proto", self_file) ∷ []

abbrev is_self : String → Bool
is_self n = n == "self.proto"

self-IsCircle : IsCircle is_self self_files
unfolding Dict.lookup
self-IsCircle n h = (self_file, ground arith, "self.proto", ground arith, ground arith)

topo_sort-circle_example : topo_sort 100 ("self.proto" ∷ []) self_files ≡ none
topo_sort-circle_example =
    topo_sort-circle is_self 100 ("self.proto" ∷ []) self_files "self.proto" self-IsCircle
      (ground arith) (ground arith)
