-- ===== src/Toposort/Order.antt =====
-- Lists of files in which dependencies come first.
use mathlib.Core.Path.{fun_ext}
use transflect.Base.{
  String, ◌≡◌, refl, Bool, true, false, not, ◌||◌, List, [], ◌∷◌, ◌++◌, map, arith, ◌==◌, string_eq,
  contains,
}
use transflect.Base.Dict.{has}
use transflect.Descriptor.{File}
use transflect.Toposort.{Files}

abbrev pub names_of : List File → List String
names_of = map (λ (f : File). f.name)

abbrev pub absent : Files → String → Bool
absent files d = not (has files d)

-- Beginning with the names that are done, each file of the list is new, and each of its dependencies
-- is done or is the name of an earlier file of the list.
abbrev pub InOrder : (String → Bool) → List File → Type 0
InOrder done [] = Unit
InOrder done (f ∷ out) =
    (done f.name ≡ false)
    × ((d : String) → contains f.dependency d ≡ true → done d ≡ true)
    × InOrder (λ d. d == f.name || done d) out

pub InOrder-cong :
    (done done' : String → Bool) (out : List File)
    → ((d : String) → done d ≡ done' d)
    → InOrder done out
    → InOrder done' out
InOrder-cong done done' out same h = rw (← fun_ext same) h

pub InOrder-append :
    (done : String → Bool) (xs ys : List File)
    → InOrder done xs
    → InOrder (λ d. contains (names_of xs) d || done d) ys
    → InOrder done (xs ++ ys)
InOrder-append done [] ys hx hy = InOrder-cong _ done ys (λ d. refl) hy
InOrder-append done (x ∷ xs) ys (new, ready, hx) hy = (
  new,
  ready,
  InOrder-append (λ d. d == x.name || done d) xs ys hx (InOrder-cong _ _ ys (λ d. ground arith) hy),
)
