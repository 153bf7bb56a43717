-- ===== src/Services.antt =====
-- The choice of the services that are transcoded: `filterGRPCServices` and `mapFromString` of
-- cmd/transflect-operator/envoyfilter.go.
pub mod Chosen
use transflect.Base.{
  ℕ, String, Bool, true, false, not, Option, none, some, List, [], ◌∷◌, ltb, ◌==◌, nat_eq,
  string_eq, if◌then◌else◌, length,
}
use transflect.Base.Dict
use transflect.Base.Dict.{Dict}
use transflect.Text.{split_commas, trim_space}
use transflect.Kube.{ReplicaSet, get}
use transflect.Kube.Annotation
use transflect.Outcome.{Outcome, ok, panic}

-- The loop over the pieces of the text.
set_all : Dict String Bool → List String → Dict String Bool
set_all m [] = m
set_all m (e ∷ es) = set_all (Dict.insert (trim_space e) true m) es

-- `nil` and an empty map answer alike.
unfoldable pub map_from_string : String → Dict String Bool
unfolding set_all
map_from_string s = if s == "" then [] else set_all [] (split_commas s)

bool_or_false : Option Bool → Bool
bool_or_false none = false
bool_or_false (some b) = b

-- `m[s]`
unfoldable pub holds : Dict String Bool → String → Bool
unfolding bool_or_false
holds m s = bool_or_false (Dict.lookup s m)

-- The two loops that append to `result`.
keep_others : Dict String Bool → List String → List String
keep_others exclude [] = []
keep_others exclude (s ∷ services) =
    let rest = keep_others exclude services in if not (holds exclude s) then s ∷ rest else rest

keep_named : Dict String Bool → List String → List String
keep_named include [] = []
keep_named include (s ∷ services) =
    let rest = keep_named include services in if holds include s then s ∷ rest else rest

-- `make` panics on a negative capacity.
unfoldable pub filter_grpc_services : List String → ReplicaSet → Outcome (List String)
unfolding keep_others keep_named
filter_grpc_services services rs =
    let exclude = map_from_string (get rs.annotations Annotation.exclude) in
    let include = map_from_string (get rs.annotations Annotation.include) in
    if ltb 0 (length exclude)
    then (if ltb (length services) (length exclude)
        then panic "runtime error: makeslice: cap out of range"
        else ok (keep_others exclude services))
    else if ltb 0 (length include)
    then ok (keep_named include services)
    else ok services
