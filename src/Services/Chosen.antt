-- ===== src/Services/Chosen.antt =====
-- Which services remain, described by the names listed in the annotations.
use mathlib.Core.List.{map, cons-ne-nil}
use transflect.Base.{
  ℕ, suc, ◌+◌, ◌<◌, String, ◌≡◌, refl, ◌≢◌, ◌∙◌, Bool, true, false, not, ◌||◌, ◌&&◌, ltb, List, [],
  ◌∷◌, arith, ◌==◌, string_eq, if◌then◌else◌, length, contains, Bool-cases, inl, inr,
}
use transflect.Base.Dict
use transflect.Base.Dict.{Dict, lookup-insert, lookup-nil, length-insert, has}
use transflect.Text.{split_commas, trim_space, split_commas-ne-nil}
use transflect.Kube.{ReplicaSet, get}
use transflect.Kube.Annotation
use transflect.Outcome.{ok, panic}
use transflect.Services.{
  set_all, map_from_string, holds, keep_others, keep_named, filter_grpc_services,
}

-- The names that an annotation lists: the pieces between commas, with the space around them off.
unfoldable pub listed : String → List String
listed s = if s == "" then [] else map trim_space (split_commas s)

-- The services for which `p` holds, in the order given.
pub select : (String → Bool) → List String → List String
select p [] = []
select p (s ∷ services) = let rest = select p services in if p s then s ∷ rest else rest

holds-set_all :
    (m : Dict String Bool) (es : List String) (s : String)
    → holds (set_all m es) s ≡ (contains (map trim_space es) s || holds m s)
unfolding set_all holds
holds-set_all m [] s = refl
holds-set_all m (e ∷ es) s =
    holds-set_all (Dict.insert (trim_space e) true m) es s
    ∙ ground (arith, lookup-insert s (trim_space e) true m)

holds-nil : (s : String) → holds [] s ≡ false
unfolding holds
holds-nil s = rw lookup-nil

holds-map_from_string : (a s : String) → holds (map_from_string a) s ≡ contains (listed a) s
unfolding map_from_string listed
holds-map_from_string a s = ground (arith, holds-set_all [] (split_commas a) s, holds-nil s)

-- How many names of the list are new behind those seen.
abbrev distinct_after : List String → List String → ℕ
distinct_after seen [] = 0
distinct_after seen (e ∷ es) =
    let later = suc (distinct_after (e ∷ seen) es) in
    if contains seen e then distinct_after seen es else later

-- How many different names the list holds.
abbrev pub distinct : List String → ℕ
distinct = distinct_after []

length-set_all :
    (m : Dict String Bool) (seen es : List String)
    → ((s : String) → has m s ≡ contains seen s)
    → length (set_all m es) ≡ length m + distinct_after seen (map trim_space es)
unfolding set_all
length-set_all m seen [] h = omega arith
length-set_all m seen (e ∷ es) h = elim (Bool-cases (contains seen (trim_space e))) [
  | inl old ↦ ground (
    arith,
    h (trim_space e),
    length-insert (trim_space e) true m,
    length-set_all (Dict.insert (trim_space e) true m) seen es
        (λ s. ground (arith, h s, lookup-insert s (trim_space e) true m)),
  )
  | inr new ↦ ground (
    arith,
    h (trim_space e),
    length-insert (trim_space e) true m,
    length-set_all (Dict.insert (trim_space e) true m) (trim_space e ∷ seen) es
        (λ s. ground (arith, h s, lookup-insert s (trim_space e) true m)),
  )
]

has-nil : (s : String) → has {V = Bool} [] s ≡ false
unfolding Dict.lookup
has-nil s = refl

length-map_from_string : (a : String) → length (map_from_string a) ≡ distinct (listed a)
unfolding map_from_string listed
length-map_from_string a = ground (arith, length-set_all [] [] (split_commas a) (λ s. has-nil s))

distinct-pos : (es : List String) → es ≢ [] → 0 < distinct es
distinct-pos [] h = absurd (h refl)
distinct-pos (e ∷ es) h = omega arith

map-ne-nil : (es : List String) → es ≢ [] → map trim_space es ≢ []
map-ne-nil [] h = h
map-ne-nil (e ∷ es) h = cons-ne-nil _ _

distinct-listed-pos : (a : String) → a ≢ "" → 0 < distinct (listed a)
unfolding listed
distinct-listed-pos a h =
    let named =
      distinct-pos (map trim_space (split_commas a))
        (map-ne-nil (split_commas a) (split_commas-ne-nil a)) in
    ground arith

distinct-listed-empty : distinct (listed "") ≡ 0
unfolding listed string_eq
distinct-listed-empty = refl

keep_others-eq-select :
    (a : String) (services : List String)
    → keep_others (map_from_string a) services ≡ select (λ s. not (contains (listed a) s)) services
unfolding keep_others select
keep_others-eq-select a [] = refl
keep_others-eq-select a (s ∷ services) =
    ground (arith, keep_others-eq-select a services, holds-map_from_string a s)

keep_named-eq-select :
    (a : String) (services : List String)
    → keep_named (map_from_string a) services ≡ select (contains (listed a)) services
unfolding keep_named select
keep_named-eq-select a [] = refl
keep_named-eq-select a (s ∷ services) =
    ground (arith, keep_named-eq-select a services, holds-map_from_string a s)

-- An exclusion list goes before an inclusion list; with neither, every service remains.
pub chosen : String → String → List String → List String
chosen exclude include services =
    if not (exclude == "")
    then select (λ s. not (contains (listed exclude) s)) services
    else if not (include == "")
    then select (contains (listed include)) services
    else services

-- For every ReplicaSet and list of services, the choice panics exactly when the exclusion
-- annotation is not empty and lists more different names than there are services. On every other
-- input it gives the services that the annotations choose: those not excluded, or those included
-- where no exclusion is given, or all of them, in the order given.
pub filter_grpc_services_exact :
    (services : List String) (rs : ReplicaSet)
    → let exclude = get rs.annotations Annotation.exclude in
      let include = get rs.annotations Annotation.include in
      filter_grpc_services services rs ≡ (
        if not (exclude == "") && ltb (length services) (distinct (listed exclude))
        then panic "runtime error: makeslice: cap out of range"
        else ok (chosen exclude include services))
unfolding filter_grpc_services chosen
filter_grpc_services_exact services rs =
    let exclude = get rs.annotations Annotation.exclude in
    let include = get rs.annotations Annotation.include in
    ground (
      arith,
      length-map_from_string exclude,
      length-map_from_string include,
      distinct-listed-pos exclude,
      distinct-listed-pos include,
      distinct-listed-empty,
      keep_others-eq-select exclude services,
      keep_named-eq-select include services,
    )
