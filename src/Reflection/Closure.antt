-- ===== src/Reflection/Closure.antt =====
-- Maps of files that grow until they have all that their files import, and servers that have finitely
-- many files.
use transflect.Base.{
  ℕ, suc, ◌≤◌, ◌<◌, String, ◌≡◌, refl, true, false, Option-cases, inl, inr, none, some, List, [],
  ◌∷◌, arith, ◌==◌, string_eq, if◌then◌else◌, contains, All,
}
use transflect.Base.Dict
use transflect.Base.Dict.{has, lookup-insert}
use transflect.Outcome.{Outcome, ok, err, panic}
use transflect.Descriptor.{File}
use transflect.Toposort.{Files}
use transflect.Toposort.Order.{names_of}
use transflect.Reflection.{Client, Run, and_then}

-- How many of the names the map does not have.
abbrev pub missing : List String → Files → ℕ
missing [] files = 0
missing (u ∷ us) files = let n = missing us files in if has files u then n else suc n

missing-le :
    (us : List String) (files files' : Files)
    → ((d : String) → has files d ≡ true → has files' d ≡ true)
    → missing us files' ≤ missing us files
missing-le [] files files' sub = omega arith
missing-le (u ∷ us) files files' sub = ground (arith, missing-le us files files' sub, sub u)

missing-lt :
    (us : List String) (files files' : Files) (n : String)
    → ((d : String) → has files d ≡ true → has files' d ≡ true)
    → contains us n ≡ true
    → has files n ≡ false
    → has files' n ≡ true
    → missing us files' < missing us files
missing-lt [] files files' n sub m p q = cc
missing-lt (u ∷ us) files files' n sub m p q =
    ground (arith, missing-le us files files' sub, missing-lt us files files' n sub, sub u)

-- The map `files'` has the files of `files`, and has all that its other files import.
pub record Grows (files files' : Files) : Type 0 where
  pub kept : (n : String) (f : File) → Dict.lookup n files ≡ some f → Dict.lookup n files' ≡ some f
  pub closed :
      (n : String) (f : File)
      → Dict.lookup n files' ≡ some f
      → Dict.lookup n files ≡ none
      → (d : String) → contains f.dependency d ≡ true
      → has files' d ≡ true

pub has-kept :
    {files files' : Files}
    → Grows files files'
    → (d : String) → has files d ≡ true
    → has files' d ≡ true
has-kept {files} g d p = elim (Option-cases (Dict.lookup d files)) [
  | inl e ↦ ground arith
  | inr (f, e) ↦ ground (arith, g.kept d f e)
]

pub Grows-refl : (files : Files) → Grows files files
Grows-refl files = record { kept = λ n f q. q; closed = λ n f q e d p. cc }

pub Grows-trans : {xs ys zs : Files} → Grows xs ys → Grows ys zs → Grows xs zs
Grows-trans {xs} {ys} {zs} g h = record {
  kept = λ n f q. h.kept n f (g.kept n f q);
  closed = λ n f q e d p. elim (Option-cases (Dict.lookup n ys)) [
    | inl none_yet ↦ h.closed n f q none_yet d p
    | inr (f', there) ↦ has-kept h d (g.closed n f (ground (arith, h.kept n f' there)) e d p)
  ];
}

-- A file is stored, and then the map grows so far that it has all that the file imports.
pub Grows-insert :
    {files files' : Files} (f : File)
    → Dict.lookup f.name files ≡ none
    → Grows (Dict.insert f.name f files) files'
    → ((d : String) → contains f.dependency d ≡ true → has files' d ≡ true)
    → Grows files files'
Grows-insert {files} {files'} f new g imports = record {
  kept = λ n f' q. g.kept n f' (ground (arith, lookup-insert n f.name f files));
  closed = λ n f' q e d p. elim (Option-cases (Dict.lookup n (Dict.insert f.name f files))) [
    | inl e' ↦ g.closed n f' q e' d p
    | inr (f'', there) ↦
        ground (arith, lookup-insert n f.name f files, g.kept n f'' there, imports d)
  ];
}

has-insert :
    (files : Files) (f : File) (d : String)
    → has (Dict.insert f.name f files) d ≡ (if d == f.name then true else has files d)
has-insert files f d = ground (arith, lookup-insert d f.name f files)

-- `P` holds of the result of a run that returns, and an error or a panic is no matter.
abbrev pub Returns : {W A : Type 0} → (A → Type 0) → Run W A → Type 0
Returns P none = ⊥
Returns P (some (ok a, w)) = P a
Returns P (some (err e, w)) = Unit
Returns P (some (panic p, w)) = Unit

module _ {W A : Type 0} where
  pub Returns-mono :
      (P Q : A → Type 0) → ((a : A) → P a → Q a) → (m : Run W A) → Returns P m → Returns Q m
  Returns-mono P Q f none h = h
  Returns-mono P Q f (some (ok a, w)) h = f a h
  Returns-mono P Q f (some (err e, w)) h = tt
  Returns-mono P Q f (some (panic p, w)) h = tt

module _ {W A B : Type 0} where
  pub and_then_rule :
      (P : A → Type 0) (Q : B → Type 0) (m : Run W A) (k : A → W → Run W B)
      → Returns P m
      → ((a : A) (w : W) → P a → Returns Q (k a w))
      → Returns Q (and_then m k)
  and_then_rule P Q none k h next = h
  and_then_rule P Q (some (ok a, w)) k h next = next a w h
  and_then_rule P Q (some (err e, w)) k h next = tt
  and_then_rule P Q (some (panic p, w)) k h next = tt

-- `P` holds of the result of a run if it returns one.
abbrev pub IfReturns : {W A : Type 0} → (A → Type 0) → Run W A → Type 0
IfReturns P (some (ok a, w)) = P a
IfReturns P none = Unit
IfReturns P (some (err e, w)) = Unit
IfReturns P (some (panic p, w)) = Unit

-- The run ends.
abbrev pub Ends : {W A : Type 0} → Run W A → Type 0
Ends = Returns (λ a. Unit {0})

pub outcome-Ends : {W A : Type 0} (r : Outcome A) (w : W) → Ends (some (r, w))
outcome-Ends (ok a) w = tt
outcome-Ends (err e) w = tt
outcome-Ends (panic p) w = tt

-- The run ends with what it ends with.
pub Ends-own :
    {W A : Type 0} (m : Run W A) → Ends m → Returns (λ a. (w : W) × (m ≡ some (ok a, w))) m
Ends-own none h = h
Ends-own (some (ok a, w)) h = (w, refl)
Ends-own (some (err e, w)) h = tt
Ends-own (some (panic p, w)) h = tt

pub IfReturns-mono :
    {W A : Type 0} (P Q : A → Type 0)
    → ((a : A) → P a → Q a)
    → (m : Run W A) → IfReturns P m
    → IfReturns Q m
IfReturns-mono P Q f none h = tt
IfReturns-mono P Q f (some (ok a, w)) h = f a h
IfReturns-mono P Q f (some (err e, w)) h = tt
IfReturns-mono P Q f (some (panic p, w)) h = tt

pub Ends-Returns :
    {W A : Type 0} (P : A → Type 0) (m : Run W A) → Ends m → IfReturns P m → Returns P m
Ends-Returns P none h k = h
Ends-Returns P (some (ok a, w)) h k = k
Ends-Returns P (some (err e, w)) h k = tt
Ends-Returns P (some (panic p, w)) h k = tt

module _ (c : Client) (universe : List String) where
  open c use {World}

  -- The files that answer a request for a file by its name.
  abbrev pub Answers : String → List File → Type 0
  Answers d fs =
      (contains (names_of fs) d ≡ true) × All (λ (f : File). contains universe f.name ≡ true) fs

  -- What storing or fetching the names leaves of the map.
  abbrev pub Stores : List String → Files → Files → Type 0
  Stores names files files' =
      Grows files files' × ((d : String) → contains names d ≡ true → has files' d ≡ true)

  -- What the call for one name leaves of the map.
  abbrev pub Completes : String → Files → Files → Type 0
  Completes name files files' =
      Grows files files'
      × ((f : File) (d : String)
          → Dict.lookup name files ≡ some f
          → contains f.dependency d ≡ true
          → has files' d ≡ true)

  pub missing-Grows :
      {files files' : Files} → Grows files files' → missing universe files' ≤ missing universe files
  missing-Grows {files} {files'} g = missing-le universe files files' (has-kept g)

  pub missing-insert :
      (files : Files) (f : File)
      → contains universe f.name ≡ true
      → Dict.lookup f.name files ≡ none
      → missing universe (Dict.insert f.name f files) < missing universe files
  missing-insert files f known new =
      missing-lt universe files (Dict.insert f.name f files) f.name
        (λ d p. ground (arith, has-insert files f d)) known (ground arith)
        (ground (arith, has-insert files f f.name))
