-- ===== src/Reflection/Described.antt =====
-- What `getFileDescriptorSet` of pkg/transflect/transflect.go is to give for the answers of a server,
-- and what it has gathered before it sorts.
use transflect.Base.{
  ℕ, String, ◌≡◌, refl, Bool, true, false, ◌||◌, Bool-cases, Option-cases, inl, inr, none, List, [],
  ◌∷◌, map, arith, string_eq, All, contains, if◌then◌else◌,
}
use transflect.Base.Dict
use transflect.Base.Dict.{has, lookup-insert, lookup-nil}
use transflect.Descriptor.{File, annotate_http_rule}
use transflect.Toposort.{Files}
use transflect.Toposort.Order.{names_of}
use transflect.Reflection.{
  Client, add_file, add_files, file_descriptor_by_filename, file_descriptor_by_symbol, get_services,
  complete, collect, gather,
}
use transflect.Reflection.Closure.{IfReturns, IfReturns-mono}
use transflect.Reflection.Gathered.{Covers, add_files-Covers}
use transflect.Reflection.Holds.{Holds, Holds-insert, and_then_partial, complete-Keeps}

-- What a server has: its services, its files by their names, and the names of the files that it
-- answers for a service.
pub record Table : Type 0 where
  pub listed : List String
  pub file_of : String → File
  pub symbol_files : String → List String

module _ (t : Table) where
  open t use {listed, file_of, symbol_files}

  -- A file of that name is answered for one of the services.
  abbrev pub named : List String → String → Bool
  named [] n = false
  named (s ∷ ss) n = contains (symbol_files s) n || named ss n

  -- The file of that name as it is to come out: with the rules if it is answered for a service.
  abbrev pub due : String → String → File
  due prefix n = if named listed n then annotate_http_rule prefix (file_of n) else file_of n

  -- The services that the server listed, each file that it answered for one of them, and of these and
  -- of the further ones the files themselves.
  pub record IsDescriptorSet (prefix : String) (files : List File) (services : List String)
      : Type 0 where
    pub services_listed : services ≡ listed
    pub all_named : (n : String) → named listed n ≡ true → contains (names_of files) n ≡ true
    pub all_due : All (λ (f : File). f ≡ due prefix f.name) files

-- A server that answers by the table, where it answers without an error.
pub record IsDescribed (c : Client) (t : Table) : Type 0 where
  pub keyed : (n : String) → (t.file_of n).name ≡ n
  pub services : (w : c.World) → IfReturns (λ ss. ss ≡ t.listed) (get_services c w)
  pub by_symbol :
      (s : String) (w : c.World)
      → IfReturns (λ fs. fs ≡ map t.file_of (t.symbol_files s)) (file_descriptor_by_symbol c s w)
  pub by_name :
      (d : String) (w : c.World)
      → IfReturns (All (λ (f : File). f ≡ t.file_of f.name)) (file_descriptor_by_filename c d w)

module _ (c : Client) (t : Table) (described : IsDescribed c t) (prefix : String) where
  open c use {World}
  open t use {listed, file_of, symbol_files}

  abbrev Due : String → File → Type 0
  Due n f = f ≡ due t prefix n

  -- From one map of the collection to a later one.
  record Collects (ns : String → Bool) (acc acc' : List String × Files) : Type 0 where
    due_held : Holds Due acc'.1
    there : (n : String) → ns n ≡ true → has acc'.1 n ≡ true
    kept : (n : String) → has acc.1 n ≡ true → has acc'.1 n ≡ true

  asked-Due :
      (n m : String)
      → m ≡ n
      → named t listed n ≡ true
      → annotate_http_rule prefix (file_of n) ≡ due t prefix m
  asked-Due n m same asked = rw (same, asked) refl

  add_file-Due :
      (n : String) (acc : List String × Files)
      → named t listed n ≡ true
      → Holds Due acc.1
      → let files' = (add_file prefix (file_of n) acc).1 in
        Holds Due files'
        × (has files' n ≡ true)
        × ((m : String) → has acc.1 m ≡ true → has files' m ≡ true)
  unfolding add_file
  add_file-Due n (names, files) asked h =
      let same : (file_of n).name ≡ n = described.keyed n in
      elim (Option-cases (Dict.lookup (file_of n).name files)) [
        | inl new ↦
            let file = annotate_http_rule prefix (file_of n) in
            let good : Due (file_of n).name file = asked-Due n (file_of n).name same asked in
            rw (new, add_file)
              (
                Holds-insert Due files (file_of n).name file h good,
                ground (arith, lookup-insert n (file_of n).name file files),
                λ m p. ground (arith, lookup-insert m (file_of n).name file files),
              )
        | inr (old, there) ↦ rw (there, add_file) (h, ground arith, λ m p. p)
      ]

  add_files-Collects :
      (ns : List String) (acc : List String × Files)
      → ((n : String) → contains ns n ≡ true → named t listed n ≡ true)
      → Holds Due acc.1
      → Collects (contains ns) acc (add_files prefix (map file_of ns) acc)
  unfolding add_files
  add_files-Collects [] acc asked h = record { due_held = h; there = λ n p. cc; kept = λ n p. p }
  add_files-Collects (n ∷ ns) acc asked h =
      let (h1, here, kept1) = add_file-Due n acc (asked n (ground arith)) h in
      let acc1 = add_file prefix (file_of n) acc in
      let rest = add_files-Collects ns acc1 (λ m p. asked m (ground arith)) h1 in
      record {
        due_held = rest.due_held;
        there = λ m p. elim (Bool-cases (contains ns m)) [
          | inl later ↦ rest.there m later
          | inr first ↦ let same : m ≡ n = ground arith in rest.kept m (rw same here)
        ];
        kept = λ m p. rest.kept m (kept1 m p);
      }

  abbrev Collected : (String → Bool) → List String × Files → List String × Files → Type 0
  Collected ns acc acc' = Covers acc' × Collects ns acc acc'

  Collected-then :
      (ns ms : String → Bool) (acc acc1 : List String × Files)
      → Collects ns acc acc1
      → (acc2 : List String × Files) → Collected ms acc1 acc2
      → Collected (λ n. ns n || ms n) acc acc2
  Collected-then ns ms acc acc1 first acc2 (covers, rest) = (
    covers,
    record {
      due_held = rest.due_held;
      there = λ n p. elim (Bool-cases (ns n)) [
        | inl early ↦ rest.kept n (first.there n early)
        | inr late ↦ rest.there n (ground arith)
      ];
      kept = λ n p. rest.kept n (first.kept n p);
    },
  )

  collect-Collected :
      (ss : List String) (acc : List String × Files) (w : World)
      → ((n : String) → named t ss n ≡ true → named t listed n ≡ true)
      → Covers acc
      → Holds Due acc.1
      → IfReturns (Collected (named t ss) acc) (collect c prefix ss acc w)
  unfolding collect
  collect-Collected [] acc w asked covers h =
      (covers, record { due_held = h; there = λ n p. cc; kept = λ n p. p })
  collect-Collected (s ∷ ss) acc w asked covers h =
      let names = symbol_files s in
      let acc1 = add_files prefix (map file_of names) acc in
      let first = add_files-Collects names acc (λ n p. asked n (ground arith)) h in
      and_then_partial (λ fs. fs ≡ map file_of names) (Collected (named t (s ∷ ss)) acc)
        (file_descriptor_by_symbol c s w) _ (described.by_symbol s w)
        λ fs w1 e. rw e (
          IfReturns-mono (Collected (named t ss) acc1) (Collected (named t (s ∷ ss)) acc)
            (Collected-then (contains names) (named t ss) acc acc1 first)
            (collect c prefix ss acc1 w1)
            (collect-Collected ss acc1 w1 (λ n p. asked n (ground arith))
              (add_files-Covers prefix (map file_of names) acc covers) first.due_held))

  -- Each file of the map is as it is due, and those that are answered for a service are there.
  abbrev Filled : Files → Type 0
  Filled files = Holds Due files × ((n : String) → named t listed n ≡ true → has files n ≡ true)

  insert-Filled :
      (files : Files) (f : File)
      → Dict.lookup f.name files ≡ none
      → f ≡ file_of f.name
      → Filled files
      → Filled (Dict.insert f.name f files)
  insert-Filled files f new e (h, there) = (
    Holds-insert Due files f.name f h good,
    λ n p. ground (arith, there n, lookup-insert n f.name f files),
  )
    where
      good : Due f.name f
      good = elim (Bool-cases (named t listed f.name)) [
        | inl asked ↦ ground (arith, there f.name asked)
        | inr further ↦ rw further e
      ]

  -- What is gathered before it is sorted.
  abbrev pub IsGathered : List String × Files → Type 0
  IsGathered (names, files) =
      ((n : String) → named t listed n ≡ true → contains names n ≡ true) × Filled files

  pub gather-IsGathered :
      (fuel : ℕ) (w : World) → IfReturns IsGathered (gather c fuel prefix listed w)
  unfolding gather
  gather-IsGathered fuel w =
      and_then_partial (Collected (named t listed) ([], [])) IsGathered
        (collect c prefix listed ([], []) w) _
        (collect-Collected listed ([], []) w (λ n p. p)
          (λ n. ground (arith, lookup-nil {V = File} n)) (λ n f q. cc (lookup-nil {V = File} n)))
        λ acc w1 (covers, got).
          and_then_partial Filled IsGathered (complete c fuel acc.0 acc.1 w1) _
            (complete-Keeps c Filled (λ f. f ≡ file_of f.name) insert-Filled described.by_name fuel
              acc.0 acc.1 w1 (got.due_held, got.there))
            λ files w2 filled. (λ n p. ground (arith, covers n, got.there n), filled)
