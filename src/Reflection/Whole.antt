-- ===== src/Reflection/Whole.antt =====
-- `getFileDescriptorSet` of pkg/transflect/transflect.go as a whole, against a server whose files
-- import one another in no circle.
use transflect.Base.{
  ℕ, ◌<◌, String, ◌≡◌, refl, true, false, Option-cases, inl, inr, none, some, List, arith,
  string_eq, All, All-mono, contains, length,
}
use transflect.Base.Dict
use transflect.Base.Dict.{has}
use transflect.Outcome.{ok, err, panic}
use transflect.Descriptor.{File, annotate_http_rule}
use transflect.Toposort.{Files}
use transflect.Toposort.Order.{InOrder}
use transflect.Toposort.Sorted.{IsAcyclic, Below, Sorts}
use transflect.Toposort.Contained.{topo_sort-InOrder}
use transflect.Reflection.{
  Client, Run, file_descriptor_by_filename, file_descriptor_by_symbol, get_services, gather,
  sort_files, file_descriptor_set,
}
use transflect.Reflection.Closure.{
  Returns, Returns-mono, and_then_rule, IfReturns, IfReturns-mono, Ends-own,
}
use transflect.Reflection.Streams.{IsServer, get_services-Ends}
use transflect.Reflection.Holds.{Holds, Good, gather-Holds}
use transflect.Reflection.Gathered.{IsClosed, gather-closes}
use transflect.Reflection.Described.{
  Table, IsDescriptorSet, IsDescribed, IsGathered, gather-IsGathered,
}

-- The run returns and both hold of its result.
both :
    {W A : Type 0} (P Q : A → Type 0) (m : Run W A)
    → Returns P m
    → IfReturns Q m
    → Returns (λ a. P a × Q a) m
both P Q none h k = h
both P Q (some (ok a, w)) h k = (h, k)
both P Q (some (err e, w)) h k = tt
both P Q (some (panic p, w)) h k = tt

-- The imports of a file rank below it, and it ranks below the bound.
abbrev pub IsRanked : (String → ℕ) → ℕ → File → Type 0
IsRanked rank bound f =
    ((d : String) → contains f.dependency d ≡ true → rank d < rank f.name) × (rank f.name < bound)

-- A server that answers with the file asked for, from a universe of finitely many names, whose streams
-- end, and whose files import one another in no circle.
pub record IsSound (c : Client) (universe : List String) (rank : String → ℕ) (bound : ℕ)
    : Type 0 where
  pub server : IsServer c universe
  pub by_filename :
      (d : String) (w : c.World)
      → IfReturns (All (IsRanked rank bound)) (file_descriptor_by_filename c d w)
  pub by_symbol :
      (s : String) (w : c.World)
      → IfReturns (All (IsRanked rank bound)) (file_descriptor_by_symbol c s w)

module _ (rank : String → ℕ) (bound : ℕ) where
  -- The file stands under its name, and is ranked.
  abbrev Fits : String → File → Type 0
  Fits n f =
      (f.name ≡ n)
      × ((d : String) → contains f.dependency d ≡ true → rank d < rank n)
      × (rank n < bound)

  ranked-Good : (fs : List File) → All (IsRanked rank bound) fs → Good Fits fs
  unfolding annotate_http_rule
  ranked-Good fs h =
      All-mono fs (λ f (below, low). ((refl, below, low), λ prefix. (refl, below, low))) h

  Holds-IsAcyclic : (files : Files) → Holds Fits files → IsAcyclic rank files
  Holds-IsAcyclic files h = record {
    keyed = λ n f q. (h n f q).0;
    ranked = λ n f d q p there. (h n f q).1 d p;
  }

  Holds-Below :
      (names : List String) (files : Files) → Holds Fits files → Below rank bound names files
  Holds-Below names files h d listed there = elim (Option-cases (Dict.lookup d files)) [
    | inl gone ↦ ground arith
    | inr (f, q) ↦ (h d f q).2
  ]

  module _ (c : Client) (universe : List String) (sound : IsSound c universe rank bound) (t : Table)
      (described : IsDescribed c t) where
    open c use {World}

    sorted-IsDescriptorSet :
        (prefix : String) (names : List String) (files : Files) (out : List File) (files' : Files)
        → Sorts rank bound names files out files'
        → IsGathered c t described prefix (names, files)
        → IsDescriptorSet t prefix out t.listed
    sorted-IsDescriptorSet prefix names files out files' sorts (asked, (due_held, there)) = record {
      services_listed = refl;
      all_named = λ n p. ground (arith, sorts.covers n (asked n p), sorts.left n, there n p);
      all_due = All-mono out (λ f q. due_held f.name f q) sorts.taken;
    }

    sort_files-InOrder :
        (fuel : ℕ) (prefix : String) (acc : List String × Files) (w : World)
        → bound < fuel
        → (IsClosed c acc × Holds Fits acc.1) × IsGathered c t described prefix acc
        → Returns
            (λ (r : List File × List String).
              InOrder (λ d. false) r.0 × IsDescriptorSet t prefix r.0 r.1)
            (sort_files c fuel t.listed acc w)
    unfolding sort_files
    sort_files-InOrder fuel prefix (names, files) w fits (((_, closed), h), gathered) =
        let (out, left, e, order, sorts) =
          topo_sort-InOrder rank fuel bound names files fits (Holds-IsAcyclic files h)
            (Holds-Below names files h) closed in
        rw (e, sort_files)
          (order, sorted-IsDescriptorSet prefix names files out left sorts gathered)

    -- On fuel above the number of the server's files and above their ranks the whole call ends; and
    -- where it ends without an error and a panic, the descriptor set is complete by itself, each
    -- file once and each import of each file before it, and it is the set that the server describes.
    pub file_descriptor_set-InOrder :
        (fuel : ℕ) (prefix : String) (w : World)
        → length universe < fuel
        → bound < fuel
        → Returns
            (λ (r : List File × List String).
              InOrder (λ d. false) r.0 × IsDescriptorSet t prefix r.0 r.1)
            (file_descriptor_set c fuel prefix w)
    unfolding file_descriptor_set
    file_descriptor_set-InOrder fuel prefix w many deep =
        and_then_rule (λ services. services ≡ t.listed) _ (get_services c w) _
          (Returns-mono _ _ (λ services h. h.1) (get_services c w)
            (both (λ _. Unit {0}) (λ services. services ≡ t.listed) (get_services c w)
              (Returns-mono _ _ (λ services h. tt) (get_services c w)
                (Ends-own (get_services c w) (get_services-Ends c sound.server.streams w)))
              (described.services w)))
          λ services w1 same. rw same (
            and_then_rule
              (λ acc. (IsClosed c acc × Holds Fits acc.1) × IsGathered c t described prefix acc) _
              (gather c fuel prefix t.listed w1) (sort_files c fuel t.listed)
              (both _ (IsGathered c t described prefix) (gather c fuel prefix t.listed w1)
                (gathered fuel prefix w1 many) (gather-IsGathered c t described prefix fuel w1))
              λ acc w2 ready. sort_files-InOrder fuel prefix acc w2 deep ready)
      where
        gathered :
            (fuel : ℕ) (prefix : String) (w1 : World)
            → length universe < fuel
            → Returns (λ acc. IsClosed c acc × Holds Fits acc.1) (gather c fuel prefix t.listed w1)
        gathered fuel prefix w1 many =
            both (IsClosed c) (λ acc. Holds Fits acc.1) (gather c fuel prefix t.listed w1)
              (gather-closes c universe sound.server fuel prefix t.listed w1 many)
              (gather-Holds Fits c
                (λ d w2.
                  IfReturns-mono (All (IsRanked rank bound)) (Good Fits) ranked-Good
                    (file_descriptor_by_filename c d w2) (sound.by_filename d w2))
                (λ s w2.
                  IfReturns-mono (All (IsRanked rank bound)) (Good Fits) ranked-Good
                    (file_descriptor_by_symbol c s w2) (sound.by_symbol s w2))
                fuel prefix t.listed w1)
