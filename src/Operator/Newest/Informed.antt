-- ===== src/Operator/Newest/Informed.antt =====
-- From the events of the informers to the EnvoyFilter: the handlers, the work queue and a worker.
-- The work queue of client-go is a parameter; of it the documented behaviour is taken that a key that
-- is added waits, and that a worker is given the keys that wait, in any order.
use mathlib.Core.Path.{subst}
use transflect.Base.{
  String, ◌≡◌, refl, sym, ap, ◌∙◌, Bool, true, false, ◌||◌, ◌==◌, Option, none, List, [], ◌∷◌, map,
  All, contains, string_eq, arith, ◌⊎◌, inl, inr, Bool-cases,
}
use transflect.Base.Dict
use transflect.Kube.{ReplicaSet}
use transflect.Replica.{should_enqueue}
use transflect.Outcome.{Outcome, ok}
use transflect.Cluster.{Cluster, Session, is_ok}
use transflect.Upsert.{Config, upsert_filter}
use transflect.Upsert.Stored.{Content, IsStore}
use transflect.MutexMap.Sequential.{IsQuiet}
use transflect.Operator.{State, Lister, queued, get_replicaset, run_worker}
use transflect.Operator.Handlers.{Object, replica_set, Event, added, key_text, enqueue, handle_all}
use transflect.Operator.Handlers.Handled.{requested, handle_all-Handled}
use transflect.Operator.Newest.{IsCandidate}
use transflect.Operator.Newest.Wins.{GoesOn, AllFine, Among, HasNewest-map, newest_wins}

-- The ReplicaSet is one of these.
abbrev pub OneOf : List ReplicaSet → ReplicaSet → Type 0
OneOf [] x = ⊥
OneOf (rs ∷ rss) x = (x ≡ rs) ⊎ OneOf rss x

contains-All :
    (P : String → Type 0) (ks : List String)
    → ((k : String) → contains ks k ≡ true → P k)
    → All P ks
contains-All P [] h = tt
contains-All P (k ∷ ks) h = (h k (ground arith), contains-All P ks (λ j m. h j (ground arith)))

-- Each ReplicaSet is added.
abbrev pub announced : List ReplicaSet → List Event
announced [] = []
announced (rs ∷ rss) = added (replica_set rs) ∷ announced rss

module _ (c : Cluster) (o : Config) (stored : String → String → c.World → Option Content)
    (store : IsStore c stored) (key : String) (l : Lister c.World) (rs_of : String → ReplicaSet)
    {Queue : Type 0} (add : String → Queue → Queue) (key_func : Object → Outcome String)
    (waits : String → Queue → Bool)
    (add-waits : (k j : String) (q : Queue) → waits k (add j q) ≡ (k == j || waits k q)) where
  open c use {World}

  abbrev pub name_of : ReplicaSet → String
  name_of rs = key_text (key_func (replica_set rs))

  abbrev asked : String → List Event → Bool
  asked = requested c o add key_func waits add-waits

  -- A ReplicaSet of the deployment that is let into the queue and can be processed, that the lister
  -- answers with for its key, whatever the state of the cluster, and for which the upserts succeed.
  pub record IsListed (rs : ReplicaSet) : Type 0 where
    pub candidate : IsCandidate key rs
    pub enqueued : should_enqueue rs ≡ true
    pub listed : rs_of (name_of rs) ≡ rs
    pub reads : (w : World) → get_replicaset c o l (name_of rs) w ≡ ok rs
    pub fine : (s : Session World) → is_ok (upsert_filter c o rs s).0 ≡ true

  asked-OneOf :
      (k : String) (rss : List ReplicaSet)
      → asked k (announced rss) ≡ true
      → All IsListed rss
      → (rs : ReplicaSet) × OneOf rss rs × IsListed rs × (k ≡ name_of rs)
  asked-OneOf k [] h a = cc
  asked-OneOf k (rs ∷ rss) h (is, rest) = elim (Bool-cases (k == name_of rs)) [
    | inl same ↦ (rs, inl refl, is, ground arith)
    | inr apart ↦
        let (x, one, is', e) = asked-OneOf k rss (ground arith) rest in (x, inr one, is', e)
  ]

  OneOf-asked :
      (rss : List ReplicaSet) (x : ReplicaSet)
      → All IsListed rss
      → OneOf rss x
      → (asked (name_of x) (announced rss) ≡ true) × IsListed x
  OneOf-asked [] x a m = absurd m
  OneOf-asked (rs ∷ rss) x (is, rest) (inl e) = rw e (ground (arith, is.enqueued), is)
  OneOf-asked (rs ∷ rss) x (is, rest) (inr m) =
      let (h, is') = OneOf-asked rss x rest m in (ground arith, is')

  announced-state :
      (rss : List ReplicaSet) (q : Queue) (st : State World)
      → (handle_all c o add key_func (announced rss) (q, st)).1 ≡ st
  unfolding handle_all
  announced-state [] q st = refl
  announced-state (rs ∷ rss) q st =
      announced-state rss (enqueue c o add key_func (replica_set rs) q) st

  Among-contains :
      (ks : List String) (k : String)
      → contains ks k ≡ true
      → Among c o stored store key l rs_of ks (rs_of k)
  Among-contains [] k h = cc
  Among-contains (j ∷ ks) k h = elim (Bool-cases (k == j)) [
    | inl same ↦ let e : k ≡ j = ground arith in inl (ap rs_of e)
    | inr apart ↦ inr (Among-contains ks k (ground arith))
  ]

  contains-Among :
      (ks : List String) (x : ReplicaSet)
      → Among c o stored store key l rs_of ks x
      → (k : String) × (contains ks k ≡ true) × (x ≡ rs_of k)
  contains-Among [] x m = absurd m
  contains-Among (k ∷ ks) x (inl e) = (k, ground arith, e)
  contains-Among (k ∷ ks) x (inr m) = let (j, h, e) = contains-Among ks x m in (j, ground arith, e)

  module _ (rss : List ReplicaSet) (all : All IsListed rss) (ks : List String)
      (delivered : (k : String) → contains ks k ≡ asked k (announced rss)) where
    -- The keys that the worker is given are of ReplicaSets that can be processed.
    delivered-AllFine : AllFine c o stored store key l rs_of ks
    delivered-AllFine = contains-All _ ks λ k h.
        let (rs, one, is, e) = asked-OneOf k rss (sym (delivered k) ∙ h) all in
        let same : rs_of k ≡ rs = ap rs_of e ∙ is.listed in
        rw same (
          subst (λ j. (w : World) → get_replicaset c o l j w ≡ ok rs) (sym e) is.reads,
          is.candidate,
          is.fine,
        )

    delivered-OneOf : (x : ReplicaSet) → Among c o stored store key l rs_of ks x → OneOf rss x
    delivered-OneOf x m =
        let (k, h, e) = contains-Among ks x m in
        let (rs, one, is, e') = asked-OneOf k rss (sym (delivered k) ∙ h) all in
        let same : x ≡ rs = e ∙ (ap rs_of e' ∙ is.listed) in rw same one

    OneOf-delivered : (x : ReplicaSet) → OneOf rss x → Among c o stored store key l rs_of ks x
    OneOf-delivered x m =
        let (h, is) = OneOf-asked rss x all m in
        let there : contains ks (name_of x) ≡ true = delivered (name_of x) ∙ h in
        rw (← is.listed) (Among-contains ks (name_of x) there)

  waits-asked :
      (rss : List ReplicaSet) (q : Queue) (st : State World) (k : String)
      → waits k q ≡ false
      → waits k (handle_all c o add key_func (announced rss) (q, st)).0 ≡ asked k (announced rss)
  waits-asked rss q st k h =
      let (w, _, _) =
        handle_all-Handled c o add key_func waits add-waits k (announced rss) (q, st) in
      ground arith

  -- Given that the lister has each of some ReplicaSets of one deployment, which are let into the
  -- queue, are ready and have a port and a revision, and that the upserts for them succeed. They are
  -- added in any order, any of them any number of times, to a queue in which nothing waits, no lock
  -- is taken and the deployment has no entry. A worker then gets the keys that wait, and no other, in
  -- any order and any number of times. It asks for a further item and leaves no lock taken, the entry
  -- of the deployment is that of one of these ReplicaSets, the cluster has an EnvoyFilter made for
  -- the same one, and none of them has a higher revision.
  pub newest_announced :
      (rss : List ReplicaSet) (q : Queue) (st : State World) (k : String) (ks : List String)
      → All IsListed rss
      → ((j : String) → waits j q ≡ false)
      → IsQuiet st.locker
      → Dict.lookup key st.active_state ≡ none
      → ((j : String)
          → contains (k ∷ ks) j ≡ waits j (handle_all c o add key_func (announced rss) (q, st)).0)
      → GoesOn c o stored store key
          (run_worker c o l
            (map queued (k ∷ ks))
            (handle_all c o add key_func (announced rss) (q, st)).1)
          (OneOf rss)
  newest_announced rss q st k ks all empty quiet first delivered =
      let delivered' : (j : String) → contains (k ∷ ks) j ≡ asked j (announced rss) =
        λ j. delivered j ∙ waits-asked rss q st j (empty j) in
      let (st', e, free, h) =
        newest_wins c o stored store key l rs_of k ks st
          (delivered-AllFine rss all (k ∷ ks) delivered') quiet first in
      rw (announced-state rss q st) (
        st',
        e,
        free,
        HasNewest-map c o stored store key l rs_of _ (OneOf rss) st'
            (delivered-OneOf rss all (k ∷ ks) delivered')
            (OneOf-delivered rss all (k ∷ ks) delivered') h,
      )
