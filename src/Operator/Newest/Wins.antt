-- ===== src/Operator/Newest/Wins.antt =====
-- What a worker leaves that works off ReplicaSets of one deployment.
use mathlib.Core.Path.{subst}
use transflect.Base.{
  String, ◌≡◌, refl, sym, Bool, true, Option, none, some, List, [], ◌∷◌, map, All, nat_eq,
  string_eq, ◌⊎◌, inl, inr,
}
use transflect.Base.Dict
use transflect.Kube.{ReplicaSet}
use transflect.Replica.{deploy_key}
use transflect.Outcome.{ok}
use transflect.Cluster.{Cluster, Session, is_ok}
use transflect.Upsert.{Config, upsert_filter}
use transflect.Upsert.Stored.{Content, IsStore}
use transflect.MutexMap
use transflect.MutexMap.{MutexMap}
use transflect.MutexMap.Sequential.{IsQuiet}
use transflect.Operator.{
  State, queued, Lister, Ending, decide_and_process, get_replicaset, resume, finish, proceed, next,
  run_worker,
}
use transflect.Operator.Locks.{locked_process-IsQuiet}
use transflect.Operator.Newest.{IsCandidate}
use transflect.Operator.Newest.Rounds.{HasNewest, Also, decide-HasNewest, decide-first, decide-ok}

module _ (c : Cluster) (o : Config) (stored : String → String → c.World → Option Content)
    (store : IsStore c stored) (key : String) where
  open c use {World}

  -- The state of a worker that has gone on, with no lock taken.
  abbrev pub GoesOn : Ending c o Bool → (ReplicaSet → Type 0) → Type 0
  GoesOn ending Seen =
      (st' : State World) × (ending ≡ some (ok true, st'))
      × IsQuiet st'.locker
      × HasNewest c o stored store key Seen st'

  module _ (l : Lister World) (rs_of : String → ReplicaSet) where
    next-GoesOn :
        (k : String) (Seen : ReplicaSet → Type 0) (st : State World)
        → ((w : World) → get_replicaset c o l k w ≡ ok (rs_of k))
        → IsCandidate key (rs_of k)
        → ((s : Session World) → is_ok (upsert_filter c o (rs_of k) s).0 ≡ true)
        → IsQuiet st.locker
        → ((locker : MutexMap)
            → HasNewest c o stored store key Seen
                (decide_and_process c o (rs_of k) key (record st { locker = locker })).1)
        → GoesOn (next c o l (queued k) st) Seen
    unfolding next
    next-GoesOn k Seen st reads candidate fine quiet after =
        let (locker, acquired, (ending, free)) = locked_process-IsQuiet c o (rs_of k) st quiet in
        let st1 : State World = record st { locker = locker } in
        let after' =
          subst
            (λ d. HasNewest c o stored store key Seen (decide_and_process c o (rs_of k) d st1).1)
            (sym candidate.owned) (after locker) in
        let fine' : (decide_and_process c o (rs_of k) (deploy_key (rs_of k)) st1).0 ≡ ok tt =
          subst (λ d. (decide_and_process c o (rs_of k) d st1).0 ≡ ok tt) (sym candidate.owned)
            (decide-ok c o stored store key (rs_of k) candidate fine Seen st1) in
        let st2 = (decide_and_process c o (rs_of k) (deploy_key (rs_of k)) st1).1 in
        let unlocked = (MutexMap.unlock (deploy_key (rs_of k)) st2.locker).1 in
        (
          record st2 { locker = unlocked; finished = queued k ∷ st2.finished },
          rw (reads st.session.world, next, resume, ending, fine', finish) refl,
          free,
          record {
            newest = after'.newest;
            among = after'.among;
            recorded = after'.recorded;
            written = after'.written;
            bound = after'.bound;
          },
        )

    -- Two ways to say which ReplicaSets were seen.
    pub HasNewest-map :
        (P Q : ReplicaSet → Type 0) (st : State World)
        → ((x : ReplicaSet) → P x → Q x)
        → ((x : ReplicaSet) → Q x → P x)
        → HasNewest c o stored store key P st
        → HasNewest c o stored store key Q st
    HasNewest-map P Q st f g h = record {
      newest = h.newest;
      among = f h.newest h.among;
      recorded = h.recorded;
      written = h.written;
      bound = λ x q. h.bound x (g x q);
    }

    abbrev pub Among : List String → ReplicaSet → Type 0
    Among [] x = ⊥
    Among (k ∷ ks) x = (x ≡ rs_of k) ⊎ Among ks x

    -- The lister has the keys, they are of ReplicaSets that can be processed, and the upserts for them succeed.
    abbrev pub AllFine : List String → Type 0
    AllFine ks =
        All
          (λ k.
            ((w : World) → get_replicaset c o l k w ≡ ok (rs_of k))
            × IsCandidate key (rs_of k)
            × ((s : Session World) → is_ok (upsert_filter c o (rs_of k) s).0 ≡ true))
          ks

    regroup :
        (k : String) (ks : List String) (Seen : ReplicaSet → Type 0) (x : ReplicaSet)
        → Among ks x ⊎ Also c o stored store key (rs_of k) Seen x
        → Among (k ∷ ks) x ⊎ Seen x
    regroup k ks Seen x (inl a) = inl (inr a)
    regroup k ks Seen x (inr (inl e)) = inl (inl e)
    regroup k ks Seen x (inr (inr s)) = inr s

    ungroup :
        (k : String) (ks : List String) (Seen : ReplicaSet → Type 0) (x : ReplicaSet)
        → Among (k ∷ ks) x ⊎ Seen x
        → Among ks x ⊎ Also c o stored store key (rs_of k) Seen x
    ungroup k ks Seen x (inl (inl e)) = inr (inl e)
    ungroup k ks Seen x (inl (inr a)) = inl a
    ungroup k ks Seen x (inr s) = inr (inr s)

    unseen : (Seen : ReplicaSet → Type 0) (x : ReplicaSet) → Among [] x ⊎ Seen x → Seen x
    unseen Seen x (inl none_of) = absurd none_of
    unseen Seen x (inr s) = s

    relock :
        (Seen : ReplicaSet → Type 0) (st : State World) (locker : MutexMap)
        → HasNewest c o stored store key Seen st
        → HasNewest c o stored store key Seen (record st { locker = locker })
    relock Seen st locker h = record {
      newest = h.newest;
      among = h.among;
      recorded = h.recorded;
      written = h.written;
      bound = h.bound;
    }

    run_worker-GoesOn :
        (ks : List String) (Seen : ReplicaSet → Type 0) (st : State World)
        → AllFine ks
        → IsQuiet st.locker
        → HasNewest c o stored store key Seen st
        → GoesOn (run_worker c o l (map queued ks) st) (λ x. Among ks x ⊎ Seen x)
    unfolding run_worker proceed
    run_worker-GoesOn [] Seen st fine quiet h =
        (st, refl, quiet, HasNewest-map Seen _ st (λ x s. inr s) (unseen Seen) h)
    run_worker-GoesOn (k ∷ ks) Seen st ((reads, candidate, fine), rest) quiet h =
        let (st1, e, quiet1, h1) =
          next-GoesOn k (Also c o stored store key (rs_of k) Seen) st reads candidate fine quiet
            (λ locker.
              decide-HasNewest c o stored store key (rs_of k) candidate fine Seen
                (record st { locker = locker }) (relock Seen st locker h)) in
        let (st2, e2, quiet2, h2) =
          run_worker-GoesOn ks (Also c o stored store key (rs_of k) Seen) st1 rest quiet1 h1 in
        (
          st2,
          rw (e, proceed) e2,
          quiet2,
          HasNewest-map _ _ st2 (regroup k ks Seen) (ungroup k ks Seen) h2,
        )

    drop_none : (ks : List String) (x : ReplicaSet) → Among ks x ⊎ ⊥ → Among ks x
    drop_none ks x (inl a) = a
    drop_none ks x (inr n) = absurd n

    -- Given that the lister answers with one ReplicaSet for each of the keys and that the upserts succeed: a
    -- worker that finds no lock taken and no entry of a deployment, and works off any ReplicaSets of
    -- that deployment that are ready and have a port and a revision, in any order and each any number
    -- of times, asks for a further item and leaves no lock taken. Behind it the entry of the deployment
    -- is that of one of these ReplicaSets, the cluster has an EnvoyFilter made for the same one, and
    -- none of them has a higher revision.
    pub newest_wins :
        (k : String) (ks : List String) (st : State World)
        → AllFine (k ∷ ks)
        → IsQuiet st.locker
        → Dict.lookup key st.active_state ≡ none
        → GoesOn (run_worker c o l (map queued (k ∷ ks)) st) (Among (k ∷ ks))
    unfolding run_worker proceed
    newest_wins k ks st ((reads, candidate, fine), rest) quiet first =
        let none_of : ReplicaSet → Type 0 = λ x. ⊥ in
        let (st1, e, quiet1, h1) =
          next-GoesOn k (Also c o stored store key (rs_of k) none_of) st reads candidate fine quiet
            (λ locker.
              decide-first c o stored store key (rs_of k) candidate fine none_of
                (record st { locker = locker }) first (λ x n. n)) in
        let (st2, e2, quiet2, h2) =
          run_worker-GoesOn ks (Also c o stored store key (rs_of k) none_of) st1 rest quiet1 h1 in
        (
          st2,
          rw (e, proceed) e2,
          quiet2,
          HasNewest-map _ _ st2 (λ x a. drop_none (k ∷ ks) x (regroup k ks none_of x a))
              (λ x a. ungroup k ks none_of x (inl a)) h2,
        )
