-- ===== src/Operator/Workers/Overtaken.antt =====
-- A ReplicaSet without a port in `processReplicaset` of cmd/transflect-operator/operator.go: `Remove`
-- under the lock, the deferred `Unlock`, and two other workers of the same deployment.
use transflect.Base.{
  ℕ, ◌<◌, ◌≡◌, refl, ◌≢◌, true, false, none, some, arith, ◌==◌, nat_eq, string_eq,
}
use transflect.Base.Dict
use transflect.Base.Dict.{lookup-insert, lookup-erase}
use transflect.Kube.{ReplicaSet}
use transflect.Replica.{deploy_key, deploy_revision, grpc_port, new_active_entry}
use transflect.MutexMap.{MutexMap, mutex_of, store_new, drop_new, set_locked, erase_entry}
use transflect.Operator.{should_process}
use transflect.Operator.Workers.{
  Entries, Work, resting, wants, waits, decides, upserts, stores, deletes, forgets, removes, leaves,
  unlocks, Act, take, lock_new, lock_loaded, acquire, choose_upsert, upserted, store, deleted,
  forget, remove, unlock_load, release, Shop, step_to, Step, pick, Reach, here, later, start,
}

then_do :
    {s t : Shop}
    → Reach true s t
    → (i : ℕ) {w w' : Work} {l : MutexMap} {e : Entries} → t.work i ≡ w
    → Act true t.locks t.entries w l e w'
    → Reach true s (step_to t i l e w')
then_do r i h act = later r (pick i (rw h act))

module _ (s : Shop) (i j k : ℕ) (gone older newer : ReplicaSet) where
  -- Worker i has deleted the entry and removed the mutex, which it still has locked.
  abbrev removed : Shop
  removed =
      let s1 = step_to s i s.locks s.entries (forgets gone) in
      let s2 = step_to s1 i s.locks (Dict.erase (deploy_key gone) s.entries) (removes gone) in
      step_to s2 i (erase_entry (deploy_key gone) s.locks) s2.entries (leaves gone)

  -- Worker j has locked a new mutex, and has decided.
  abbrev slipped_in : Shop
  slipped_in =
      let s1 = step_to removed j removed.locks removed.entries (wants older) in
      let s2 =
        step_to s1 j (store_new (deploy_key older) removed.locks) s1.entries (decides older) in
      step_to s2 j s2.locks s2.entries (upserts older)

  -- Worker i has unlocked that mutex, in the place of its own.
  abbrev unlocked : Shop
  unlocked =
      let s1 =
        step_to slipped_in i slipped_in.locks slipped_in.entries
          (unlocks gone removed.locks.next) in
      step_to s1 i (set_locked removed.locks.next false s1.locks) s1.entries resting

  -- Worker k has locked it, and has decided too.
  abbrev both : Shop
  both =
      let s1 = step_to unlocked k unlocked.locks unlocked.entries (wants newer) in
      let s2 = step_to s1 k (drop_new unlocked.locks) s1.entries (waits newer removed.locks.next) in
      let s3 =
        step_to s2 k (set_locked removed.locks.next true s2.locks) s2.entries (decides newer) in
      step_to s3 k s3.locks s3.entries (upserts newer)

  -- Worker k has recorded its ReplicaSet, and worker j is about to.
  abbrev recorded : Shop
  recorded =
      let s1 = step_to both k both.locks both.entries (stores newer) in
      let s2 =
        step_to s1 k both.locks
          (Dict.insert (deploy_key newer) (new_active_entry newer) both.entries) (leaves newer) in
      step_to s2 j s2.locks s2.entries (stores older)

  abbrev overwritten : Shop
  overwritten =
      step_to recorded j recorded.locks
        (Dict.insert (deploy_key older) (new_active_entry older) recorded.entries) (leaves older)

  module _ (ij : i ≢ j) (ik : i ≢ k) (jk : j ≢ k) (at_i : s.work i ≡ deletes gone)
      (at_j : s.work j ≡ resting) (at_k : s.work k ≡ resting)
      (same_older : deploy_key older ≡ deploy_key gone)
      (same_newer : deploy_key newer ≡ deploy_key gone)
      (chosen_older : should_process none older ≡ true)
      (port_older : (grpc_port older == 0) ≡ false)
      (chosen_newer : should_process none newer ≡ true)
      (port_newer : (grpc_port newer == 0) ≡ false) where
    removed-reached : Reach true s removed
    removed-reached =
        then_do (then_do (then_do here i at_i deleted) i (ground arith) (forget refl)) i
          (ground arith) (remove refl)

    no_mutex : mutex_of (deploy_key older) removed.locks ≡ none
    no_mutex = ground (arith, lookup-erase (deploy_key older) (deploy_key gone) s.locks.entries)

    no_entry :
        (rs : ReplicaSet)
        → deploy_key rs ≡ deploy_key gone
        → Dict.lookup (deploy_key rs) removed.entries ≡ none
    no_entry rs h = ground (arith, lookup-erase (deploy_key rs) (deploy_key gone) s.entries)

    slipped_in-reached : Reach true s slipped_in
    slipped_in-reached =
        then_do
          (then_do (then_do removed-reached j (ground arith) (take older)) j (ground arith)
            (lock_new no_mutex))
          j (ground arith) (choose_upsert (rw (no_entry older same_older) chosen_older) port_older)

    new_mutex :
        (rs : ReplicaSet)
        → deploy_key rs ≡ deploy_key gone
        → mutex_of (deploy_key rs) slipped_in.locks ≡ some removed.locks.next
    new_mutex rs h = ground (
      arith,
      lookup-insert (deploy_key rs) (deploy_key older) removed.locks.next removed.locks.entries,
    )

    unlocked-reached : Reach true s unlocked
    unlocked-reached =
        then_do (then_do slipped_in-reached i (ground arith) (unlock_load (new_mutex gone refl))) i
          (ground arith) (release {rs = gone} {m = removed.locks.next} (ground arith))

    both-reached : Reach true s both
    both-reached =
        then_do
          (then_do
            (then_do (then_do unlocked-reached k (ground arith) (take newer)) k (ground arith)
              (lock_loaded (new_mutex newer same_newer)))
            k (ground arith) (acquire (ground arith)))
          k (ground arith) (choose_upsert (rw (no_entry newer same_newer) chosen_newer) port_newer)

    recorded-reached : Reach true s recorded
    recorded-reached =
        then_do (then_do (then_do both-reached k (ground arith) upserted) k (ground arith) store) j
          (ground arith) upserted

    at_store : recorded.work j ≡ stores older
    at_store = ground arith

    overwriting : Step true recorded overwritten
    overwriting = pick j (rw at_store store)

    entry-recorded : Dict.lookup (deploy_key gone) recorded.entries ≡ some (new_active_entry newer)
    entry-recorded = ground (
      arith,
      lookup-insert (deploy_key gone) (deploy_key newer) (new_active_entry newer) both.entries,
    )

    entry-overwritten :
        Dict.lookup (deploy_key gone) overwritten.entries ≡ some (new_active_entry older)
    entry-overwritten = ground (
      arith,
      lookup-insert (deploy_key gone) (deploy_key older) (new_active_entry older) recorded.entries,
    )

-- A ReplicaSet is not taken over an entry that is newer.
turned_down :
    (newer older : ReplicaSet)
    → deploy_revision older < deploy_revision newer
    → should_process (some (new_active_entry newer)) older ≡ false
unfolding should_process new_active_entry
turned_down newer older h = ground arith

has_port : (rs : ReplicaSet) → should_process none rs ≡ true → (grpc_port rs == 0) ≡ false
unfolding should_process
has_port rs h = ground arith

Reach-trans : {s t u : Shop} → Reach true s t → Reach true t u → Reach true s u
Reach-trans r here = r
Reach-trans r (later q st) = later (Reach-trans r q) st

-- Let the workers come to a state in which worker i is at the deletion for a ReplicaSet without a
-- port and workers j and k rest, and take any two ReplicaSets with ports of the same deployment that
-- would be processed if it had no entry. Then the workers can go on to a state t with the newer one
-- recorded, and from there in one step to a state u in which the older one has replaced it, though
-- by the entry in t the older one is to be turned down.
pub older_overtakes :
    {e : Entries} {s : Shop}
    → Reach true (start e) s
    → (i j k : ℕ) (gone older newer : ReplicaSet) → i ≢ j
    → i ≢ k
    → j ≢ k
    → s.work i ≡ deletes gone
    → s.work j ≡ resting
    → s.work k ≡ resting
    → deploy_key older ≡ deploy_key gone
    → deploy_key newer ≡ deploy_key gone
    → should_process none older ≡ true
    → should_process none newer ≡ true
    → deploy_revision older < deploy_revision newer
    → (t u : Shop) × Reach true (start e) t
      × Step true t u
      × (Dict.lookup (deploy_key gone) t.entries ≡ some (new_active_entry newer))
      × (Dict.lookup (deploy_key gone) u.entries ≡ some (new_active_entry older))
      × (should_process (Dict.lookup (deploy_key gone) t.entries) older ≡ false)
older_overtakes {s = s} r i j k gone older newer ij ik jk at_i at_j at_k so sn co cn rev =
    let po = has_port older co in
    let pn = has_port newer cn in
    let newest =
      entry-recorded s i j k gone older newer ij ik jk at_i at_j at_k so sn co po cn pn in
    (
      recorded s i j k gone older newer,
      overwritten s i j k gone older newer,
      Reach-trans r
          (recorded-reached s i j k gone older newer ij ik jk at_i at_j at_k so sn co po cn pn),
      overwriting s i j k gone older newer ij ik jk at_i at_j at_k so sn co po cn pn,
      newest,
      entry-overwritten s i j k gone older newer ij ik jk at_i at_j at_k so sn co po cn pn,
      rw newest (turned_down newer older rev),
    )
