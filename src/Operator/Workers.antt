-- ===== src/Operator/Workers.antt =====
-- Any number of workers of cmd/transflect-operator/operator.go at once, with the handler for deleted
-- Deployments: `next` and `cleanupDeployment` as steps, one shared access to `activeState` or to the
-- map of mutexes at a time. The calls of the cluster are steps that may end either way.
pub mod Fresh
pub mod Overtaken
pub mod Alone
pub mod Rounds
use transflect.Base.{ℕ, String, ◌≡◌, Bool, true, false, Option, none, some, ◌==◌, nat_eq, string_eq}
use transflect.Base.Dict
use transflect.Base.Dict.{Dict}
use transflect.Kube.{ReplicaSet}
use transflect.Replica.{ActiveEntry, grpc_port, deploy_key, new_active_entry}
use transflect.MutexMap.{
  MutexMap, empty, update, mutex_of, store_new, drop_new, set_locked, erase_entry,
}
use transflect.MutexMap.Threads.{Pc, idle, waiting, holding, releasing, System}
use transflect.Operator.{should_process}

abbrev pub Entries : Type 0
Entries = Dict String ActiveEntry

-- Where a worker stands in `next`, with its ReplicaSet, or the handler in `cleanupDeployment`, with
-- its key. `waits` is at the `Lock` of a mutex loaded from the map, `unlocks` at the `Unlock` of one;
-- `deletes` and `upserts` are at the calls of the cluster, `forgets` and `stores` behind them.
pub data Work : Type 0 where
  resting : Work
  wants : ReplicaSet → Work
  waits : ReplicaSet → ℕ → Work
  decides upserts stores deletes forgets removes leaves : ReplicaSet → Work
  unlocks : ReplicaSet → ℕ → Work
  cleans : String → Work

-- One step of one worker, from locks and entries to locks and entries. Where `removal` is false, no
-- ReplicaSet without a port is let through and no Deployment is deleted.
pub data Act (removal : Bool) (l : MutexMap) (e : Entries)
    : Work → MutexMap → Entries → Work → Type 0 where
  take : (rs : ReplicaSet) → Act removal l e resting l e (wants rs)
  lock_new :
      {rs : ReplicaSet}
      → mutex_of (deploy_key rs) l ≡ none
      → Act removal l e (wants rs) (store_new (deploy_key rs) l) e (decides rs)
  lock_loaded :
      {rs : ReplicaSet} {m : ℕ}
      → mutex_of (deploy_key rs) l ≡ some m
      → Act removal l e (wants rs) (drop_new l) e (waits rs m)
  acquire :
      {rs : ReplicaSet} {m : ℕ}
      → l.locked m ≡ false
      → Act removal l e (waits rs m) (set_locked m true l) e (decides rs)
  ignore :
      {rs : ReplicaSet}
      → should_process (Dict.lookup (deploy_key rs) e) rs ≡ false
      → Act removal l e (decides rs) l e (leaves rs)
  choose_upsert :
      {rs : ReplicaSet}
      → should_process (Dict.lookup (deploy_key rs) e) rs ≡ true
      → (grpc_port rs == 0) ≡ false
      → Act removal l e (decides rs) l e (upserts rs)
  choose_delete :
      {rs : ReplicaSet}
      → should_process (Dict.lookup (deploy_key rs) e) rs ≡ true
      → (grpc_port rs == 0) ≡ true
      → removal ≡ true
      → Act removal l e (decides rs) l e (deletes rs)
  upsert_failed : {rs : ReplicaSet} → Act removal l e (upserts rs) l e (leaves rs)
  upserted : {rs : ReplicaSet} → Act removal l e (upserts rs) l e (stores rs)
  store :
      {rs : ReplicaSet}
      → Act removal l e
          (stores rs)
          l
          (Dict.insert (deploy_key rs) (new_active_entry rs) e)
          (leaves rs)
  deleted : {rs : ReplicaSet} → Act removal l e (deletes rs) l e (forgets rs)
  forget :
      {rs : ReplicaSet}
      → removal ≡ true
      → Act removal l e (forgets rs) l (Dict.erase (deploy_key rs) e) (removes rs)
  remove :
      {rs : ReplicaSet}
      → removal ≡ true
      → Act removal l e (removes rs) (erase_entry (deploy_key rs) l) e (leaves rs)
  unlock_absent :
      {rs : ReplicaSet}
      → mutex_of (deploy_key rs) l ≡ none
      → Act removal l e (leaves rs) l e resting
  unlock_load :
      {rs : ReplicaSet} {m : ℕ}
      → mutex_of (deploy_key rs) l ≡ some m
      → Act removal l e (leaves rs) l e (unlocks rs m)
  release :
      {rs : ReplicaSet} {m : ℕ}
      → l.locked m ≡ true
      → Act removal l e (unlocks rs m) (set_locked m false l) e resting
  clean_entry :
      (key : String) → removal ≡ true → Act removal l e resting l (Dict.erase key e) (cleans key)
  clean_lock :
      {key : String} → removal ≡ true → Act removal l e (cleans key) (erase_entry key l) e resting

pub record Shop : Type 0 where
  pub locks : MutexMap
  pub entries : Entries
  pub work : ℕ → Work

abbrev pub step_to : Shop → ℕ → MutexMap → Entries → Work → Shop
step_to s i l e w = record { locks = l; entries = e; work = update s.work i w }

pub data Step (removal : Bool) (s : Shop) : Shop → Type 0 where
  pick :
      (i : ℕ) {l : MutexMap} {e : Entries} {w : Work}
      → Act removal s.locks s.entries (s.work i) l e w
      → Step removal s (step_to s i l e w)

pub data Reach (removal : Bool) (s : Shop) : Shop → Type 0 where
  here : Reach removal s s
  later : {t u : Shop} → Reach removal s t → Step removal t u → Reach removal s u

-- What a new leader starts its workers with: the entries of `syncActive`, and no lock.
abbrev pub start : Entries → Shop
start e = record { locks = empty; entries = e; work = λ _. resting }

-- Where a worker stands with the map of mutexes.
abbrev pub pc_of : Work → Pc
pc_of resting = idle
pc_of (wants rs) = idle
pc_of (waits rs m) = waiting (deploy_key rs) m
pc_of (decides rs) = holding (deploy_key rs)
pc_of (upserts rs) = holding (deploy_key rs)
pc_of (stores rs) = holding (deploy_key rs)
pc_of (deletes rs) = holding (deploy_key rs)
pc_of (forgets rs) = holding (deploy_key rs)
pc_of (removes rs) = holding (deploy_key rs)
pc_of (leaves rs) = holding (deploy_key rs)
pc_of (unlocks rs m) = releasing (deploy_key rs) m
pc_of (cleans key) = idle
