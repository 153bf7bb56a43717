-- ===== src/Operator/Workers/Fresh.antt =====
-- What workers that wait for one another keep: a decision holds until its ReplicaSet is recorded.
use mathlib.Core.Path.{fun_ext}
use transflect.Base.{
  ℕ, ◌≤◌, String, ◌≡◌, refl, Bool, true, false, Option, none, some, ◌⊎◌, inl, inr, Bool-cases,
  arith, ◌==◌, nat_eq, string_eq,
}
use transflect.Base.Dict
use transflect.Base.Dict.{lookup-insert, lookup-erase}
use transflect.Kube.{ReplicaSet}
use transflect.Replica.{ActiveEntry, deploy_key, new_active_entry}
use transflect.MutexMap.{MutexMap, update}
use transflect.MutexMap.Threads
use transflect.MutexMap.Threads.{Pc, Move, held}
use transflect.MutexMap.Exclusion.{Inv, Inv-init, Move-Inv}
use transflect.Operator.{should_process}
use transflect.Operator.Decision.{should_process_exact}
use transflect.Operator.Workers.{
  Entries, Work, resting, wants, waits, decides, upserts, stores, deletes, forgets, removes, leaves,
  unlocks, cleans, Act, take, lock_new, lock_loaded, acquire, ignore, choose_upsert, choose_delete,
  upsert_failed, upserted, store, deleted, forget, remove, unlock_absent, unlock_load, release,
  clean_entry, clean_lock, Shop, Step, pick, Reach, here, later, start, pc_of,
}

-- A step of a worker is a step on the map of mutexes, or leaves that alone.
Act-Move :
    {removal : Bool} {l l' : MutexMap} {e e' : Entries} {w w' : Work}
    → Act removal l e w l' e' w'
    → Move removal l (pc_of w) l' (pc_of w') ⊎ (l ≡ l') × (pc_of w ≡ pc_of w')
Act-Move (take rs) = inr (refl, refl)
Act-Move (lock_new h) = inl (Threads.lock_new _ h)
Act-Move (lock_loaded h) = inl (Threads.lock_loaded _ h)
Act-Move (acquire h) = inl (Threads.acquire h)
Act-Move (ignore h) = inr (refl, refl)
Act-Move (choose_upsert h k) = inr (refl, refl)
Act-Move (choose_delete h k r) = inr (refl, refl)
Act-Move upsert_failed = inr (refl, refl)
Act-Move upserted = inr (refl, refl)
Act-Move store = inr (refl, refl)
Act-Move deleted = inr (refl, refl)
Act-Move (forget r) = inr (refl, refl)
Act-Move (remove r) = inl (Threads.remove_held r)
Act-Move (unlock_absent h) = inl (Threads.unlock_absent h)
Act-Move (unlock_load h) = inl (Threads.unlock_load h)
Act-Move (release h) = inl (Threads.release h)
Act-Move (clean_entry key r) = inr (refl, refl)
Act-Move (clean_lock r) = inl (Threads.remove_unheld _ r)

abbrev pub pcs : (ℕ → Work) → ℕ → Pc
pcs work i = pc_of (work i)

pcs-update :
    (work : ℕ → Work) (i : ℕ) (w : Work) → update (pcs work) i (pc_of w) ≡ pcs (update work i w)
pcs-update work i w = fun_ext λ j. ground arith

pcs-same :
    (work : ℕ → Work) (i : ℕ) (w : Work)
    → pc_of (work i) ≡ pc_of w
    → pcs (update work i w) ≡ pcs work
pcs-same work i w h = fun_ext λ j. ground arith

-- The ReplicaSet that a worker has decided to record.
abbrev pub decided : Work → Option ReplicaSet
decided (upserts rs) = some rs
decided (stores rs) = some rs
decided _ = none

pub record IsFresh (s : Shop) : Type 0 where
  pub locked : Inv s.locks (pcs s.work)
  pub due :
      (i : ℕ) (rs : ReplicaSet)
      → decided (s.work i) ≡ some rs
      → should_process (Dict.lookup (deploy_key rs) s.entries) rs ≡ true

decided-held :
    (w : Work) (rs : ReplicaSet) → decided w ≡ some rs → held (pc_of w) ≡ some (deploy_key rs)
decided-held (upserts rs') rs h = ground arith
decided-held (stores rs') rs h = ground arith
decided-held resting rs h = cc
decided-held (wants rs') rs h = cc
decided-held (waits rs' m) rs h = cc
decided-held (decides rs') rs h = cc
decided-held (deletes rs') rs h = cc
decided-held (forgets rs') rs h = cc
decided-held (removes rs') rs h = cc
decided-held (leaves rs') rs h = cc
decided-held (unlocks rs' m) rs h = cc
decided-held (cleans key) rs h = cc

module _ {s : Shop} (fresh : IsFresh s) (i : ℕ) where
  open fresh use {locked, due}

  Act-Inv :
      {l : MutexMap} {e : Entries} {w : Work}
      → Act false s.locks s.entries (s.work i) l e w
      → Inv l (pcs (update s.work i w))
  Act-Inv {l} {e} {w} act = elim (Act-Move act) [
    | inl mv ↦ rw (← pcs-update s.work i w) (Move-Inv locked i mv)
    | inr (same, p) ↦ rw (pcs-same s.work i w p, ← same) locked
  ]

  -- `w` is where the worker of the step stood.
  Act-due :
      {w w' : Work} {l : MutexMap} {e : Entries}
      → Act false s.locks s.entries w l e w'
      → s.work i ≡ w
      → (j : ℕ) (rs : ReplicaSet) → decided (update s.work i w' j) ≡ some rs
      → should_process (Dict.lookup (deploy_key rs) e) rs ≡ true
  Act-due (store {rs = new}) at j rs h = ground (
    arith,
    due j rs,
    decided-held (s.work j) rs,
    locked.unique i j (deploy_key rs),
    lookup-insert (deploy_key rs) (deploy_key new) (new_active_entry new) s.entries,
  )
  Act-due (forget r) at j rs h = cc
  Act-due (remove r) at j rs h = cc
  Act-due (choose_delete p q r) at j rs h = cc
  Act-due (clean_entry key r) at j rs h = cc
  Act-due (clean_lock r) at j rs h = cc
  Act-due (choose_upsert {rs = new} p q) at j rs h = ground (arith, due j rs)
  Act-due (upserted {rs = new}) at j rs h = ground (arith, due j rs, due i new)
  Act-due mv at j rs h = ground (arith, due j rs)

start-IsFresh : (e : Entries) → IsFresh (start e)
start-IsFresh e = record { locked = Inv-init; due = λ i rs h. cc }

Step-IsFresh : {s t : Shop} → Step false s t → IsFresh s → IsFresh t
Step-IsFresh (pick i act) fresh = record {
  locked = Act-Inv fresh i act;
  due = Act-due fresh i act refl;
}

pub Reach-IsFresh : {s t : Shop} → IsFresh s → Reach false s t → IsFresh t
Reach-IsFresh fresh here = fresh
Reach-IsFresh fresh (later r st) = Step-IsFresh st (Reach-IsFresh fresh r)

-- However any number of workers are interleaved, as long as no ReplicaSet without a port is let
-- through and no Deployment is deleted: a worker that has decided for its ReplicaSet, and is before
-- the call of the cluster or behind it, would still decide for it, by the entry of the deployment as
-- it is now, whatever the others recorded between its decision and now.
pub decision_holds :
    {e : Entries} {s : Shop}
    → Reach false (start e) s
    → (i : ℕ) (rs : ReplicaSet) → decided (s.work i) ≡ some rs
    → should_process (Dict.lookup (deploy_key rs) s.entries) rs ≡ true
decision_holds {e} r i rs h = (Reach-IsFresh (start-IsFresh e) r).due i rs h

-- An entry stays, and its revision does not fall.
abbrev pub Keeps : Option ActiveEntry → Option ActiveEntry → Type 0
Keeps none new = Unit
Keeps (some old) none = ⊥
Keeps (some old) (some new) = old.revision ≤ new.revision

Keeps-refl : (x : Option ActiveEntry) → Keeps x x
Keeps-refl none = tt
Keeps-refl (some x) = omega arith

Keeps-trans : (x y z : Option ActiveEntry) → Keeps x y → Keeps y z → Keeps x z
Keeps-trans none y z h k = tt
Keeps-trans (some x) none z h k = absurd h
Keeps-trans (some x) (some y) none h k = k
Keeps-trans (some x) (some y) (some z) h k = omega arith

-- What was decided for is not older than the entry.
not_older :
    (found : Option ActiveEntry) (rs : ReplicaSet)
    → should_process found rs ≡ true
    → Keeps found (some (new_active_entry rs))
unfolding new_active_entry
not_older none rs h = tt
not_older (some old) rs h = ((should_process_exact (some old) rs).0 h).1.not_older

same_text : (a b : String) → (a == b) ≡ true → a ≡ b
same_text a b h = ground arith

insert-Keeps :
    (e : Entries) (rs : ReplicaSet) (key : String)
    → should_process (Dict.lookup (deploy_key rs) e) rs ≡ true
    → Keeps
        (Dict.lookup key e)
        (Dict.lookup key (Dict.insert (deploy_key rs) (new_active_entry rs) e))
insert-Keeps e rs key h = elim (Bool-cases (key == deploy_key rs)) [
  | inl same ↦
      rw (lookup-insert key (deploy_key rs) (new_active_entry rs) e, same)
        (rw (same_text key (deploy_key rs) same) (not_older _ rs h))
  | inr apart ↦ rw (lookup-insert key (deploy_key rs) (new_active_entry rs) e, apart) (Keeps-refl _)
]

Act-Keeps :
    {l l' : MutexMap} {e e' : Entries} {w w' : Work}
    → Act false l e w l' e' w'
    → ((rs : ReplicaSet) → w ≡ stores rs → should_process (Dict.lookup (deploy_key rs) e) rs ≡ true)
    → (key : String) → Keeps (Dict.lookup key e) (Dict.lookup key e')
Act-Keeps {e = e} (store {rs}) due key = insert-Keeps e rs key (due rs refl)
Act-Keeps (forget r) due key = cc
Act-Keeps (clean_entry k r) due key = cc
Act-Keeps (take rs) due key = Keeps-refl _
Act-Keeps (lock_new h) due key = Keeps-refl _
Act-Keeps (lock_loaded h) due key = Keeps-refl _
Act-Keeps (acquire h) due key = Keeps-refl _
Act-Keeps (ignore h) due key = Keeps-refl _
Act-Keeps (choose_upsert h k) due key = Keeps-refl _
Act-Keeps (choose_delete h k r) due key = Keeps-refl _
Act-Keeps upsert_failed due key = Keeps-refl _
Act-Keeps upserted due key = Keeps-refl _
Act-Keeps deleted due key = Keeps-refl _
Act-Keeps (remove r) due key = Keeps-refl _
Act-Keeps (unlock_absent h) due key = Keeps-refl _
Act-Keeps (unlock_load h) due key = Keeps-refl _
Act-Keeps (release h) due key = Keeps-refl _
Act-Keeps (clean_lock r) due key = Keeps-refl _

Step-Keeps :
    {s t : Shop} (key : String)
    → IsFresh s
    → Step false s t
    → Keeps (Dict.lookup key s.entries) (Dict.lookup key t.entries)
Step-Keeps key fresh (pick i act) = Act-Keeps act (λ rs h. fresh.due i rs (ground arith)) key

Reach-Keeps :
    {s t : Shop} (key : String)
    → IsFresh s
    → Reach false s t
    → Keeps (Dict.lookup key s.entries) (Dict.lookup key t.entries)
Reach-Keeps key fresh here = Keeps-refl _
Reach-Keeps key fresh (later r st) =
    Keeps-trans _ _ _ (Reach-Keeps key fresh r) (Step-Keeps key (Reach-IsFresh fresh r) st)

-- As long as no ReplicaSet without a port is let through and no Deployment is deleted, no step of any
-- worker takes an entry away or replaces it by an older one: between any two states that the workers
-- go through, in this order, every entry stays, and its revision is at least what it was.
pub revisions_rise :
    {e : Entries} {s t : Shop}
    → Reach false (start e) s
    → Reach false s t
    → (key : String) → Keeps (Dict.lookup key s.entries) (Dict.lookup key t.entries)
revisions_rise {e} r r' key = Reach-Keeps key (Reach-IsFresh (start-IsFresh e) r) r'
