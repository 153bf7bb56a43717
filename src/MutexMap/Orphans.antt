-- ===== src/MutexMap/Orphans.antt =====
-- `Remove` by the holder of a name, as `processReplicaset` of cmd/transflect-operator/operator.go
-- calls it before the deferred `Unlock`, and the threads that wait for the name.
use transflect.Base.{
  ℕ, ◌<◌, String, ◌≡◌, refl, ◌≢◌, Bool, true, false, some, none, arith, string_eq, nat_eq,
}
use transflect.Base.Dict.{lookup-insert, lookup-erase}
use transflect.MutexMap.{MutexMap, update, mutex_of, erase_entry}
use transflect.MutexMap.Threads.{
  Pc, idle, waiting, holding, releasing, Move, lock_new, acquire, unlock_load, release, remove_held,
  remove_unheld, unlock_absent, System, Step, pick, init, Reach, here, later,
}
use transflect.MutexMap.Exclusion.{Inv, Inv-init, Reach-Inv}

-- The mutex m is locked, no name leads to it, and no thread is about to unlock it.
record IsOrphan (m : ℕ) (s : MutexMap) (pc : ℕ → Pc) : Type 0 where
  spent : m < s.next
  shut : s.locked m ≡ true
  unlisted : (n : String) → mutex_of n s ≢ some m
  unreleased : (i : ℕ) (n : String) → pc i ≢ releasing n m

module _ {m : ℕ} {s : MutexMap} {pc : ℕ → Pc} (orphan : IsOrphan m s pc) (i : ℕ) {b : Bool} where
  open orphan use {spent, shut, unlisted, unreleased}

  Move-shut : {p p' : Pc} {s' : MutexMap} → Move b s p s' p' → pc i ≡ p → s'.locked m ≡ true
  Move-shut (release {n} {m = k} e) h = ground (arith, unreleased i n)
  Move-shut (lock_new n e) h = ground arith
  Move-shut mv h = ground arith

  Move-spent : {p p' : Pc} {s' : MutexMap} → Move b s p s' p' → m < s'.next
  Move-spent (lock_new n e) = ground arith
  Move-spent mv = ground arith

  Move-unlisted :
      {p p' : Pc} {s' : MutexMap} → Move b s p s' p' → (n : String) → mutex_of n s' ≢ some m
  Move-unlisted (lock_new k e) n = ground (arith, unlisted n, lookup-insert n k s.next s.entries)
  Move-unlisted (remove_held {n = k} e) n = ground (arith, unlisted n, lookup-erase n k s.entries)
  Move-unlisted (remove_unheld k e) n = ground (arith, unlisted n, lookup-erase n k s.entries)
  Move-unlisted mv n = ground (arith, unlisted n)

  Move-unreleased :
      {p p' : Pc} {s' : MutexMap}
      → Move b s p s' p'
      → (j : ℕ) (n : String) → update pc i p' j ≢ releasing n m
  Move-unreleased (unlock_load {n = k} {m = l} e) j n = ground (arith, unreleased j n, unlisted k)
  Move-unreleased (lock_new k e) j n = ground (arith, unreleased j n)
  Move-unreleased mv j n = ground (arith, unreleased j n)

  Move-IsOrphan : {p' : Pc} {s' : MutexMap} → Move b s (pc i) s' p' → IsOrphan m s' (update pc i p')
  Move-IsOrphan mv = record {
    spent = Move-spent mv;
    shut = Move-shut mv refl;
    unlisted = Move-unlisted mv;
    unreleased = Move-unreleased mv;
  }

  -- A thread that waits for the mutex stays where it is.
  Move-waiting :
      {p p' : Pc} {s' : MutexMap}
      → Move b s p s' p'
      → pc i ≡ p
      → (j : ℕ) (n : String) → pc j ≡ waiting n m
      → update pc i p' j ≡ waiting n m
  Move-waiting (acquire {n = k} {m = l} e) h j n q = ground arith
  Move-waiting (lock_new k e) h j n q = ground arith
  Move-waiting mv h j n q = ground arith

Step-waits :
    {m : ℕ} {b : Bool} {s t : System} (j : ℕ) (n : String)
    → Step b s t
    → IsOrphan m s.map s.pc
    → s.pc j ≡ waiting n m
    → IsOrphan m t.map t.pc × (t.pc j ≡ waiting n m)
Step-waits j n (pick i mv) orphan q =
    (Move-IsOrphan orphan i mv, Move-waiting orphan i mv refl j n q)

Reach-waits :
    {m : ℕ} {b : Bool} {s t : System} (j : ℕ) (n : String)
    → IsOrphan m s.map s.pc
    → s.pc j ≡ waiting n m
    → Reach b s t
    → IsOrphan m t.map t.pc × (t.pc j ≡ waiting n m)
Reach-waits j n orphan q here = (orphan, q)
Reach-waits j n orphan q (later r st) =
    let (orphan', q') = Reach-waits j n orphan q r in Step-waits j n st orphan' q'

-- Thread `i` has removed the entry of its name and run through `Unlock`.
abbrev pub after_removal : ℕ → String → System → System
after_removal i n s = record {
  map = erase_entry n s.map;
  pc = update (update s.pc i (holding n)) i idle;
}

update_self : (pc : ℕ → Pc) (i : ℕ) (p : Pc) → update pc i p i ≡ p
update_self pc i p = ground arith

erased : (n : String) (s : MutexMap) → mutex_of n (erase_entry n s) ≡ none
erased n s = ground (arith, lookup-erase n n s.entries)

removal_runs :
    (s : System) (i : ℕ) (n : String) → s.pc i ≡ holding n → Reach true s (after_removal i n s)
removal_runs s i n h = later (later here removal) unlocking
  where
    removed : System
    removed = record { map = erase_entry n s.map; pc = update s.pc i (holding n) }

    removing : Move true s.map (s.pc i) (erase_entry n s.map) (holding n)
    removing = rw h (remove_held refl)

    removal : Step true s removed
    removal = pick i removing

    leaving : Move true removed.map (removed.pc i) removed.map idle
    leaving = rw (update_self s.pc i (holding n)) (unlock_absent (erased n s.map))

    unlocking : Step true removed (after_removal i n s)
    unlocking = pick i leaving

module _ {s : MutexMap} {pc : ℕ → Pc} (inv : Inv s pc) (i j : ℕ) (n : String) (m : ℕ) where
  open inv use {fresh, apart, current, guarded, unique}

  removal-IsOrphan :
      pc i ≡ holding n
      → pc j ≡ waiting n m
      → IsOrphan m (erase_entry n s) (update (update pc i (holding n)) i idle)
  removal-IsOrphan h q = record {
    spent = ground (arith, current j n m, fresh n m);
    shut = ground (arith, current j n m, guarded i n);
    unlisted = λ k. ground (arith, current j n m, apart k n m, lookup-erase k n s.entries);
    unreleased = λ k x. ground (arith, current j n m, current k x m, apart x n m, unique k i n);
  }

Reach-trans : {b : Bool} {s t u : System} → Reach b s t → Reach b t u → Reach b s u
Reach-trans r here = r
Reach-trans r (later q st) = later (Reach-trans r q) st

-- Take any state that threads can come to from an empty map with no entry removed, in which thread
-- i holds a name and thread j waits for the mutex of that name. Once i has removed the entry and
-- called `Unlock`, j waits for ever: in every state t that can follow, whatever the other threads
-- do, it stands where it stood. And each such t can be reached from the given state.
pub removal_strands_waiter :
    {s t : System}
    → Reach false init s
    → (i j : ℕ) (n : String) (m : ℕ) → s.pc i ≡ holding n
    → s.pc j ≡ waiting n m
    → Reach true (after_removal i n s) t
    → Reach true s t × (t.pc j ≡ waiting n m)
removal_strands_waiter {s} r i j n m h q r' = (
  Reach-trans (removal_runs s i n h) r',
  (Reach-waits j n (removal-IsOrphan (Reach-Inv Inv-init r) i j n m h q) (ground arith) r').1,
)
