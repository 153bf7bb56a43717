-- ===== src/MutexMap/Exclusion.antt =====
-- The methods of the map of mutexes by many threads, where none of them removes an entry.
use mathlib.Core.Bool.{false≢true}
use transflect.Base.{
  Option-cases, inl, inr, ℕ, ◌<◌, String, ◌≡◌, Bool, true, false, Option, none, some, arith,
  string_eq, nat_eq, refl,
}
use transflect.Base.Dict.{lookup, lookup-insert}
use transflect.MutexMap.{MutexMap, update, mutex_of}
use transflect.MutexMap.Threads.{
  Pc, waiting, releasing, Move, lock_new, lock_loaded, acquire, unlock_load, release, remove_held,
  remove_unheld, System, Step, pick, init, Reach, here, later, held,
}

-- The mutex that a thread has loaded from the map.
abbrev pub loaded : Pc → Option (String × ℕ)
loaded (waiting n m) = some (n, m)
loaded (releasing n m) = some (n, m)
loaded _ = none

abbrev pub is_locked : Option ℕ → MutexMap → Bool
is_locked none s = false
is_locked (some m) s = s.locked m

pub record Inv (s : MutexMap) (pc : ℕ → Pc) : Type 0 where
  pub fresh : (n : String) (m : ℕ) → mutex_of n s ≡ some m → m < s.next
  pub apart : (n k : String) (m : ℕ) → mutex_of n s ≡ some m → mutex_of k s ≡ some m → n ≡ k
  pub current : (i : ℕ) (n : String) (m : ℕ) → loaded (pc i) ≡ some (n, m) → mutex_of n s ≡ some m
  pub guarded : (i : ℕ) (n : String) → held (pc i) ≡ some n → is_locked (mutex_of n s) s ≡ true
  pub unique : (i j : ℕ) (n : String) → held (pc i) ≡ some n → held (pc j) ≡ some n → i ≡ j

module _ {s : MutexMap} {pc : ℕ → Pc} (inv : Inv s pc) (i : ℕ) where
  open inv use {fresh, apart, current, guarded, unique}

  Move-fresh :
      {p p' : Pc} {s' : MutexMap}
      → Move false s p s' p'
      → (n : String) (m : ℕ) → mutex_of n s' ≡ some m
      → m < s'.next
  Move-fresh (lock_new k e) n m q = ground (arith, lookup-insert n k s.next s.entries, fresh n m)
  Move-fresh (remove_held e) n m q = cc
  Move-fresh (remove_unheld _ e) n m q = cc
  Move-fresh mv n m q = ground (arith, fresh n m)

  Move-apart :
      {p p' : Pc} {s' : MutexMap}
      → Move false s p s' p'
      → (n k : String) (m : ℕ) → mutex_of n s' ≡ some m
      → mutex_of k s' ≡ some m
      → n ≡ k
  Move-apart (lock_new j e) n k m q r = ground (
    arith,
    lookup-insert n j s.next s.entries,
    lookup-insert k j s.next s.entries,
    apart n k m,
    fresh n m,
    fresh k m,
  )
  Move-apart (remove_held e) n k m q r = cc
  Move-apart (remove_unheld _ e) n k m q r = cc
  Move-apart mv n k m q r = ground (arith, apart n k m)

  Move-current :
      {p p' : Pc} {s' : MutexMap}
      → Move false s p s' p'
      → pc i ≡ p
      → (j : ℕ) (n : String) (m : ℕ) → loaded (update pc i p' j) ≡ some (n, m)
      → mutex_of n s' ≡ some m
  Move-current (lock_new k e) h j n m q =
      ground (arith, lookup-insert n k s.next s.entries, current j n m)
  Move-current (remove_held e) h j n m q = cc
  Move-current (remove_unheld _ e) h j n m q = cc
  Move-current (lock_loaded k e) h j n m q = ground (arith, current j n m)
  Move-current (unlock_load e) h j n m q = ground (arith, current j n m)
  Move-current mv h j n m q = ground (arith, current j n m)

  Move-guarded :
      {p p' : Pc} {s' : MutexMap}
      → Move false s p s' p'
      → pc i ≡ p
      → (j : ℕ) (n : String) → held (update pc i p' j) ≡ some n
      → is_locked (mutex_of n s') s' ≡ true
  Move-guarded (lock_new k e) h j n q =
      ground (arith, lookup-insert n k s.next s.entries, guarded j n)
  Move-guarded (release {n = k} {m} e) h j n q =
      ground (arith, guarded j n, current i k m, apart n k m, unique i j k)
  Move-guarded (acquire {n = k} {m} e) h j n q = ground (arith, guarded j n, current i k m)
  Move-guarded (remove_held e) h j n q = cc
  Move-guarded (remove_unheld _ e) h j n q = cc
  Move-guarded mv h j n q = ground (arith, guarded j n)

  Move-unique :
      {p p' : Pc} {s' : MutexMap}
      → Move false s p s' p'
      → pc i ≡ p
      → (a b : ℕ) (n : String) → held (update pc i p' a) ≡ some n
      → held (update pc i p' b) ≡ some n
      → a ≡ b
  Move-unique (lock_new k e) h a b n q r = ground (arith, unique a b n, guarded a n, guarded b n)
  Move-unique (acquire {n = k} {m} e) h a b n q r =
      ground (arith, unique a b n, guarded a n, guarded b n, current i k m)
  Move-unique (remove_held e) h a b n q r = cc
  Move-unique (remove_unheld _ e) h a b n q r = cc
  Move-unique mv h a b n q r = ground (arith, unique a b n)

  pub Move-Inv : {p' : Pc} {s' : MutexMap} → Move false s (pc i) s' p' → Inv s' (update pc i p')
  Move-Inv mv = record {
    fresh = Move-fresh mv;
    apart = Move-apart mv;
    current = Move-current mv refl;
    guarded = Move-guarded mv refl;
    unique = Move-unique mv refl;
  }

pub Inv-init : Inv init.map init.pc
unfolding lookup
Inv-init = record {
  fresh = λ n m q. cc;
  apart = λ n k m q r. cc;
  current = λ i n m q. cc;
  guarded = λ i n q. cc;
  unique = λ i j n q r. cc;
}

Step-Inv : {s t : System} → Step false s t → Inv s.map s.pc → Inv t.map t.pc
Step-Inv (pick i mv) inv = Move-Inv inv i mv

pub Reach-Inv : {s t : System} → Inv s.map s.pc → Reach false s t → Inv t.map t.pc
Reach-Inv inv here = inv
Reach-Inv inv (later r st) = Step-Inv st (Reach-Inv inv r)

-- Of any number of threads that lock and unlock names of an empty map, in any order of their steps
-- and with no entry removed, no two are ever between `Lock` and `Unlock` of the same name.
pub mutual_exclusion :
    {s : System}
    → Reach false init s
    → (i j : ℕ) (n : String) → held (s.pc i) ≡ some n
    → held (s.pc j) ≡ some n
    → i ≡ j
mutual_exclusion r = (Reach-Inv Inv-init r).unique

-- Under the same conditions an `Unlock` never meets an unlocked mutex, which would end the process,
-- and always finds the entry of its name, so that it does unlock.
pub unlock_safe :
    {s : System}
    → Reach false init s
    → (i : ℕ) (n : String) → held (s.pc i) ≡ some n
    → (m : ℕ) × (mutex_of n s.map ≡ some m) × (s.map.locked m ≡ true)
unlock_safe {s} r i n h =
    let guarded = (Reach-Inv Inv-init r).guarded i n h in
    elim (Option-cases (mutex_of n s.map)) [
      | inl absent ↦ absurd (false≢true (rw absent at guarded))
      | inr (m, present) ↦ (m, present, rw present at guarded)
    ]
