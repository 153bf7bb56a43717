-- ===== src/MutexMap.antt =====
-- pkg/transflect/mutexmap.go: a map of mutexes. A mutex is a number, the heap says which are locked,
-- and `next` is the first number not handed out. `lock`, `unlock` and `remove` are the three methods
-- run to their end with nothing in between; `MutexMap/Threads.antt` interleaves their steps.
pub mod Sequential
pub mod Threads
pub mod Exclusion
pub mod Orphans
use mathlib.Core.List.{[]}
use transflect.Base.{
  ℕ, ◌+◌, String, Bool, true, false, Option, none, some, ◌==◌, nat_eq, string_eq, if◌then◌else◌,
}
use transflect.Base.Dict
use transflect.Base.Dict.{Dict}
use transflect.Outcome.{Outcome, ok, panic, Exec}

pub record MutexMap : Type 0 where
  pub entries : Dict String ℕ
  pub locked : ℕ → Bool
  pub next : ℕ

abbrev pub empty : MutexMap
empty = record { entries = []; locked = λ _. false; next = 0 }

abbrev pub update {ℓ} : {A : Type ℓ} → (ℕ → A) → ℕ → A → ℕ → A
update f i a j = if i == j then a else f j

abbrev pub mutex_of : String → MutexMap → Option ℕ
mutex_of name s = Dict.lookup name s.entries

-- `LoadOrStore` of a new locked mutex where the name has no entry.
abbrev pub store_new : String → MutexMap → MutexMap
store_new name s = record {
  entries = Dict.insert name s.next s.entries;
  locked = update s.locked s.next true;
  next = s.next + 1;
}

-- `LoadOrStore` where the name has an entry: the new mutex, locked, is dropped.
abbrev pub drop_new : MutexMap → MutexMap
drop_new s = record s { locked = update s.locked s.next true; next = s.next + 1 }

abbrev pub set_locked : ℕ → Bool → MutexMap → MutexMap
set_locked m b s = record s { locked = update s.locked m b }

abbrev pub erase_entry : String → MutexMap → MutexMap
erase_entry name s = record s { entries = Dict.erase name s.entries }

-- `Lock` of a mutex waits while it is locked: `none` is a call that waits.
acquire : ℕ → MutexMap → Option MutexMap
acquire m s = if s.locked m then none else some (set_locked m true s)

unfoldable pub lock : String → MutexMap → Option MutexMap
unfolding acquire
lock name s = elim (mutex_of name s) [
  | none ↦ some (store_new name s)
  | some m ↦ acquire m (drop_new s)
]

-- To unlock an unlocked mutex ends the process.
release : ℕ → Exec MutexMap (Unit {0})
release m s =
    if s.locked m
    then (ok tt, set_locked m false s)
    else (panic "fatal error: sync: unlock of unlocked mutex", s)

unfoldable pub unlock : String → Exec MutexMap (Unit {0})
unfolding release
unlock name s = elim (mutex_of name s) [ none ↦ (ok tt, s) | some m ↦ release m s ]

unfoldable pub remove : String → MutexMap → MutexMap
remove name s = erase_entry name s
