-- ===== src/MutexMap/Sequential.antt =====
-- `Lock`, `Remove` and `Unlock` with no other thread in between.
use transflect.Base.{
  ℕ, ◌<◌, String, ◌≡◌, Bool, true, false, none, some, arith, ◌==◌, string_eq, nat_eq, Option-cases,
  inl, inr,
}
use transflect.Base.Dict.{lookup-insert, lookup-erase}
use transflect.Outcome.{ok}
use transflect.MutexMap.{MutexMap, mutex_of, store_new, drop_new, set_locked, lock, unlock, remove}

-- Each name has a mutex of its own, and a mutex is locked exactly if `locked_name` says so of its
-- name.
pub record Marks (locked_name : String → Bool) (s : MutexMap) : Type 0 where
  pub fresh : (n : String) (m : ℕ) → mutex_of n s ≡ some m → m < s.next
  pub apart : (n k : String) (m : ℕ) → mutex_of n s ≡ some m → mutex_of k s ≡ some m → n ≡ k
  pub marked : (n : String) (m : ℕ) → mutex_of n s ≡ some m → s.locked m ≡ locked_name n

-- No entry is locked.
abbrev pub IsQuiet : MutexMap → Type 0
IsQuiet = Marks (λ n. false)

-- The entry of a name is locked, if there is one, and no other.
abbrev pub IsHeld : String → MutexMap → Type 0
IsHeld name = Marks (λ n. n == name)

module _ {s : MutexMap} (name : String) where
  store_new-IsHeld : mutex_of name s ≡ none → IsQuiet s → IsHeld name (store_new name s)
  store_new-IsHeld e quiet = record {
    fresh = λ n m q. ground (arith, fresh n m, lookup-insert n name s.next s.entries);
    apart = λ n k m q r. ground (
      arith,
      fresh n m,
      fresh k m,
      apart n k m,
      lookup-insert n name s.next s.entries,
      lookup-insert k name s.next s.entries,
    );
    marked = λ n m q. ground (arith, fresh n m, marked n m, lookup-insert n name s.next s.entries);
  }
    where
      open quiet use {fresh, apart, marked}

  acquired-IsHeld :
      (m : ℕ) → mutex_of name s ≡ some m → IsQuiet s → IsHeld name (set_locked m true (drop_new s))
  acquired-IsHeld l e quiet = record {
    fresh = λ n m q. ground (arith, fresh n m);
    apart = λ n k m q r. ground (arith, apart n k m);
    marked = λ n m q. ground (arith, fresh n m, fresh name l, marked n m, apart n name l);
  }
    where
      open quiet use {fresh, apart, marked}

  -- With no entry locked, `Lock` of a name does not wait, and locks it alone.
  pub lock-IsHeld : IsQuiet s → (s' : MutexMap) × (lock name s ≡ some s') × IsHeld name s'
  unfolding lock
  lock-IsHeld quiet = elim (Option-cases (mutex_of name s)) [
    | inl e ↦ (store_new name s, ground arith, store_new-IsHeld e quiet)
    | inr (m, e) ↦
        let free = quiet.marked name m e in
        let fresh = quiet.fresh name m e in
        (set_locked m true (drop_new s), ground arith, acquired-IsHeld m e quiet)
  ]

  pub remove-IsHeld : IsHeld name s → IsHeld name (remove name s)
  unfolding remove
  remove-IsHeld held = record {
    fresh = λ n m q. ground (arith, fresh n m, lookup-erase n name s.entries);
    apart = λ n k m q r.
        ground (arith, apart n k m, lookup-erase n name s.entries, lookup-erase k name s.entries);
    marked = λ n m q. ground (arith, marked n m, lookup-erase n name s.entries);
  }
    where
      open held use {fresh, apart, marked}

  -- `Unlock` by the holder of the one locked name ends well and leaves no entry locked, whether the
  -- name still has its entry or not.
  pub unlock-IsQuiet : IsHeld name s → ((unlock name s).0 ≡ ok tt) × IsQuiet (unlock name s).1
  unfolding unlock
  unlock-IsQuiet held = elim (Option-cases (mutex_of name s)) [
    | inl e ↦ (
      ground arith,
      record {
        fresh = λ n m q. ground (arith, fresh n m);
        apart = λ n k m q r. ground (arith, apart n k m);
        marked = λ n m q. ground (arith, marked n m);
      },
    )
    | inr (l, e) ↦ (
      ground (arith, marked name l),
      record {
        fresh = λ n m q. ground (arith, fresh n m, marked name l);
        apart = λ n k m q r. ground (arith, apart n k m, marked name l);
        marked = λ n m q. ground (arith, marked n m, marked name l, apart n name l);
      },
    )
  ]
    where
      open held use {fresh, apart, marked}
