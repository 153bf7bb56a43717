-- ===== src/Election.antt =====
-- Several operators that stand for one lease: `start` of cmd/transflect-operator/operator.go with the
-- callbacks that it gives to the leader election of client-go, over the life cycle of each operator.
-- Of the election the documented behaviour is modelled: `RunOrDie` takes the lease when it is free and
-- then runs `OnStartedLeading` beside itself; when its context is cancelled it gives the lease back
-- (`ReleaseOnCancel`), and when it cannot renew the lease it loses it; then `OnStoppedLeading` runs,
-- and `RunOrDie` returns. Cancelled before it has the lease, it runs `OnStoppedLeading` alone.
pub mod Lives
pub mod Alone
pub mod Succession
pub mod Overlap
use transflect.Base.{ℕ, zero, suc, ◌≡◌, Bool, true, false, Option, none, some}
use transflect.MutexMap.{update}
use transflect.Lifecycle
use transflect.Lifecycle.{init, done, failed, make, ask}

-- Where an operator stands in the election: `cancelled` still has the lease, `released` has it no
-- more, `withdrawn` never had it, and these two run `OnStoppedLeading`.
pub data Standing : Type 0 where
  candidate leading cancelled released gone withdrawn : Standing

-- `OnStartedLeading` has been called.
abbrev pub has_started : Standing → Bool
has_started candidate = false
has_started withdrawn = false
has_started _ = true

-- `OnStoppedLeading` has been called.
abbrev pub has_stopped : Standing → Bool
has_stopped released = true
has_stopped gone = true
has_stopped withdrawn = true
has_stopped _ = false

pub record Member : Type 0 where
  pub standing : Standing
  pub life : Lifecycle.State

pub record Fleet : Type 0 where
  pub lease : Option ℕ
  pub member : ℕ → Member

-- Caller 0 of `stop` is `OnStartedLeading` behind an error of `startLeading`, caller 1 is
-- `OnStoppedLeading`.
abbrev pub MayAsk : Member → ℕ → Type 0
MayAsk m zero = m.life.lead ≡ failed
MayAsk m (suc zero) = has_stopped m.standing ≡ true
MayAsk m (suc (suc i)) = ⊥

-- When a step of the life cycle may be taken.
abbrev pub Permits : (m : Member) {s t : Lifecycle.State} → Lifecycle.Step s t → Type 0
Permits m (make h) = has_started m.standing ≡ true
Permits m (ask i h) = MayAsk m i
Permits m _ = Unit

abbrev pub put : Fleet → ℕ → Member → Fleet
put f i m = record f { member = update f.member i m }

-- Where `graceful` is true, no leader loses its lease, and no leader's context is cancelled but by its
-- own `OnStartedLeading`.
pub data Step (graceful : Bool) (f : Fleet) : Fleet → Type 0 where
  acquire :
      (i : ℕ)
      → (f.member i).standing ≡ candidate
      → f.lease ≡ none
      → Step graceful f
          (record (put f i (record (f.member i) { standing = leading })) { lease = some i })
  live :
      (i : ℕ) {t : Lifecycle.State} (st : Lifecycle.Step (f.member i).life t)
      → Permits (f.member i) st
      → Step graceful f (put f i (record (f.member i) { life = t }))
  -- `cancel()` behind `o.stop()`
  cancel_failed :
      (i : ℕ)
      → (f.member i).standing ≡ leading
      → (f.member i).life.lead ≡ failed
      → (f.member i).life.caller 0 ≡ done
      → Step graceful f (put f i (record (f.member i) { standing = cancelled }))
  -- a signal, or the failure of another task of the process
  cancel_outer :
      (i : ℕ)
      → graceful ≡ false
      → (f.member i).standing ≡ leading
      → Step graceful f (put f i (record (f.member i) { standing = cancelled }))
  -- the same before the lease is had
  withdraw :
      (i : ℕ)
      → (f.member i).standing ≡ candidate
      → Step graceful f (put f i (record (f.member i) { standing = withdrawn }))
  release :
      (i : ℕ)
      → (f.member i).standing ≡ cancelled
      → Step graceful f
          (record (put f i (record (f.member i) { standing = released })) { lease = none })
  lapse :
      (i : ℕ)
      → graceful ≡ false
      → (f.member i).standing ≡ leading
      → Step graceful f
          (record (put f i (record (f.member i) { standing = released })) { lease = none })
  end :
      (i : ℕ)
      → (f.member i).standing ≡ released
      → (f.member i).life.caller 1 ≡ done
      → Step graceful f (put f i (record (f.member i) { standing = gone }))

pub data Reach (graceful : Bool) (f : Fleet) : Fleet → Type 0 where
  here : Reach graceful f f
  later : {g h : Fleet} → Reach graceful f g → Step graceful g h → Reach graceful f h

abbrev pub start : Fleet
start = record { lease = none; member = λ _. record { standing = candidate; life = init } }
