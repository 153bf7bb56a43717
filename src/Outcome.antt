-- ===== src/Outcome.antt =====
-- How a call ends: with a value, with an error, or with a run-time panic. A call that changes state
-- returns the state beside each of these.
use transflect.Base.{ℕ, String}

-- The kinds of an API server's error that the program tells apart.
pub data ApiError : Type 0 where
  already_exists not_found : ApiError
  other : String → ApiError

-- `errors.New`, `errors.Wrap`, or the error of a call of the API server.
pub data Error : Type 0 where
  message : String → Error
  api : ApiError → Error
  wrap : String → Error → Error

pub data Outcome {ℓ} (A : Type ℓ) : Type ℓ where
  ok : A → Outcome A
  err : Error → Outcome A
  panic : String → Outcome A

-- The exit code of a process: 1 at the `os.Exit` behind an error, 2 behind a panic.
abbrev pub exit_code {ℓ} : {A : Type ℓ} → Outcome A → ℕ
exit_code (ok a) = 0
exit_code (err e) = 1
exit_code (panic p) = 2

-- `errors.Wrap(err, text)` where `err` is not nil.
abbrev pub wrapped {ℓ} : {A : Type ℓ} → String → Outcome A → Outcome A
wrapped text (err e) = err (wrap text e)
wrapped text (ok a) = ok a
wrapped text (panic p) = panic p

-- A call over a state: what it wrote before an error or a panic stays written.
abbrev pub Exec {ℓ κ} : Type ℓ → Type κ → Type (ℓ ⊔ κ)
Exec S A = S → Outcome A × S

module _ {ℓ κ} {S : Type ℓ} {A : Type κ} where
  abbrev pub pure : A → Exec S A
  pure a s = (ok a, s)

  abbrev pub fail : Error → Exec S A
  fail e s = (err e, s)

  abbrev pub lift : Outcome A → Exec S A
  lift r s = (r, s)

  -- `return errors.Wrap(err, text)` on the error of `m`.
  abbrev pub wrapping : String → Exec S A → Exec S A
  wrapping text m s = let (r, s') = m s in (wrapped text r, s')

module _ {ℓ κ μ} {S : Type ℓ} {A : Type κ} {B : Type μ} where
  abbrev pub continue : Outcome A → (A → Exec S B) → Exec S B
  continue (ok a) f s = f a s
  continue (err e) f s = (err e, s)
  continue (panic p) f s = (panic p, s)

  infixl 10 ◌>>=◌ ◌>>◌
  abbrev pub ◌>>=◌ : Exec S A → (A → Exec S B) → Exec S B
  ◌>>=◌ m f s = let (r, s') = m s in continue r f s'

  abbrev pub ◌>>◌ : Exec S A → Exec S B → Exec S B
  m >> n = m >>= λ _. n

module _ {ℓ κ} {S : Type ℓ} {A : Type κ} where
  -- `defer cleanup`, with the rest of the function as `body`: it runs behind every return of the
  -- body and behind a panic.
  abbrev pub deferring : (S → S) → Exec S A → Exec S A
  deferring cleanup body s = let (r, s') = body s in (r, cleanup s')
