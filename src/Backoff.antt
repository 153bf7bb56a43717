-- ===== src/Backoff.antt =====
-- What the program uses of the package `backoff` (github.com/jpillora/backoff): a counter of
-- attempts that the waiting time is computed from.
use transflect.Base.{ℕ, suc, ◌≡◌, refl}

pub record Backoff : Type 1 where
  pub Timer : Type 0
  -- `&backoff.Backoff{…}`
  pub fresh : Timer
  -- `int(b.Attempt())`
  pub attempt : Timer → ℕ
  -- `b.Duration()`, which counts an attempt
  pub advance : Timer → Timer
  -- `b.Reset()`
  pub reset : Timer → Timer

-- Its documented behaviour.
pub record IsBackoff (b : Backoff) : Type 0 where
  pub attempt-fresh : b.attempt b.fresh ≡ 0
  pub attempt-advance : (t : b.Timer) → b.attempt (b.advance t) ≡ suc (b.attempt t)
  pub attempt-reset : (t : b.Timer) → b.attempt (b.reset t) ≡ 0

-- A timer that is its counter.
abbrev pub counter : Backoff
counter = record { Timer = ℕ; fresh = 0; attempt = λ t. t; advance = suc; reset = λ t. 0 }

pub counter-IsBackoff : IsBackoff counter
counter-IsBackoff = record {
  attempt-fresh = refl;
  attempt-advance = λ t. refl;
  attempt-reset = λ t. refl;
}
