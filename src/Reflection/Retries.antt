-- ===== src/Reflection/Retries.antt =====
-- `getFileDescriptorSetWithRetry` of pkg/transflect/transflect.go: how often it asks.
use transflect.Base.{
  ℕ, zero, suc, ◌+◌, ◌≡◌, Option, none, some, arith, ltb, ◌==◌, nat_eq, if◌then◌else◌, ◌<>◌,
}
use transflect.Text.{itoa}
use transflect.Backoff.{Backoff, IsBackoff}
use transflect.Outcome.{ok, err, panic, Error, wrap}
use transflect.Reflection.{Run}

-- The error that is returned at once; 14 is `codes.Unavailable`.
unfoldable pub final_error : Option ℕ → Error → Option Error
final_error none e = none
final_error (some code) e =
    if code == 14
    then none
    else some (wrap ("gRPC error " <> (itoa code <> " code not retryable")) e)

module _ {W A : Type 0} (b : Backoff) (status : Error → Option ℕ) (call : W → Run W A) where
  -- Behind an error, with the rest of the loop.
  retry : b.Timer → (b.Timer → W → Run W A) → Error → W → Run W A
  retry t again e w =
      let rest = again (b.advance t) w in
      elim (final_error (status e) e) [
        | some e' ↦ some (err e', w)
        | none ↦ if ltb 15 (b.attempt t) then some (err (wrap "too many retries" e), w) else rest
      ]

  round : b.Timer → (b.Timer → W → Run W A) → Run W A → Run W A
  unfolding retry
  round t again none = none
  round t again (some (ok a, w)) = some (ok a, w)
  round t again (some (err e, w)) = retry t again e w
  round t again (some (panic p, w)) = some (panic p, w)

  -- The `for` loop, on fuel.
  unfoldable pub retry_loop : ℕ → b.Timer → W → Run W A
  unfolding round
  retry_loop zero t w = none
  retry_loop (suc fuel) t w = round t (retry_loop fuel) (call w)

  -- The loop gives up at the seventeenth attempt.
  unfoldable pub with_retry : W → Run W A
  with_retry = retry_loop 17 b.fresh

module _ {W A : Type 0} (status : Error → Option ℕ) (call : W → Run W A) where
  -- What is made of a call: `more` is the further calls that are left, if any are.
  unfoldable pub judge : Option (W → Run W A) → Run W A → Run W A
  judge more none = none
  judge more (some (ok a, w)) = some (ok a, w)
  judge more (some (panic p, w)) = some (panic p, w)
  judge more (some (err e, w)) = elim (final_error (status e) e) [
    | some e' ↦ some (err e', w)
    | none ↦ elim more [ none ↦ some (err (wrap "too many retries" e), w) | some next ↦ next w ]
  ]

  -- One call and up to n further ones, until one succeeds, panics or fails with a final error.
  unfoldable pub tries : ℕ → W → Run W A
  tries zero w = judge none (call w)
  tries (suc n) w = judge (some (tries n)) (call w)

module _ {W A : Type 0} (b : Backoff) (law : IsBackoff b) (status : Error → Option ℕ)
    (call : W → Run W A) where
  round-eq-judge :
      (n : ℕ) (t : b.Timer) (again : b.Timer → W → Run W A) (m : Run W A)
      → b.attempt t + suc n ≡ 16
      → ((w : W) → again (b.advance t) w ≡ tries status call n w)
      → round b status call t again m ≡ judge status call (some (tries status call n)) m
  unfolding round judge
  round-eq-judge n t again none h rest = ground arith
  round-eq-judge n t again (some (ok a, w)) h rest = ground arith
  round-eq-judge n t again (some (panic p, w)) h rest = ground arith
  round-eq-judge n t again (some (err e, w)) h rest = ground (arith, rest w)

  round-last :
      (t : b.Timer) (again : b.Timer → W → Run W A) (m : Run W A)
      → b.attempt t ≡ 16
      → round b status call t again m ≡ judge status call none m
  unfolding round judge
  round-last t again none h = ground arith
  round-last t again (some (ok a, w)) h = ground arith
  round-last t again (some (panic p, w)) h = ground arith
  round-last t again (some (err e, w)) h = ground arith

  retry_loop-eq-tries :
      (n : ℕ) (t : b.Timer) (w : W)
      → b.attempt t + n ≡ 16
      → retry_loop b status call (suc n) t w ≡ tries status call n w
  unfolding retry_loop tries
  retry_loop-eq-tries zero t w h = round-last t (retry_loop b status call 0) (call w) (omega arith)
  retry_loop-eq-tries (suc n) t w h =
      round-eq-judge n t (retry_loop b status call (suc n)) (call w) h
        (λ w'. retry_loop-eq-tries n (b.advance t) w' (omega (arith, law.attempt-advance t)))

  -- Given the documented counting of the timer, the retries make one call and up to sixteen further
  -- ones: until one succeeds or panics, or fails with a gRPC status that is not `Unavailable`, whose
  -- error is returned at once. An error of the seventeenth call is returned in any case.
  pub with_retry-eq-tries : (w : W) → with_retry b status call w ≡ tries status call 16 w
  unfolding with_retry
  with_retry-eq-tries w = retry_loop-eq-tries 16 b.fresh w (omega (arith, law.attempt-fresh))
