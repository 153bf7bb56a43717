-- ===== src/Commands/RetryUntilFail/Runs.antt =====
-- When `retry` succeeds, by the runs of the command.
use native.Mathlib.Decide.{ℕ_discrete}
use transflect.Base.{
  ℕ, zero, suc, ◌≤◌, ◌<◌, ◌≡◌, refl, ap, ◌∙◌, ◌≢◌, ◌↔◌, String, List, ℤ, pos, negsuc, arith, nat_eq,
}
use transflect.Outcome.{Outcome, ok, err, panic, exit_code}
use transflect.Commands.RetryUntilFail.{
  Shell, Ran, exited, cannot_run, judge, rounds, retry, parse_args, main_with, main,
}

module _ (sh : Shell) (dur : sh.Duration) (args : List String) where
  open sh use {World}

  -- The world behind k runs, each with its sleep.
  unfoldable pub behind : ℕ → World → World
  behind zero w = w
  behind (suc k) w = behind k (sh.sleep dur (sh.run args w).1)

  -- What the run numbered k comes to, from 0.
  abbrev pub result : ℕ → World → Ran
  result k w = (sh.run args (behind k w)).0

  -- The runs before number k exit with 0, and that one does not.
  pub record FailsAt (k : ℕ) (w : World) : Type 0 where
    pub before : (j : ℕ) → j < k → result j w ≡ exited (pos 0)
    pub code : ℤ
    pub there : result k w ≡ exited code
    pub failing : code ≢ pos 0

  -- The world behind the first run and its sleep.
  abbrev next : World → World
  next w = sh.sleep dur (sh.run args w).1

  FailsAt-first : (w : World) (code : ℤ) → result 0 w ≡ exited code → code ≢ pos 0 → FailsAt 0 w
  FailsAt-first w code e bad = record {
    before = λ j h. absurd (omega arith);
    code = code;
    there = e;
    failing = bad;
  }

  FailsAt-next :
      (k : ℕ) (w : World) → result 0 w ≡ exited (pos 0) → FailsAt k (next w) → FailsAt (suc k) w
  unfolding behind
  FailsAt-next k w e f = record {
    before = earlier;
    code = f.code;
    there = f.there;
    failing = f.failing;
  }
    where
      earlier : (j : ℕ) → j < suc k → result j w ≡ exited (pos 0)
      earlier zero h = e
      earlier (suc j) h = f.before j (omega arith)

  judge-ok :
      (n : ℕ) (w : World)
      → ((rounds sh n dur args (next w)).0 ≡ ok tt → (k : ℕ) × (k < n) × FailsAt k (next w))
      → (r : Ran × World) → sh.run args w ≡ r
      → (judge sh (λ w'. rounds sh n dur args (sh.sleep dur w')) r).0 ≡ ok tt
      → (k : ℕ) × (k < suc n) × FailsAt k w
  unfolding judge behind ℕ_discrete
  judge-ok n w ih (cannot_run e', w') e q = cc
  judge-ok n w ih (exited (negsuc m), w') e q =
      (0, omega arith, FailsAt-first w (negsuc m) (ap (λ r. r.0) e) (λ x. cc))
  judge-ok n w ih (exited (pos (suc m)), w') e q =
      (0, omega arith, FailsAt-first w (pos (suc m)) (ap (λ r. r.0) e) (λ x. ground arith))
  judge-ok n w ih (exited (pos zero), w') e q =
      let (k, lt, f) =
        ih (ap (λ (r : Ran × World). (rounds sh n dur args (sh.sleep dur r.1)).0) e ∙ q) in
      (suc k, omega arith, FailsAt-next k w (ap (λ r. r.0) e) f)

  rounds-ok :
      (n : ℕ) (w : World) → (rounds sh n dur args w).0 ≡ ok tt → (k : ℕ) × (k < n) × FailsAt k w
  unfolding rounds
  rounds-ok zero w h = cc
  rounds-ok (suc n) w h = judge-ok n w (rounds-ok n (next w)) (sh.run args w) refl h

  rounds-FailsAt : (n k : ℕ) (w : World) → k < n → FailsAt k w → (rounds sh n dur args w).0 ≡ ok tt
  unfolding rounds judge behind
  rounds-FailsAt zero k w h f = absurd (omega arith)
  rounds-FailsAt (suc n) zero w h f = ground (arith, f.there, f.failing)
  rounds-FailsAt (suc n) (suc k) w h f =
      let rest : FailsAt k (next w) = record {
        before = λ j l. f.before (suc j) (omega arith);
        code = f.code;
        there = f.there;
        failing = f.failing;
      } in
      ground (arith, f.before 0 (omega arith), rounds-FailsAt n k (next w) (omega arith) rest)

  -- With a count of n, the command is run n + 1 times at most, and `retry` succeeds exactly if one of
  -- these runs ends with an exit code other than 0 and all runs before it end with 0.
  pub retry_exact :
      (count : ℕ) (w : World)
      → ((retry sh count dur args w).0 ≡ ok tt) ↔ (k : ℕ) × (k ≤ count) × FailsAt k w
  unfolding retry
  retry_exact count w = (
    λ h. let (k, lt, f) = rounds-ok (suc count) w h in (k, omega arith, f),
    λ (k, le, f). rounds-FailsAt (suc count) k w (omega arith) f,
  )

module _ (sh : Shell) where
  open sh use {World, Duration}

  -- The arguments ask for runs of a command, and one of these fails.
  abbrev pub Fails : List String → World → Type 0
  Fails args w =
      (count : ℕ) × (dur : Duration) × (command : List String) × (parse_args sh args
        ≡ ok (count, dur, command))
      × (k : ℕ) × (k ≤ count)
      × FailsAt sh dur command k w

  exit_code-ok : (r : Outcome (Unit {0})) → exit_code r ≡ 0 → r ≡ ok tt
  exit_code-ok (ok x) h = refl
  exit_code-ok (err e) h = absurd (omega (arith, h))
  exit_code-ok (panic p) h = absurd (omega (arith, h))

  main_with-Fails :
      (args : List String) (w : World) (parsed : Outcome (ℕ × Duration × List String))
      → parse_args sh args ≡ parsed
      → (main_with sh parsed w).0 ≡ 0
      → Fails args w
  unfolding main_with
  main_with-Fails args w (ok (count, dur, command)) e h =
      let (k, le, f) =
        (retry_exact sh dur command count w).0 (exit_code-ok (retry sh count dur command w).0 h) in
      (count, dur, command, e, k, le, f)
  main_with-Fails args w (err e') e h = absurd (omega (arith, h))
  main_with-Fails args w (panic p) e h = absurd (omega (arith, h))

  Fails-main : (args : List String) (w : World) → Fails args w → (main sh args w).0 ≡ 0
  unfolding main main_with
  Fails-main args w (count, dur, command, e, k, le, f) =
      rw (e, (retry_exact sh dur command count w).1 (k, le, f)) refl

  -- The process ends with exit code 0 exactly if its arguments are a count that is not negative, a
  -- duration and a command, and one of the first count + 1 runs of the command, with the sleeps
  -- between them, exits with a code other than 0 behind runs that all exit with 0.
  pub main_exact : (args : List String) (w : World) → ((main sh args w).0 ≡ 0) ↔ Fails args w
  unfolding main
  main_exact args w = (main_with-Fails args w (parse_args sh args) refl, Fails-main args w)
