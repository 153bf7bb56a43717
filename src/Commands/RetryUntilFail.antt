-- ===== src/Commands/RetryUntilFail.antt =====
-- cmd/retry-until-fail/main.go: `main`, `parseArgs` and `retry`. To run a command, to sleep and to parse a
-- duration are parameters, and so is the error of `strconv.Atoi` for a text.
pub mod Runs
use transflect.Base.{
  ℕ, zero, suc, String, Bool, Option, none, some, List, [], ◌∷◌, ℤ, pos, negsuc, ◌==◌, nat_eq,
  if◌then◌else◌,
}
use transflect.Text.{atoi}
use transflect.Outcome.{Outcome, ok, err, panic, Error, message, wrap, wrapped, exit_code}

-- What `cmd.Run()` comes to: the exit code, which is not 0 behind an `ExitError`, or another error.
pub data Ran : Type 0 where
  exited : ℤ → Ran
  cannot_run : Error → Ran

pub record Shell : Type 1 where
  pub World : Type 0
  pub Duration : Type 0
  pub run : List String → World → Ran × World
  pub sleep : Duration → World → World
  pub parse_duration : String → Outcome Duration
  pub atoi_error : String → Error

module _ (sh : Shell) where
  open sh use {World, Duration}

  parse_rest : ℕ → Outcome Duration → List String → Outcome (ℕ × Duration × List String)
  parse_rest count (ok dur) command = ok (count, dur, command)
  parse_rest count (err e) command = err (wrap "invalid sleep duration" e)
  parse_rest count (panic p) command = panic p

  parse_count : String → Option ℤ → String → List String → Outcome (ℕ × Duration × List String)
  unfolding parse_rest
  parse_count text none dur command = err (wrap "invalid count" (sh.atoi_error text))
  parse_count text (some (negsuc n)) dur command = err (message "negative retries are not allowed")
  parse_count text (some (pos n)) dur command = parse_rest n (sh.parse_duration dur) command

  unfoldable pub parse_args : List String → Outcome (ℕ × Duration × List String)
  unfolding parse_count
  parse_args (count ∷ dur ∷ name ∷ args) = parse_count count (atoi count) dur (name ∷ args)
  parse_args _ = err (message "usage: retry <count> <sleep> <command> [args...]")

  -- Behind one run of the command, with the rest of the loop.
  judge : (World → Outcome (Unit {0}) × World) → Ran × World → Outcome (Unit {0}) × World
  judge rest (cannot_run e, w) = (err (wrap "cannot run command" e), w)
  judge rest (exited (negsuc n), w) = (ok tt, w)
  judge rest (exited (pos n), w) = if n == 0 then rest w else (ok tt, w)

  -- The loop, with the rounds left.
  rounds : ℕ → Duration → List String → World → Outcome (Unit {0}) × World
  unfolding judge
  rounds zero dur args w = (err (message "ran out of retries"), w)
  rounds (suc n) dur args w = judge (λ w'. rounds n dur args (sh.sleep dur w')) (sh.run args w)

  -- The counter goes from 0 to `count`, both included.
  unfoldable pub retry : ℕ → Duration → List String → World → Outcome (Unit {0}) × World
  unfolding rounds
  retry count dur args w = rounds (suc count) dur args w

  -- `main` behind `parseArgs`.
  unfoldable pub main_with : Outcome (ℕ × Duration × List String) → World → ℕ × World
  main_with (ok (count, dur, args)) w = let (r, w') = retry count dur args w in (exit_code r, w')
  main_with (err e) w = (1, w)
  main_with (panic p) w = (2, w)

  -- On the arguments of the process behind its name.
  unfoldable pub main : List String → World → ℕ × World
  main args w = main_with (parse_args args) w
