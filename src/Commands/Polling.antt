-- ===== src/Commands/Polling.antt =====
-- cmd/test-http-transcoding/main.go: `runUntilSuccess` and `runUntilFail`. The HTTP client is a
-- parameter, and so is the backoff of github.com/jpillora/backoff; the sleeps belong to the client.
pub mod Bounds
pub mod Begun
use transflect.Base.{
  ℕ, zero, suc, Bool, true, false, not, ◌&&◌, Option, none, some, ℤ, pos, negsuc, ltb, leb, ◌==◌,
  nat_eq, if◌then◌else◌,
}
use transflect.Backoff.{Backoff}

-- What `http.DefaultClient.Do` returns: an error, or a response with its status.
pub data Answer : Type 0 where
  failed : Answer
  status : ℕ → Answer

pub record Config : Type 0 where
  pub attempts : ℤ
  pub continue_on_success : Bool
  pub error_threshold : ℕ

abbrev pub is_success : Answer → Bool
is_success failed = false
is_success (status code) = code == 200

-- `b.Attempt() >= float64(cfg.Attempts) && cfg.Attempts >= 0`
abbrev pub reached : ℤ → ℕ → Bool
reached (pos n) attempt = leb n attempt
reached (negsuc n) attempt = false

module _ {World : Type 0} (b : Backoff) (request : World → Answer × World) (o : Config) where
  -- The exit code and the world at `os.Exit`; `none` is a loop that has not ended yet.
  abbrev pub Exit : Type 0
  Exit = Option (ℕ × World)

  -- The loop of `runUntilSuccess`, on fuel.
  unfoldable pub success_loop : ℕ → b.Timer → World → Exit
  success_loop zero t w = none
  success_loop (suc fuel) t w =
      let (answer, w') = request w in
      let t' = b.advance t in
      let again = success_loop fuel t' w' in
      if is_success answer && not o.continue_on_success
      then some (0, w')
      else if reached o.attempts (b.attempt t')
      then some (1, w')
      else again

  -- The loop of `runUntilFail`, on fuel, with the errors that were let pass.
  unfoldable pub fail_loop : ℕ → b.Timer → ℕ → World → Exit
  fail_loop zero t errors w = none
  fail_loop (suc fuel) t errors w =
      let (answer, w') = request w in
      let t' = b.advance t in
      let passed = fail_loop fuel t' errors w' in
      let forgiven = fail_loop fuel t' (suc errors) w' in
      if is_success answer
      then (if reached o.attempts (b.attempt t') then some (0, w') else passed)
      else if ltb errors o.error_threshold
      then forgiven
      else some (1, w')

  unfoldable pub run_until_success : ℕ → World → Exit
  run_until_success fuel w = success_loop fuel b.fresh w

  unfoldable pub run_until_fail : ℕ → World → Exit
  run_until_fail fuel w = fail_loop fuel b.fresh 0 w
