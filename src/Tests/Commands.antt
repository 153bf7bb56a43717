-- ===== src/Tests/Commands.antt =====
-- The helper commands on a command and a server that are counters.
use transflect.Outcome.{Outcome, ok, message}
use transflect.Commands.RetryUntilFail.{Shell, exited, main}
use transflect.Commands.RetryUntilFail.Runs.{Fails, main_exact}
use transflect.Base.{◌≡◌, ◌↔◌, String, List, [], ◌∷◌, ℕ, zero, suc, true, false, pos}
use transflect.Commands.Polling.{Answer, status, Config}
use transflect.Commands.Polling.Begun
use transflect.Commands.Polling.Begun.{Flags, HttpRequest}

-- A server that is ready behind some requests.
abbrev warming_up : ℕ → Answer × ℕ
warming_up zero = (status 200, zero)
warming_up (suc n) = (status 503, n)

abbrev config : Config
config = record { attempts = pos 3; continue_on_success = false; error_threshold = 1 }

abbrev flags : Flags
flags = record {
  url = "http://localhost:9999";
  host = "cart";
  body = "{}";
  poll_until_error = true;
  loop = config;
}

abbrev parse : String → Outcome String
parse text = ok text

abbrev send : HttpRequest String → ℕ → Answer × String × ℕ
send req w = let (answer, w') = warming_up w in (answer, "", w')

-- A command that succeeds a number of times and then fails.
abbrev shell : Shell
shell = record {
  World = ℕ;
  Duration = String;
  run = λ args left. elim left [ zero ↦ (exited (pos 1), 0) | suc n ↦ (exited (pos 0), n) ];
  sleep = λ dur left. left;
  parse_duration = λ text. ok text;
  atoi_error = λ text. message "invalid syntax";
}

abbrev arguments : List String
arguments = "3" ∷ "5s" ∷ "make" ∷ "test" ∷ []

main_exact_example : ((main shell arguments 2).0 ≡ 0) ↔ Fails shell arguments 2
main_exact_example = main_exact shell arguments 2
