-- ===== src/Commands/Polling/Begun.antt =====
-- `main` of cmd/test-http-transcoding/main.go, behind the parsing of the flags. `url.Parse` and the
-- `Do` of the HTTP client are parameters; `Do` says what it left unread of the body of the request.
use transflect.Base.{ℕ, zero, suc, ◌+◌, ◌<◌, ◌≡◌, String, Bool, not, Option, if◌then◌else◌, ◌≢◌}
use transflect.Backoff.{Backoff, IsBackoff}
use transflect.Outcome.{Outcome, ok, err, panic}
use transflect.Commands.Polling.{Answer, status, Config, run_until_success, run_until_fail}
use transflect.Commands.Polling.Bounds.{behind, EndsWith, FailsWith}

-- The flags beside those of the loops.
pub record Flags : Type 0 where
  pub url : String
  pub host : String
  pub body : String
  pub poll_until_error : Bool
  pub loop : Config

-- `http.Request`, with what its body still has to read.
pub record HttpRequest (Url : Type 0) : Type 0 where
  pub method : String
  pub url : Url
  pub host : String
  pub unread : String

module _ {Url W : Type 0} (parse : String → Outcome Url)
    (send : HttpRequest Url → W → Answer × String × W) (b : Backoff) (cfg : Flags) where
  -- The one request of the process, and the world.
  abbrev pub World : Type 0
  World = HttpRequest Url × W

  -- `http.DefaultClient.Do(cfg.req)`
  unfoldable pub do_request : World → Answer × World
  do_request (req, w) =
      let (answer, unread, w') = send req w in (answer, (record req { unread = unread }, w'))

  abbrev pub new_request : Url → HttpRequest Url
  new_request url = record { method = "POST"; url = url; host = cfg.host; unread = cfg.body }

  begun : ℕ → Url → W → Option (ℕ × World)
  begun fuel url w =
      if not cfg.poll_until_error
      then run_until_success b do_request cfg.loop fuel (new_request url, w)
      else run_until_fail b do_request cfg.loop fuel (new_request url, w)

  -- The exit code behind a URL that is none, or how the loop ends.
  pub data Exit : Type 0 where
    no_url : ℕ → Exit
    polled : Option (ℕ × World) → Exit

  unfoldable pub main_with : ℕ → Outcome Url → W → Exit
  unfolding begun
  main_with fuel (ok url) w = polled (begun fuel url w)
  main_with fuel (err e) w = no_url 1
  main_with fuel (panic p) w = no_url 2

  unfoldable pub main : ℕ → W → Exit
  main fuel w = main_with fuel (parse cfg.url) w

  module _ (law : IsBackoff b) where
    -- `Do` leaves nothing unread of a body with nothing in it, nor of one that it got an answer for.
    record IsReader : Type 0 where
      spent : (req : HttpRequest Url) (w : W) → req.unread ≡ "" → (send req w).1 ≡ ""
      answered :
          (req : HttpRequest Url) (w : W) (code : ℕ)
          → (send req w).0 ≡ status code
          → (send req w).1 ≡ ""

    unread-behind :
        IsReader
        → (k : ℕ) (v : World) → v.0.unread ≡ ""
        → (behind b law do_request cfg.loop k v).0.unread ≡ ""
    unfolding behind do_request
    unread-behind reader zero v h = h
    unread-behind reader (suc k) v h =
        unread-behind reader k (do_request v).1 (reader.spent v.0 v.1 h)

    -- Behind a request that was answered, whatever the status, no request has a body.
    body_sent_once :
        IsReader
        → (k : ℕ) (v : World) (code : ℕ) → (do_request v).0 ≡ status code
        → (behind b law do_request cfg.loop (suc k) v).0.unread ≡ ""
    unfolding behind do_request
    body_sent_once reader k v code h =
        unread-behind reader k (do_request v).1 (reader.answered v.0 v.1 code h)

    -- How the loop ends that the flags choose.
    abbrev pub Polls : ℕ → World → Option (ℕ × World) → Type 0
    Polls n v e =
        if not cfg.poll_until_error
        then EndsWith b law do_request cfg.loop n v e
        else FailsWith b law do_request cfg.loop (suc n + cfg.loop.error_threshold) (suc n) 0 0 v e

    abbrev pub Ended : ℕ → W → Exit → Type 0
    Ended n w (no_url code) = (0 < code) × ((url : Url) → parse cfg.url ≢ ok url)
    Ended n w (polled e) = (url : Url) × (parse cfg.url ≡ ok url) × Polls n (new_request url, w) e
