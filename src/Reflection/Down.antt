-- ===== src/Reflection/Down.antt =====
-- `GetFileDescriptorSet` of pkg/transflect/transflect.go, asked of a server that no stream can be set
-- up to: `doRefl`, `getGRPCStatus` and the retries together.
use transflect.Base.{ℕ, zero, suc, String, ◌≡◌, refl, Option, none, some, List}
use transflect.Backoff.{Backoff, IsBackoff}
use transflect.Outcome.{ok, err, Error, message, wrap, Exec}
use transflect.Descriptor.{File}
use transflect.Reflection.{Client, Run, do_refl, get_services, file_descriptor_set, get_grpc_status}
use transflect.Reflection.Retries.{final_error, judge, tries, with_retry-eq-tries}
use transflect.Reflection.Dialled.{closing, connected, get_file_descriptor_set}

module _ (c : Client) (text : String) (tick : c.World → c.World)
    (down : (w : c.World) → c.connect w ≡ (err (message text), tick w)) where
  open c use {World}

  -- The world behind k attempts.
  unfoldable pub ticks : ℕ → World → World
  ticks zero w = w
  ticks (suc k) w = ticks k (tick w)

  abbrev pub failure : Error
  failure = wrap "cannot setup reflection stream" (message text)

  abbrev Call : Type 0
  Call = World → Run World (List File × List String)

  call-fails :
      (fuel : ℕ) (prefix : String) (w : World)
      → file_descriptor_set c fuel prefix w ≡ some (err failure, tick w)
  unfolding file_descriptor_set get_services do_refl
  call-fails fuel prefix w = rw (down w) refl

  module _ (status : Error → Option ℕ) (call : Call)
      (fails : (w : World) → call w ≡ some (err failure, tick w)) where
    tries-final :
        (n : ℕ) (x : Error) (w : World)
        → final_error (status failure) failure ≡ some x
        → tries status call n w ≡ some (err x, tick w)
    unfolding tries judge
    tries-final zero x w q = rw (fails w, q, judge) refl
    tries-final (suc n) x w q = rw (fails w, q, judge) refl

    tries-retried :
        (n : ℕ) (w : World)
        → final_error (status failure) failure ≡ none
        → tries status call n w ≡ some (err (wrap "too many retries" failure), ticks (suc n) w)
    unfolding tries judge ticks
    tries-retried zero w q = rw (fails w, q, judge) refl
    tries-retried (suc n) w q = rw (fails w, q, judge) (tries-retried n (tick w) q)

  -- The error and the attempts, by what is made of the first error at once.
  abbrev pub given_up : Option Error → Error × ℕ
  given_up (some final) = (final, 1)
  given_up none = (wrap "too many retries" failure, 17)

  tries-given_up :
      (status : Error → Option ℕ) (call : Call)
      → ((w : World) → call w ≡ some (err failure, tick w))
      → (r : Option Error) (w : World) → final_error (status failure) failure ≡ r
      → tries status call 16 w ≡ some (err (given_up r).0, ticks (given_up r).1 w)
  unfolding ticks
  tries-given_up status call fails (some x) w q = tries-final status call fails 16 x w q
  tries-given_up status call fails none w q = tries-retried status call fails 16 w q

  -- Given the documented counting of the timer: where the connection can be made and no stream can
  -- be set up, always with the same error. If that error has a status of its own other than
  -- `Unavailable`, the whole call fails behind one attempt with an error that says so, and otherwise
  -- behind seventeen attempts with the error that there were too many; and the connection is closed.
  pub server_down :
      (b : Backoff) (law : IsBackoff b) (dial : Exec World (Unit {0})) (close : World → World)
      (fuel : ℕ) (prefix : String) (w w1 : World)
      → dial w ≡ (ok tt, w1)
      → let (error, attempts) = given_up (final_error (c.own_status (message text)) failure) in
        get_file_descriptor_set c b dial close fuel prefix w
        ≡ some (err error, close (ticks attempts w1))
  unfolding get_file_descriptor_set connected closing get_grpc_status
  server_down b law dial close fuel prefix w w1 d =
      let status = get_grpc_status c.own_status in
      let call = file_descriptor_set c fuel prefix in
      rw
        (
          d,
          with_retry-eq-tries b law status call w1,
          tries-given_up status call (call-fails fuel prefix) _ w1 refl,
        )
        refl
