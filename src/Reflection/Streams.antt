-- ===== src/Reflection/Streams.antt =====
-- `doRefl` and `closeAndDrain` of pkg/transflect/transflect.go, on streams that end.
use transflect.Base.{ℕ, zero, suc, String, ◌≡◌, refl, some, List}
use transflect.Outcome.{Outcome, ok, err, panic, wrapping}
use transflect.Reflection.{
  Request, Response, Client, Run, drain, close_and_drain, draining, behind_drain, after_answer, ask,
  do_refl, file_descriptor_by_filename, file_descriptor_by_symbol, get_services, decode_response,
}
use transflect.Reflection.Closure.{IfReturns, Ends, outcome-Ends, and_then_rule, Answers}

-- `rest` is asked of the stream behind an answer that is not its end.
abbrev pub UnlessEnded : Outcome Response → Type 0 → Type 0
UnlessEnded (ok response) rest = rest
UnlessEnded (err e) rest = Unit
UnlessEnded (panic p) rest = Unit

module _ (c : Client) where
  open c use {World}

  -- One of the next n answers of the stream is its end.
  abbrev pub StreamEnds : ℕ → World → Type 0
  StreamEnds zero w = ⊥
  StreamEnds (suc n) w = UnlessEnded (c.recv w).0 (StreamEnds n (c.recv w).1)

  -- Behind `CloseSend` every stream ends, within the fuel.
  abbrev pub EndsStreams : Type 0
  EndsStreams = (w : World) → StreamEnds c.patience (c.close_send w)

  abbrev Drained : Run World (Unit {0}) → Type 0
  Drained m = (x : Outcome (Unit {0}) × World) × (m ≡ some x)

  after_answer-Drained :
      (r : Outcome Response) (w : World) (rest : Run World (Unit {0})) (P : Type 0)
      → (P → Drained rest)
      → UnlessEnded r P
      → Drained (after_answer c r w rest)
  unfolding after_answer
  after_answer-Drained (ok response) w rest P ih h = ih h
  after_answer-Drained (err e) w rest P ih h = ((ok tt, w), refl)
  after_answer-Drained (panic p) w rest P ih h = ((panic p, w), refl)

  drain-Drained : (n : ℕ) (w : World) → StreamEnds n w → Drained (drain c n w)
  unfolding drain
  drain-Drained zero w h = absurd h
  drain-Drained (suc n) w h =
      after_answer-Drained (c.recv w).0 (c.recv w).1 (drain c n (c.recv w).1) _
        (drain-Drained n (c.recv w).1) h

  module _ (streams : EndsStreams) where
    behind_drain-Ends :
        {A : Type 0} (r : Outcome A) (x : Outcome (Unit {0}) × World)
        → Ends (behind_drain c r (some x))
    unfolding behind_drain
    behind_drain-Ends r (ok u, w) = outcome-Ends r w
    behind_drain-Ends r (err e, w) = outcome-Ends r w
    behind_drain-Ends r (panic p, w) = tt

    draining-Ends : {A : Type 0} (r : Outcome A) (w : World) → Ends (draining c (r, w))
    unfolding close_and_drain draining
    draining-Ends r w =
        let (x, e) = drain-Drained c.patience (c.close_send w) (streams w) in
        rw (e, draining) (behind_drain-Ends r x)

    -- Every call on the server ends.
    do_refl-Ends : (request : Request) (w : World) → Ends (do_refl c request w)
    unfolding do_refl
    do_refl-Ends request w =
        let m = wrapping "cannot setup reflection stream" c.connect w in
        and_then_rule (λ _. Unit {0}) (λ _. Unit {0}) (some m) _ (outcome-Ends m.0 m.1)
          (λ _ w' _. draining-Ends (ask c request w').0 (ask c request w').1)

    pub by_filename-Ends : (d : String) (w : World) → Ends (file_descriptor_by_filename c d w)
    unfolding file_descriptor_by_filename
    by_filename-Ends d w =
        and_then_rule (λ _. Unit {0}) (λ _. Unit {0}) (do_refl c _ w) _ (do_refl-Ends _ w)
          (λ response w' _. outcome-Ends (decode_response c response) w')

    pub by_symbol-Ends : (s : String) (w : World) → Ends (file_descriptor_by_symbol c s w)
    unfolding file_descriptor_by_symbol
    by_symbol-Ends s w =
        and_then_rule (λ _. Unit {0}) (λ _. Unit {0}) (do_refl c _ w) _ (do_refl-Ends _ w)
          (λ response w' _. outcome-Ends (decode_response c response) w')

    pub get_services-Ends : (w : World) → Ends (get_services c w)
    unfolding get_services
    get_services-Ends w =
        and_then_rule (λ _. Unit {0}) (λ _. Unit {0}) (do_refl c _ w) _ (do_refl-Ends _ w)
          (λ _ w' _. tt)

-- A server that answers the request for a file with files among which it is, that has no other files
-- than those of the universe, and whose streams end.
pub record IsServer (c : Client) (universe : List String) : Type 0 where
  pub answers :
      (d : String) (w : c.World)
      → IfReturns (Answers c universe d) (file_descriptor_by_filename c d w)
  pub streams : EndsStreams c
