-- ===== src/Reflection/Dialled.antt =====
-- `GetFileDescriptorSet` of pkg/transflect/transflect.go: the connection, the retries and what they
-- come to. The connection is that of google.golang.org/grpc, a parameter.
use transflect.Base.{
  ℕ, zero, suc, ◌<◌, String, ◌≡◌, refl, false, Option-cases, inl, inr, Option, none, some, List,
  length,
}
use transflect.Backoff.{Backoff, IsBackoff}
use transflect.Outcome.{Outcome, ok, err, panic, Exec, wrapping, wrapped, Error}
use transflect.Descriptor.{File}
use transflect.Toposort.Order.{InOrder}
use transflect.Reflection.{Client, Run, and_then, file_descriptor_set, get_grpc_status}
use transflect.Reflection.Closure.{Returns, and_then_rule}
use transflect.Reflection.Retries.{with_retry, tries, judge, final_error, with_retry-eq-tries}
use transflect.Reflection.Described.{Table, IsDescriptorSet, IsDescribed}
use transflect.Reflection.Whole.{IsSound, file_descriptor_set-InOrder}

module _ (c : Client) (b : Backoff) (dial : Exec c.World (Unit {0}))
    (close : c.World → c.World) where
  open c use {World}

  -- `defer conn.Close()`
  unfoldable pub closing : Run World (List File × List String) → Run World (List File × List String)
  closing none = none
  closing (some (r, w)) = some (r, close w)

  -- The rest of the body, on the connection; `fuel` bounds the recursions of one call.
  unfoldable pub connected : ℕ → String → World → Run World (List File × List String)
  unfolding closing
  connected fuel prefix w =
      closing (with_retry b (get_grpc_status c.own_status) (file_descriptor_set c fuel prefix) w)

  unfoldable pub get_file_descriptor_set : ℕ → String → World → Run World (List File × List String)
  unfolding connected
  get_file_descriptor_set fuel prefix w =
      and_then (some (wrapping "cannot grpc dial" dial w)) λ _. connected fuel prefix

  closing-Returns :
      (P : List File × List String → Type 0) (m : Run World (List File × List String))
      → Returns P m
      → Returns P (closing m)
  unfolding closing
  closing-Returns P none h = h
  closing-Returns P (some (ok a, w)) h = h
  closing-Returns P (some (err e, w)) h = tt
  closing-Returns P (some (panic p, w)) h = tt

module _ {W A : Type 0} (status : Error → Option ℕ) (call : W → Run W A) (P : A → Type 0)
    (call-Returns : (w : W) → Returns P (call w)) where
  judge-Returns :
      (more : Option (W → Run W A))
      → ((next : W → Run W A) → more ≡ some next → (w : W) → Returns P (next w))
      → (m : Run W A) → Returns P m
      → Returns P (judge status call more m)
  unfolding judge
  judge-Returns more rest none h = h
  judge-Returns more rest (some (ok a, w)) h = h
  judge-Returns more rest (some (panic p, w)) h = tt
  judge-Returns none rest (some (err e, w)) h = elim (Option-cases (final_error (status e) e)) [
    | inl q ↦ rw (q, judge) tt
    | inr (e', q) ↦ rw (q, judge) tt
  ]
  judge-Returns (some next) rest (some (err e, w)) h =
      elim (Option-cases (final_error (status e) e)) [
        | inl q ↦ rw (q, judge) (rest next refl w)
        | inr (e', q) ↦ rw (q, judge) tt
      ]

  tries-Returns : (n : ℕ) (w : W) → Returns P (tries status call n w)
  unfolding tries
  tries-Returns zero w = judge-Returns none (λ next q. cc) (call w) (call-Returns w)
  tries-Returns (suc n) w =
      judge-Returns (some (tries status call n))
        (λ next q w'. rw (← same next q) (tries-Returns n w')) (call w) (call-Returns w)
    where
      same :
          (next : W → Run W A) → some (tries status call n) ≡ some next → tries status call n ≡ next
      same next q = cc

module _ (c : Client) (b : Backoff) (law : IsBackoff b) (dial : Exec c.World (Unit {0}))
    (close : c.World → c.World) (universe : List String) (rank : String → ℕ) (bound : ℕ)
    (sound : IsSound c universe rank bound) (t : Table) (described : IsDescribed c t) where
  open c use {World}

  connected-InOrder :
      (fuel : ℕ) (prefix : String) (w : World)
      → length universe < fuel
      → bound < fuel
      → Returns
          (λ (r : List File × List String).
            InOrder (λ d. false) r.0 × IsDescriptorSet t prefix r.0 r.1)
          (connected c b dial close fuel prefix w)
  unfolding connected
  connected-InOrder fuel prefix w many deep =
      let call = file_descriptor_set c fuel prefix in
      let status = get_grpc_status c.own_status in
      let P = λ (r : List File × List String).
        InOrder (λ d. false) r.0 × IsDescriptorSet t prefix r.0 r.1 in
      closing-Returns c b dial close P (with_retry b status call w) (
        rw (with_retry-eq-tries b law status call w) (
          tries-Returns status call P
            (λ w'.
              file_descriptor_set-InOrder rank bound c universe sound t described fuel prefix w'
                many deep)
            16 w))

  -- Over a connection whose calls need not succeed, and given the documented counting of the timer:
  -- where the server answers by a table of its services and files, from finitely many files that
  -- import one another in no circle, and ends each stream behind its closing, the whole call ends,
  -- whatever errors it meets and however often it retries. Where it ends without an error and a panic,
  -- it gives the services that the server listed and a descriptor set that has every file that the
  -- server answered for one of them, each with the rules, and otherwise the server's files as they
  -- are, each file once and each import of each file before it.
  pub get_file_descriptor_set-InOrder :
      (fuel : ℕ) (prefix : String) (w : World)
      → length universe < fuel
      → bound < fuel
      → Returns
          (λ (r : List File × List String).
            InOrder (λ d. false) r.0 × IsDescriptorSet t prefix r.0 r.1)
          (get_file_descriptor_set c b dial close fuel prefix w)
  unfolding get_file_descriptor_set
  get_file_descriptor_set-InOrder fuel prefix w many deep =
      and_then_rule (λ _. Unit {0}) _ (some (wrapping "cannot grpc dial" dial w)) _
        (dialled (dial w).0 (dial w).1) λ _ w' _. connected-InOrder fuel prefix w' many deep
    where
      dialled :
          (r : Outcome (Unit {0})) (w' : World)
          → Returns (λ _. Unit {0}) (some (wrapped "cannot grpc dial" r, w'))
      dialled (ok x) w' = tt
      dialled (err e) w' = tt
      dialled (panic p) w' = tt
