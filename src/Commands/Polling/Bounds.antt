-- ===== src/Commands/Polling/Bounds.antt =====
-- How many requests the two loops make, and how they end.
use mathlib.Core.Path.{subst}
use transflect.Base.{
  sym, ℕ, zero, suc, ◌+◌, ◌-◌, ◌≤◌, ◌<◌, ◌≡◌, refl, ◌↔◌, Bool, true, false, not, ◌&&◌, Option, some,
  pos, ltb, leb, arith, nat_eq, ◌⊎◌, inl, inr, Bool-cases, if◌then◌else◌,
}
use transflect.Backoff.{Backoff, IsBackoff}
use transflect.Commands.Polling.{
  Answer, Config, is_success, reached, success_loop, fail_loop, run_until_success, run_until_fail,
}

module _ {World : Type 0} (b : Backoff) (law : IsBackoff b) (request : World → Answer × World)
    (o : Config) where
  -- The world behind k requests.
  unfoldable pub behind : ℕ → World → World
  behind zero w = w
  behind (suc k) w = behind k (request w).1

  -- Whether the request numbered k succeeds, from 0.
  abbrev pub succeeds : ℕ → World → Bool
  succeeds k w = is_success (request (behind k w)).0

  -- How many of the first k requests do not succeed.
  abbrev pub failures : ℕ → World → ℕ
  failures zero w = 0
  failures (suc k) w =
      let n = failures k (request w).1 in if is_success (request w).0 then n else suc n

  -- How the loop of `runUntilSuccess` ends that has `left` requests left behind the next one.
  abbrev pub EndsWith : ℕ → World → Option (ℕ × World) → Type 0
  EndsWith left w e =
      (code : ℕ) × (w' : World) × (e ≡ some (code, w'))
      × ((code ≡ 0)
          ↔ ((o.continue_on_success ≡ false) × (k : ℕ) × (k ≤ left) × (succeeds k w ≡ true)))

  EndsWith-later :
      (left : ℕ) (w : World) (e : Option (ℕ × World))
      → (is_success (request w).0 && not o.continue_on_success) ≡ false
      → EndsWith left (request w).1 e
      → EndsWith (suc left) w e
  unfolding behind
  EndsWith-later left w e bad (code, w', q, (forth, back)) = (code, w', q, (forth', back'))
    where
      forth' :
          code ≡ 0
          → (o.continue_on_success ≡ false) × (k : ℕ) × (k ≤ suc left) × (succeeds k w ≡ true)
      forth' z = let (c, k, l, s) = forth z in (c, suc k, omega arith, s)

      back' :
          (o.continue_on_success ≡ false) × (k : ℕ) × (k ≤ suc left) × (succeeds k w ≡ true)
          → code ≡ 0
      back' (c, zero, l, s) = ground arith
      back' (c, suc k, l, s) = back (c, k, omega arith, s)

  EndsWith-last :
      (w : World)
      → (is_success (request w).0 && not o.continue_on_success) ≡ false
      → EndsWith 0 w (some (1, (request w).1))
  unfolding behind
  EndsWith-last w bad = (1, (request w).1, refl, (λ z. absurd (omega (arith, z)), back))
    where
      back : (o.continue_on_success ≡ false) × (k : ℕ) × (k ≤ 0) × (succeeds k w ≡ true) → suc 0 ≡ 0
      back (c, zero, l, s) = ground arith
      back (c, suc k, l, s) = absurd (omega (arith, l))

  EndsWith-first :
      (left : ℕ) (w : World)
      → (is_success (request w).0 && not o.continue_on_success) ≡ true
      → EndsWith left w (some (0, (request w).1))
  unfolding behind
  EndsWith-first left w good =
      (0, (request w).1, refl, (λ _. (ground arith, 0, omega arith, ground arith), λ _. refl))

  success_loop-EndsWith :
      (n left fuel : ℕ) (t : b.Timer) (w : World)
      → o.attempts ≡ pos n
      → n ≤ b.attempt t + suc left
      → (left ≡ 0) ⊎ (b.attempt t + left < n)
      → left < fuel
      → EndsWith left w (success_loop b request o fuel t w)
  unfolding success_loop
  success_loop-EndsWith n left zero t w h m d l = absurd (omega arith)
  success_loop-EndsWith n zero (suc fuel) t w h m d l =
      elim (Bool-cases (is_success (request w).0 && not o.continue_on_success)) [
        | inl good ↦ rw good (EndsWith-first 0 w good)
        | inr bad ↦
            let over : reached o.attempts (b.attempt (b.advance t)) ≡ true =
              ground (arith, law.attempt-advance t) in
            rw (bad, over) (EndsWith-last w bad)
      ]
  success_loop-EndsWith n (suc left) (suc fuel) t w h m d l =
      elim (Bool-cases (is_success (request w).0 && not o.continue_on_success)) [
        | inl good ↦ rw good (EndsWith-first (suc left) w good)
        | inr bad ↦
            let more : reached o.attempts (b.attempt (b.advance t)) ≡ false =
              ground (arith, law.attempt-advance t) in
            rw (bad, more)
              (EndsWith-later left w _ bad (
                success_loop-EndsWith n left fuel (b.advance t) (request w).1 h
                  (omega (arith, law.attempt-advance t))
                  (inr (ground (arith, law.attempt-advance t))) (omega arith)))
      ]

  -- Given the documented counting of the timer and a number of attempts n + 1 that is not negative,
  -- `runUntilSuccess` ends within n + 1 requests. It ends with exit code 0 exactly if one of them is
  -- answered with status 200 and the flag to continue on success is not set; with that flag it
  -- ends with exit code 1 whatever the answers are.
  pub run_until_success-EndsWith :
      (n fuel : ℕ) (w : World)
      → o.attempts ≡ pos (suc n)
      → n < fuel
      → EndsWith n w (run_until_success b request o fuel w)
  unfolding run_until_success
  run_until_success-EndsWith n fuel w h l =
      success_loop-EndsWith (suc n) n fuel b.fresh w h (omega (arith, law.attempt-fresh))
        (inr (omega (arith, law.attempt-fresh))) l

  -- How the loop of `runUntilFail` ends behind a requests and some errors, where n is the number of
  -- attempts: with the request numbered j, and with no earlier one that succeeded with the attempts
  -- reached.
  abbrev pub FailsWith : ℕ → ℕ → ℕ → ℕ → World → Option (ℕ × World) → Type 0
  FailsWith limit n a errors w e =
      (j : ℕ) × (suc j ≤ limit)
      × ((i : ℕ) → i < j → succeeds i w ≡ true → a + suc i < n)
      × ((e ≡ some (0, behind (suc j) w))
            × (succeeds j w ≡ true)
            × (n ≤ a + suc j)
            × (errors + failures (suc j) w ≤ o.error_threshold)
          ⊎ (e ≡ some (1, behind (suc j) w))
            × (succeeds j w ≡ false)
            × (errors + failures (suc j) w ≡ suc o.error_threshold))

  FailsWith-later :
      (limit n a errors errors' : ℕ) (w : World) (e : Option (ℕ × World))
      → errors' ≡ errors + failures 1 w
      → (succeeds 0 w ≡ true → suc a < n)
      → FailsWith limit n (suc a) errors' (request w).1 e
      → FailsWith (suc limit) n a errors w e
  unfolding behind
  FailsWith-later limit n a errors errors' w e h more (j, l, earlier, end) =
      (suc j, omega arith, earlier', end' end)
    where
      earlier' : (i : ℕ) → i < suc j → succeeds i w ≡ true → a + suc i < n
      earlier' zero m s = omega (arith, more s)
      earlier' (suc i) m s = omega (arith, earlier i (omega arith) s)

      end' :
          (e ≡ some (0, behind (suc j) (request w).1))
              × (succeeds j (request w).1 ≡ true)
              × (n ≤ suc a + suc j)
              × (errors' + failures (suc j) (request w).1 ≤ o.error_threshold)
            ⊎ (e ≡ some (1, behind (suc j) (request w).1))
              × (succeeds j (request w).1 ≡ false)
              × (errors' + failures (suc j) (request w).1 ≡ suc o.error_threshold)
          → (e ≡ some (0, behind (suc (suc j)) w))
              × (succeeds (suc j) w ≡ true)
              × (n ≤ a + suc (suc j))
              × (errors + failures (suc (suc j)) w ≤ o.error_threshold)
            ⊎ (e ≡ some (1, behind (suc (suc j)) w))
              × (succeeds (suc j) w ≡ false)
              × (errors + failures (suc (suc j)) w ≡ suc o.error_threshold)
      end' (inl (q, s, m, few)) = inl (q, s, omega arith, ground arith)
      end' (inr (q, s, many)) = inr (q, s, ground arith)

  fail_loop-FailsWith :
      (n limit fuel a errors : ℕ) (t : b.Timer) (w : World)
      → o.attempts ≡ pos n
      → b.attempt t ≡ a
      → errors ≤ o.error_threshold
      → (n - suc a) + (o.error_threshold - errors) < limit
      → limit ≤ fuel
      → FailsWith limit n a errors w (fail_loop b request o fuel t errors w)
  unfolding fail_loop behind
  fail_loop-FailsWith n zero fuel a errors t w h at few m l = absurd (omega arith)
  fail_loop-FailsWith n (suc limit) zero a errors t w h at few m l = absurd (omega arith)
  fail_loop-FailsWith n (suc limit) (suc fuel) a errors t w h at few m l =
      let t' = b.advance t in
      let w' = (request w).1 in
      let at' : b.attempt t' ≡ suc a = omega (arith, law.attempt-advance t) in
      elim (Bool-cases (is_success (request w).0)) [
        | inl good ↦ elim (Bool-cases (leb n (suc a))) [
          | inl over ↦
              let now : reached o.attempts (b.attempt t') ≡ true = rw (h, at') over in
              ends (some (0, w')) (rw (good, now) refl) (
                0,
                omega arith,
                λ i q. absurd (omega arith),
                inl (refl, good, ground arith, ground arith),
              )
          | inr under ↦
              let on : reached o.attempts (b.attempt t') ≡ false = rw (h, at') under in
              ends (fail_loop b request o fuel t' errors w') (rw (good, on) refl) (
                FailsWith-later limit n a errors errors w _ (ground arith) (λ s. ground arith)
                  (fail_loop-FailsWith n limit fuel (suc a) errors t' w' h at' few (ground arith)
                    (omega arith)))
        ]
        | inr bad ↦ elim (Bool-cases (ltb errors o.error_threshold)) [
          | inl room ↦ ends (fail_loop b request o fuel t' (suc errors) w') (rw (bad, room) refl) (
              FailsWith-later limit n a errors (suc errors) w _ (ground arith) (λ s. cc)
                (fail_loop-FailsWith n limit fuel (suc a) (suc errors) t' w' h at' (ground arith)
                  (ground arith) (omega arith)))
          | inr full ↦
              ends (some (1, w')) (rw (bad, full) refl)
                (0, omega arith, λ i q. absurd (omega arith), inr (refl, bad, ground arith))
        ]
      ]
    where
      ends :
          (e : Option (ℕ × World))
          → fail_loop b request o (suc fuel) t errors w ≡ e
          → FailsWith (suc limit) n a errors w e
          → FailsWith (suc limit) n a errors w (fail_loop b request o (suc fuel) t errors w)
      ends e q p = subst (FailsWith (suc limit) n a errors w) (sym q) p

  -- Given the documented counting of the timer and a number of attempts n + 1 that is not negative,
  -- `runUntilFail` ends with a request numbered j, from 0, where j is at most n + threshold. No earlier
  -- request succeeded with the number of attempts reached. It ends with exit code 0 if the request
  -- succeeded, the attempts are reached with it and the failures are at most the threshold; and with
  -- exit code 1 if it failed as the first failure above the threshold.
  pub run_until_fail-FailsWith :
      (n fuel : ℕ) (w : World)
      → o.attempts ≡ pos (suc n)
      → n + o.error_threshold < fuel
      → FailsWith (suc n + o.error_threshold) (suc n) 0 0 w (run_until_fail b request o fuel w)
  unfolding run_until_fail
  run_until_fail-FailsWith n fuel w h l =
      fail_loop-FailsWith (suc n) (suc n + o.error_threshold) fuel 0 0 b.fresh w h
        (omega (arith, law.attempt-fresh)) (omega arith) (omega arith) (omega arith)
