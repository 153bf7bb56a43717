-- ===== src/Text/RoundTrip.antt =====
-- `Atoi` on what `Sprintf("%d", …)` prints.
use Prim.Native.Char.{Char, code}
use Prim.Native.String.append
use mathlib.Core.Path.{subst}
use transflect.Base.{
  ℕ, zero, suc, ◌+◌, ◌*◌, ◌-◌, ◌/◌, ◌%◌, ◌^◌, ◌≤◌, ◌<◌, ◌<>◌, String, ◌≡◌, ◌≢◌, refl, ◌∙◌, ap, Bool,
  true, false, ◌&&◌, some, ltb, leb, ◌==◌, nat_eq, string_eq, arith, pos, Bool-cases, inl, inr,
}
use transflect.Text.{digits, nth, digit_texts, print_digits, itoa, atoi, unsigned, signed}

one-append : (c : Char) (out : String) → String.◌∷◌ c "" <> out ≡ String.◌∷◌ c out
one-append c out = append.cons c "" out ∙ ap (String.◌∷◌ c) (append.nil out)

-- The text of a digit has one character.
digit-text :
    (d : ℕ) → d < 10 → (c : Char) × (code c ≡ 48 + d) × (nth digit_texts d ≡ String.◌∷◌ c "")
unfolding nth digit_texts
digit-text zero h = ("0", refl, refl)
digit-text (suc zero) h = ("1", refl, refl)
digit-text (suc (suc zero)) h = ("2", refl, refl)
digit-text (suc (suc (suc zero))) h = ("3", refl, refl)
digit-text (suc (suc (suc (suc zero)))) h = ("4", refl, refl)
digit-text (suc (suc (suc (suc (suc zero))))) h = ("5", refl, refl)
digit-text (suc (suc (suc (suc (suc (suc zero)))))) h = ("6", refl, refl)
digit-text (suc (suc (suc (suc (suc (suc (suc zero))))))) h = ("7", refl, refl)
digit-text (suc (suc (suc (suc (suc (suc (suc (suc zero)))))))) h = ("8", refl, refl)
digit-text (suc (suc (suc (suc (suc (suc (suc (suc (suc zero))))))))) h = ("9", refl, refl)
digit-text d h = absurd (omega arith)

-- One more digit in front.
digits-nth :
    (d m : ℕ) (out : String)
    → d < 10
    → digits m (nth digit_texts d <> out) ≡ digits (m * 10 + d) out
unfolding digits
digits-nth d m out h =
    let (c, e, q) = digit-text d h in
    let known : leb 48 (48 + d) && leb (48 + d) 57 ≡ true = ground arith in
    let value : 48 + d - 48 ≡ d = omega arith in rw (q, one-append c out, e, known, value) refl

-- The digits of n are read back in front of any text.
digits-print_digits :
    (fuel n : ℕ) (out : String) → n < fuel → digits 0 (print_digits fuel n out) ≡ digits n out
unfolding print_digits
digits-print_digits zero n out h = absurd (omega arith)
digits-print_digits (suc fuel) n out h = elim (Bool-cases (ltb n 10)) [
  | inl one ↦
      let small : n < 10 = ground arith in
      let same : n % 10 ≡ n = omega arith in
      let alone : 0 * 10 + n ≡ n = omega arith in
      rw (one, same) (digits-nth n 0 out small ∙ ap (λ k. digits k out) alone)
  | inr more ↦
      let large : 10 ≤ n = ground arith in
      let back : n / 10 * 10 + n % 10 ≡ n = omega arith in
      rw more (
        digits-print_digits fuel (n / 10) (nth digit_texts (n % 10) <> out) (omega arith)
        ∙ digits-nth (n % 10) (n / 10) out (omega arith)
        ∙ ap (λ k. digits k out) back)
]

-- A text whose first character is a digit.
StartsWithDigit : String → Type 0
StartsWithDigit s = (c : Char) × (rest : String) × (48 ≤ code c) × (s ≡ String.◌∷◌ c rest)

print_digits-StartsWithDigit :
    (fuel n : ℕ) (out : String) → n < fuel → StartsWithDigit (print_digits fuel n out)
unfolding print_digits StartsWithDigit
print_digits-StartsWithDigit zero n out h = absurd (omega arith)
print_digits-StartsWithDigit (suc fuel) n out h = elim (Bool-cases (ltb n 10)) [
  | inl one ↦
      let (c, e, q) = digit-text (n % 10) (omega arith) in
      rw one (c, out, omega arith, rw q (one-append c out))
  | inr more ↦
      let large : 10 ≤ n = ground arith in
      rw more
        (print_digits-StartsWithDigit fuel (n / 10) (nth digit_texts (n % 10) <> out) (omega arith))
]

-- A text of digits has no sign.
atoi-plain :
    (s : String) (n : ℕ)
    → StartsWithDigit s
    → digits 0 s ≡ some n
    → n < 2 ^ 63
    → atoi s ≡ some (pos n)
unfolding atoi unsigned signed StartsWithDigit string_eq
atoi-plain s n (c, rest, h, e) q small =
    let no_minus : (code c == b'-') ≡ false = ground arith in
    let no_plus : (code c == b'+') ≡ false = ground arith in
    let apart : String.◌∷◌ c rest ≢ "" = λ p. cc in
    let some_text : (String.◌∷◌ c rest == "") ≡ false = ground (arith, apart) in
    let in_range : leb (2 ^ 63) n ≡ false = ground arith in
    let value : digits 0 (String.◌∷◌ c rest) ≡ some n = subst (λ s. digits 0 s ≡ some n) e q in
    rw (e, no_minus, no_plus, some_text, value, in_range) refl

-- A number below 2 ^ 63 that is printed in decimal is read back by `Atoi`.
pub atoi-itoa : (n : ℕ) → n < 2 ^ 63 → atoi (itoa n) ≡ some (pos n)
unfolding itoa digits
atoi-itoa n h =
    atoi-plain (itoa n) n (print_digits-StartsWithDigit (suc n) n "" (omega arith))
      (digits-print_digits (suc n) n "" (omega arith)) h

-- Every character is a digit.
unfoldable pub is_numeral : String → Bool
is_numeral String.[] = true
is_numeral (String.◌∷◌ c s) = leb 48 (code c) && leb (code c) 57 && is_numeral s

print_digits-is_numeral :
    (fuel n : ℕ) (out : String)
    → is_numeral out ≡ true
    → is_numeral (print_digits fuel n out) ≡ true
unfolding print_digits is_numeral
print_digits-is_numeral zero n out h = h
print_digits-is_numeral (suc fuel) n out h =
    let (c, e, q) = digit-text (n % 10) (omega arith) in
    let one : is_numeral (nth digit_texts (n % 10) <> out) ≡ true =
      rw (q, one-append c out) (ground arith) in
    ground (arith, print_digits-is_numeral fuel (n / 10) (nth digit_texts (n % 10) <> out) one)

pub itoa-is_numeral : (n : ℕ) → is_numeral (itoa n) ≡ true
unfolding itoa is_numeral
itoa-is_numeral n = print_digits-is_numeral (suc n) n "" refl
