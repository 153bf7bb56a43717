-- ===== src/Text.antt =====
-- What the program uses of Go's `strconv` and `strings`: `Atoi`, `Split` at a comma, `TrimSpace`.
pub mod RoundTrip
use Prim.Native.Char.{Char, code}
use mathlib.Core.List.{cons-ne-nil}
use transflect.Base.{
  ◌≢◌, arith, zero, suc, ◌/◌, ◌%◌, ◌<>◌, ℕ, ◌+◌, ◌-◌, ◌*◌, ◌^◌, String, Bool, true, false, ◌&&◌,
  ◌||◌, Option, none, some, List, [], ◌∷◌, ltb, leb, ◌==◌, nat_eq, string_eq, if◌then◌else◌, ℤ, pos,
  neg,
}

digits : ℕ → String → Option ℕ
digits n String.[] = some n
digits n (String.◌∷◌ c s) =
    let rest = digits (n * 10 + (code c - 48)) s in
    if leb 48 (code c) && leb (code c) 57 then rest else none

-- One digit at least.
unsigned : String → Option ℕ
unfolding digits
unsigned s = if s == "" then none else digits 0 s

-- The range test of a 64-bit `int`, and the sign.
signed : Bool → Option ℕ → Option ℤ
signed minus none = none
signed true (some n) = if ltb (2 ^ 63) n then none else some (neg n)
signed false (some n) = if leb (2 ^ 63) n then none else some (pos n)

-- `strconv.Atoi`; `none` is its error.
unfoldable pub atoi : String → Option ℤ
unfolding unsigned signed string_eq
atoi String.[] = none
atoi (String.◌∷◌ c s) =
    if code c == b'-'
    then signed true (unsigned s)
    else if code c == b'+'
    then signed false (unsigned s)
    else signed false (unsigned (String.◌∷◌ c s))

-- `unicode.IsSpace`
is_space : ℕ → Bool
is_space c =
    (leb 9 c && leb c 13)
    || c == 32
    || c == 0x85
    || c == 0xa0
    || c == 0x1680
    || (leb 0x2000 c && leb c 0x200a)
    || c == 0x2028
    || c == 0x2029
    || c == 0x202f
    || c == 0x205f
    || c == 0x3000

trim_left : String → String
trim_left String.[] = ""
trim_left (String.◌∷◌ c s) =
    let rest = trim_left s in if is_space (code c) then rest else String.◌∷◌ c s

trim_right : String → String
trim_right String.[] = ""
trim_right (String.◌∷◌ c s) =
    let rest = trim_right s in if is_space (code c) && rest == "" then "" else String.◌∷◌ c rest

-- `strings.TrimSpace`
unfoldable pub trim_space : String → String
unfolding is_space trim_left trim_right string_eq
trim_space s = trim_right (trim_left s)

extend : Char → List String → List String
extend c [] = String.◌∷◌ c "" ∷ []
extend c (w ∷ ws) = String.◌∷◌ c w ∷ ws

-- `strings.Split(s, ",")`: always one piece at least.
unfoldable pub split_commas : String → List String
unfolding extend
split_commas String.[] = "" ∷ []
split_commas (String.◌∷◌ c s) =
    let rest = split_commas s in if code c == b',' then "" ∷ rest else extend c rest

digit_texts : List String
digit_texts = "0" ∷ "1" ∷ "2" ∷ "3" ∷ "4" ∷ "5" ∷ "6" ∷ "7" ∷ "8" ∷ "9" ∷ []

nth : List String → ℕ → String
nth [] i = ""
nth (w ∷ ws) zero = w
nth (w ∷ ws) (suc i) = nth ws i

-- Each round prints the last digit; a number has no more digits than its value plus one.
print_digits : ℕ → ℕ → String → String
print_digits zero n out = out
print_digits (suc fuel) n out =
    let text = nth digit_texts (n % 10) <> out in
    let more = print_digits fuel (n / 10) text in if ltb n 10 then text else more

-- `fmt.Sprintf("%d", n)`
unfoldable pub itoa : ℕ → String
unfolding digit_texts nth print_digits
itoa n = print_digits (suc n) n ""

pub split_commas-ne-nil : (s : String) → split_commas s ≢ []
unfolding split_commas
split_commas-ne-nil String.[] = cons-ne-nil "" []
split_commas-ne-nil (String.◌∷◌ c s) = ground (arith, split_commas-ne-nil s)
