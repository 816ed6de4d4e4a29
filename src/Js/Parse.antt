-- ===== src/Js/Parse.antt =====
-- Numbers and text: `String(n)` in decimal, `parseInt(s)` without a radix, `Number(s)` and the
-- test `/^\d+$/`.
pub mod RoundTrip
use mr1v.Base.{
  ℕ, zero, suc, ◌+◌, ◌-◌, ◌*◌, ◌/◌, ◌%◌, ◌≡◌, refl, Bool, true, false, ◌&&◌, ◌||◌, Option, none,
  some, List, [], ◌∷◌, arith, ltb, leb, ◌==◌, if◌then◌else◌,
}
use mr1v.Js.Num.{ℤ, pos, negsuc, Num, nan, int, nat, num_neg}
use mr1v.Js.Text.{Text, codes, trim, trim_start, is_empty}

-- The decimal digits of `n` in front of `out`; the fuel is one more than `n`.
emit : ℕ → ℕ → Text → Text
emit zero n out = out
emit (suc f) n out =
    let first = (b'0' + n % 10) ∷ out in
    let rest = emit f (n / 10) first in if n / 10 == 0 then first else rest

unfoldable pub decimal : ℕ → Text
unfolding emit
decimal n = emit (suc n) n []

-- `${x}` for a number.
unfoldable pub num_text : Num → Text
unfolding decimal
num_text nan = codes "NaN"
num_text (int (pos n)) = decimal n
num_text (int (negsuc n)) = b'-' ∷ decimal (suc n)

-- The value of a digit in any radix up to 36.
unfoldable pub digit_value : ℕ → Option ℕ
digit_value c =
    if leb b'0' c && leb c b'9'
    then some (c - b'0')
    else if leb b'a' c && leb c b'z'
    then some (c - b'a' + 10)
    else if leb b'A' c && leb c b'Z'
    then some (c - b'A' + 10)
    else none

unfoldable pub digit_in : ℕ → ℕ → Option ℕ
unfolding digit_value
digit_in radix c = elim (digit_value c) [
  | none ↦ none
  | some d ↦ if ltb d radix then some d else none
]

-- `parseInt` reads the longest prefix of digits; without a digit the result is `NaN`.
scan : ℕ → Text → Bool → ℕ → Num
scan radix [] seen acc = if seen then nat acc else nan
scan radix (c ∷ s) seen acc = elim (digit_in radix c) [
  | none ↦ if seen then nat acc else nan
  | some d ↦ scan radix s true (acc * radix + d)
]

-- A prefix `0x` chooses the radix 16.
unsigned : Text → Num
unfolding scan digit_in
unsigned [] = nan
unsigned (c ∷ []) = scan 10 (c ∷ []) false 0
unsigned (c ∷ d ∷ s) =
    if c == b'0' && (d == b'x' || d == b'X') then scan 16 s false 0 else scan 10 (c ∷ d ∷ s) false 0

signed : Text → Num
unfolding unsigned
signed [] = nan
signed (c ∷ s) =
    if c == b'-' then num_neg (unsigned s) else if c == b'+' then unsigned s else unsigned (c ∷ s)

unfoldable pub parse_int : Text → Num
unfolding signed trim_start
parse_int s = signed (trim_start s)

-- `Number` accepts a text only as a whole.
whole : ℕ → Text → ℕ → Num
whole radix [] acc = nat acc
whole radix (c ∷ s) acc = elim (digit_in radix c) [
  | none ↦ nan
  | some d ↦ whole radix s (acc * radix + d)
]

some_digits : ℕ → Text → Num
unfolding whole digit_in
some_digits radix [] = nan
some_digits radix (c ∷ s) = whole radix (c ∷ s) 0

abbrev radix_of : ℕ → Option ℕ
radix_of c =
    if c == b'x' || c == b'X'
    then some 16
    else if c == b'o' || c == b'O'
    then some 8
    else if c == b'b' || c == b'B'
    then some 2
    else none

-- After trimming: no text is 0, a sign goes with decimal digits only, and `0x`, `0o` and `0b`
-- choose a radix.
literal : Text → Num
unfolding some_digits
literal [] = nat 0
literal (c ∷ []) = some_digits 10 (c ∷ [])
literal (c ∷ d ∷ s) =
    if c == b'-'
    then num_neg (some_digits 10 (d ∷ s))
    else if c == b'+'
    then some_digits 10 (d ∷ s)
    else if c == b'0'
    then elim (radix_of d) [ none ↦ some_digits 10 (c ∷ d ∷ s) | some r ↦ some_digits r s ]
    else some_digits 10 (c ∷ d ∷ s)

-- `Number(s)` for a text with no fraction, no exponent and not `Infinity`.
unfoldable pub to_number : Text → Num
unfolding literal trim
to_number s = literal (trim s)

unfoldable pub is_digit : ℕ → Bool
is_digit c = leb b'0' c && leb c b'9'

abbrev pub all_digits : Text → Bool
all_digits [] = true
all_digits (c ∷ s) = is_digit c && all_digits s

-- `/^\d+$/.test(s)`.
unfoldable pub is_digits : Text → Bool
unfolding is_digit
is_digits [] = false
is_digits (c ∷ s) = all_digits (c ∷ s)

parse_tests :
    (parse_int (codes " 27015abc") ≡ nat 27015)
    × (parse_int (codes "0x1F") ≡ nat 31)
    × (parse_int (codes "abc") ≡ nan)
    × (to_number [] ≡ nat 0)
    × (to_number (codes " 12 ") ≡ nat 12)
    × (to_number (codes "12a") ≡ nan)
    × (num_text (nat 27015) ≡ codes "27015")
    × (num_text (int (negsuc 9)) ≡ codes "-10")
unfolding parse_int to_number num_text
parse_tests = (refl, refl, refl, refl, refl, refl, refl, refl)
