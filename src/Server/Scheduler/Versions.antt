-- ===== src/Server/Scheduler/Versions.antt =====
-- internal/backend/backend.go: `compareVersions`. `Agree` compares it with the console's.
pub mod Agree
use mr1v.Base.{
  ℕ, zero, suc, ◌+◌, ◌-◌, ◌*◌, ◌%◌, ◌^◌, ◌<◌, ◌≤◌, ◌≡◌, ◌≢◌, refl, Bool, true, false, ◌&&◌, ◌||◌,
  Option, none, some, List, [], ◌∷◌, map, All, ltb, leb, ◌==◌, if◌then◌else◌, arith, ap, ◌∙◌, sym,
}
use mr1v.Js.Num.{ℤ, pos, negsuc, ◌-ℤ◌, neg_ℤ, leb_ℤ, Num, nat}
use mr1v.Js.Text.{Text, codes, split}
use mr1v.Js.Parse.{to_number, is_digit}
use mr1v.Js.Parse.RoundTrip.{value, AllDigits, IsDigit, to_number-digits}
use mr1v.Console.Agents.Versions

-- The digits of a text with no sign, or `none`.
abbrev digits_from : Text → ℕ → Option ℕ
digits_from [] acc = some acc
digits_from (c ∷ s) acc =
    let rest = digits_from s (acc * 10 + (c - b'0')) in
    if leb b'0' c && leb c b'9' then rest else none

abbrev some_digits : Text → Option ℕ
some_digits [] = none
some_digits (c ∷ s) = digits_from (c ∷ s) 0

abbrev pub in_int64 : Bool → Option ℕ → Option ℤ
in_int64 minus none = none
in_int64 true (some n) = if leb n (2 ^ 63) then some (neg_ℤ (pos n)) else none
in_int64 false (some n) = if ltb n (2 ^ 63) then some (pos n) else none

-- `strconv.Atoi`; `none` is an error, also when the number is out of range.
unfoldable pub atoi : Text → Option ℤ
atoi [] = none
atoi (c ∷ s) =
    if c == b'-'
    then in_int64 true (some_digits s)
    else if c == b'+'
    then in_int64 false (some_digits s)
    else in_int64 false (some_digits (c ∷ s))

-- A difference of two `int`s, which wraps around at 64 bits.
abbrev from_bits : ℕ → ℤ
from_bits m = if ltb m (2 ^ 63) then pos m else negsuc (2 ^ 64 - m - 1)

unfoldable pub wrap64 : ℤ → ℤ
wrap64 (pos n) = from_bits (n % 2 ^ 64)
wrap64 (negsuc n) = from_bits (2 ^ 64 - 1 - n % 2 ^ 64)

-- `strings.Compare`.
unfoldable pub strings_compare : Text → Text → ℤ
strings_compare [] [] = pos 0
strings_compare [] (d ∷ t) = negsuc 0
strings_compare (c ∷ s) [] = pos 1
strings_compare (c ∷ s) (d ∷ t) =
    if ltb c d then negsuc 0 else if ltb d c then pos 1 else strings_compare s t

abbrev eq_ℤ : ℤ → ℤ → Bool
eq_ℤ a b = leb_ℤ a b && leb_ℤ b a

abbrev round : ℤ → Option ℤ → Option ℤ → ℤ → ℤ
round fallback (some x) (some y) rest = if eq_ℤ x y then rest else wrap64 (x -ℤ y)
round fallback _ _ rest = fallback

-- The loop over the parts; one that is missing is 0, and no error.
unfoldable pub compare_parts : ℤ → List (Option ℤ) → List (Option ℤ) → ℤ
compare_parts fallback [] [] = pos 0
compare_parts fallback (x ∷ xs) [] = round fallback x (some (pos 0)) (compare_parts fallback xs [])
compare_parts fallback [] (y ∷ ys) = round fallback (some (pos 0)) y (compare_parts fallback [] ys)
compare_parts fallback (x ∷ xs) (y ∷ ys) = round fallback x y (compare_parts fallback xs ys)

unfoldable pub compare_versions : Text → Text → ℤ
unfolding compare_parts atoi strings_compare wrap64
compare_versions a b =
    compare_parts (strings_compare a b) (map atoi (split b'.' a)) (map atoi (split b'.' b))
