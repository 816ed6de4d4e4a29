-- ===== src/Server/Scheduler/Versions/Agree.antt =====
-- The backend's order of versions and the console's.
use mr1v.Base.{
  ℕ, ◌+◌, ◌-◌, ◌*◌, ◌^◌, ◌<◌, ◌≡◌, ◌≢◌, refl, Option, none, some, List, [], ◌∷◌, map, All, arith,
}
use mr1v.Js.Num.{ℤ, pos, ◌-ℤ◌, nat}
use mr1v.Js.Text.{Text, split}
use mr1v.Js.Parse.{to_number}
use mr1v.Js.Parse.RoundTrip.{value, AllDigits, to_number-digits}
use mr1v.Console.Agents.Versions
use mr1v.Console.Agents.Versions.{compare_segments}
use mr1v.Console.Agents.Versions.Order.{key}
use mr1v.Server.Scheduler.Versions.{
  atoi, digits_from, wrap64, compare_parts, compare_versions, strings_compare,
}

-- A part of digits whose number a double holds exactly.
abbrev pub IsSmallPart : Text → Type 0
IsSmallPart p = (p ≢ []) × AllDigits p × (value 0 p < 2 ^ 53)

abbrev pub IsSmallVersion : Text → Type 0
IsSmallVersion v = All IsSmallPart (split b'.' v)

digits_from-value : (s : Text) (acc : ℕ) → AllDigits s → digits_from s acc ≡ some (value acc s)
digits_from-value [] acc h = refl
digits_from-value (c ∷ s) acc (p, h) = ground (arith, digits_from-value s (acc * 10 + (c - b'0')) h)

atoi-small : (p : Text) → IsSmallPart p → atoi p ≡ some (pos (value 0 p))
unfolding atoi
atoi-small [] h = absurd (h.0 refl)
atoi-small (c ∷ s) (k, h, b) = ground (arith, digits_from-value s (0 * 10 + (c - b'0')) h.1)

atoi_parts :
    (ps : List Text) → All IsSmallPart ps → map atoi ps ≡ map (λ n. some (pos n)) (map (value 0) ps)
atoi_parts [] h = refl
atoi_parts (p ∷ ps) (q, h) = rw (atoi-small p q, atoi_parts ps h)

number_parts : (ps : List Text) → All IsSmallPart ps → map to_number ps ≡ map nat (map (value 0) ps)
number_parts [] h = refl
number_parts ([] ∷ ps) (q, h) = absurd (q.0 refl)
number_parts ((c ∷ s) ∷ ps) (q, h) = rw (to_number-digits c s q.1, number_parts ps h)

small_values : (ps : List Text) → All IsSmallPart ps → All (λ n. n < 2 ^ 53) (map (value 0) ps)
small_values [] h = tt
small_values (p ∷ ps) (q, h) = (q.2, small_values ps h)

wrap64-small : (x y : ℕ) → x < 2 ^ 53 → y < 2 ^ 53 → wrap64 (pos x -ℤ pos y) ≡ pos x -ℤ pos y
unfolding wrap64
wrap64-small x y h k = ground arith

parts-segments :
    (fb gb : ℤ) (xs ys : List ℕ)
    → All (λ n. n < 2 ^ 53) xs
    → All (λ n. n < 2 ^ 53) ys
    → compare_parts fb (map (λ n. some (pos n)) xs) (map (λ n. some (pos n)) ys)
      ≡ compare_segments gb (map nat xs) (map nat ys)
unfolding compare_parts compare_segments
parts-segments fb gb [] [] h k = refl
parts-segments fb gb (x ∷ xs) [] (p, h) k =
    ground (arith, parts-segments fb gb xs [] h tt, wrap64-small x 0 p)
parts-segments fb gb [] (y ∷ ys) h (q, k) =
    ground (arith, parts-segments fb gb [] ys tt k, wrap64-small 0 y)
parts-segments fb gb (x ∷ xs) (y ∷ ys) (p, h) (q, k) =
    ground (arith, parts-segments fb gb xs ys h k, wrap64-small x y p q)

-- On versions whose parts are whole numbers below 2 ^ 53 the backend and the console compute the
-- same number, whatever the console's locale.
pub compare_versions-agree :
    (locale_compare : Text → Text → ℤ) (a b : Text)
    → IsSmallVersion a
    → IsSmallVersion b
    → compare_versions a b ≡ Versions.compare_versions locale_compare a b
unfolding compare_versions Versions.compare_versions
compare_versions-agree locale_compare a b h k =
    rw
      (
        atoi_parts (split b'.' a) h,
        atoi_parts (split b'.' b) k,
        number_parts (split b'.' a) h,
        number_parts (split b'.' b) k,
      )
      (parts-segments (strings_compare a b) (locale_compare a b) (key a) (key b)
        (small_values (split b'.' a) h) (small_values (split b'.' b) k))

zeros_nil :
    (fb : ℤ) (xs : List ℕ) → All (λ n. n ≡ 0) xs → compare_segments fb (map nat xs) [] ≡ pos 0
unfolding compare_segments
zeros_nil fb [] h = refl
zeros_nil fb (x ∷ xs) (p, h) = ground (arith, zeros_nil fb xs h)

split_nothing : split b'.' [] ≡ [] ∷ []
unfolding split
split_nothing = refl

zeros_equal :
    (fb : ℤ) (xs : List ℕ)
    → All (λ n. n ≡ 0) xs
    → compare_segments fb (map nat xs) (nat 0 ∷ []) ≡ pos 0
unfolding compare_segments
zeros_equal fb [] h = refl
zeros_equal fb (x ∷ []) (p, h) = ground arith
zeros_equal fb (x ∷ y ∷ xs) (p, (q, h)) = ground (arith, zeros_nil fb xs h)

error_decides : (fb : ℤ) (xs : List (Option ℤ)) → compare_parts fb xs (none ∷ []) ≡ fb
unfolding compare_parts
error_decides fb [] = refl
error_decides fb (none ∷ xs) = refl
error_decides fb (some x ∷ xs) = refl

-- The backend and the console differ on a version of zeros, such as `0.0`, against the text of no characters from which
-- both look for the latest version: for the backend it is later, for the console it is not.
pub compare_versions-zeros :
    (locale_compare : Text → Text → ℤ) (c : ℕ) (s : Text)
    → IsSmallVersion (c ∷ s)
    → All (λ n. n ≡ 0) (key (c ∷ s))
    → (compare_versions (c ∷ s) [] ≡ pos 1)
      × (Versions.compare_versions locale_compare (c ∷ s) [] ≡ pos 0)
unfolding compare_versions Versions.compare_versions to_number
compare_versions-zeros locale_compare c s h z =
    rw (split_nothing, number_parts (split b'.' (c ∷ s)) h)
      (
        error_decides (strings_compare (c ∷ s) []) (map atoi (split b'.' (c ∷ s))),
        zeros_equal (locale_compare (c ∷ s) []) (key (c ∷ s)) z,
      )
