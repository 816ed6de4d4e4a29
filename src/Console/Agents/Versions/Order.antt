-- ===== src/Console/Agents/Versions/Order.antt =====
-- On versions made of whole numbers the comparison is a total preorder, whatever the locale.
use mr1v.Base.{
  ◌&&◌, ◌||◌, ℕ, ◌≡◌, refl, ◌⊎◌, inl, Bool, true, List, [], ◌∷◌, map, arith, All, ltb, ◌==◌,
}
use mr1v.Js.Num.{ℤ, pos, leb_ℤ, ltb_ℤ, nat}
use mr1v.Js.Text.{Text, split}
use mr1v.Js.Parse.{to_number}
use mr1v.Js.Parse.RoundTrip.{value, AllDigits, to_number-digits}
use mr1v.Console.Agents.Versions.{compare_segments, compare_versions}

-- Each segment is missing, as in the version of no characters, or a text of decimal digits.
abbrev pub IsSegment : Text → Type 0
IsSegment = AllDigits

abbrev pub IsVersion : Text → Type 0
IsVersion v = All IsSegment (split b'.' v)

abbrev pub key : Text → List ℕ
key v = map (value 0) (split b'.' v)

numbers_of_segments :
    (ps : List Text) → All IsSegment ps → map to_number ps ≡ map nat (map (value 0) ps)
unfolding to_number
numbers_of_segments [] h = refl
numbers_of_segments ([] ∷ ps) (p, h) = rw (numbers_of_segments ps h)
numbers_of_segments ((c ∷ s) ∷ ps) (p, h) = rw (to_number-digits c s p, numbers_of_segments ps h)

-- Two lists of numbers, the shorter one filled up with zeros: the first difference decides.
abbrev pub before : List ℕ → List ℕ → Bool
before [] [] = true
before (x ∷ xs) [] = x == 0 && before xs []
before [] (y ∷ ys) = ltb 0 y || before [] ys
before (x ∷ xs) (y ∷ ys) = ltb x y || (x == y && before xs ys)

segments_before :
    (fallback : ℤ) (xs ys : List ℕ)
    → leb_ℤ (compare_segments fallback (map nat xs) (map nat ys)) (pos 0) ≡ before xs ys
unfolding compare_segments
segments_before fb [] [] = refl
segments_before fb (x ∷ xs) [] = ground (arith, segments_before fb xs [])
segments_before fb [] (y ∷ ys) = ground (arith, segments_before fb [] ys)
segments_before fb (x ∷ xs) (y ∷ ys) = ground (arith, segments_before fb xs ys)

pub before_total : (xs ys : List ℕ) → (before xs ys ≡ true) ⊎ (before ys xs ≡ true)
before_total [] [] = inl refl
before_total (x ∷ xs) [] = ground (arith, before_total xs [])
before_total [] (y ∷ ys) = ground (arith, before_total [] ys)
before_total (x ∷ xs) (y ∷ ys) = ground (arith, before_total xs ys)

pub before_trans :
    (xs ys zs : List ℕ) → before xs ys ≡ true → before ys zs ≡ true → before xs zs ≡ true
before_trans [] [] [] h k = refl
before_trans [] [] (z ∷ zs) h k = k
before_trans [] (y ∷ ys) [] h k = refl
before_trans [] (y ∷ ys) (z ∷ zs) h k = ground (arith, before_trans [] ys zs)
before_trans (x ∷ xs) [] [] h k = h
before_trans (x ∷ xs) [] (z ∷ zs) h k = ground (arith, before_trans xs [] zs)
before_trans (x ∷ xs) (y ∷ ys) [] h k = ground (arith, before_trans xs ys [])
before_trans (x ∷ xs) (y ∷ ys) (z ∷ zs) h k = ground (arith, before_trans xs ys zs)

segments_flip :
    (fb gb : ℤ) (xs ys : List ℕ)
    → ltb_ℤ (pos 0) (compare_segments fb (map nat xs) (map nat ys))
      ≡ ltb_ℤ (compare_segments gb (map nat ys) (map nat xs)) (pos 0)
unfolding compare_segments
segments_flip fb gb [] [] = refl
segments_flip fb gb (x ∷ xs) [] = ground (arith, segments_flip fb gb xs [])
segments_flip fb gb [] (y ∷ ys) = ground (arith, segments_flip fb gb [] ys)
segments_flip fb gb (x ∷ xs) (y ∷ ys) = ground (arith, segments_flip fb gb xs ys)

module _ (locale_compare : Text → Text → ℤ) where
  -- On versions the comparison with 0 is the order of the keys.
  pub compare-before :
      (a b : Text)
      → IsVersion a
      → IsVersion b
      → leb_ℤ (compare_versions locale_compare a b) (pos 0) ≡ before (key a) (key b)
  unfolding compare_versions
  compare-before a b h k =
      rw (numbers_of_segments (split b'.' a) h, numbers_of_segments (split b'.' b) k)
        (segments_before (locale_compare a b) (key a) (key b))

  compare-flip :
      (a b : Text)
      → IsVersion a
      → IsVersion b
      → ltb_ℤ (pos 0) (compare_versions locale_compare a b)
        ≡ ltb_ℤ (compare_versions locale_compare b a) (pos 0)
  unfolding compare_versions
  compare-flip a b h k =
      rw (numbers_of_segments (split b'.' a) h, numbers_of_segments (split b'.' b) k)
        (segments_flip (locale_compare a b) (locale_compare b a) (key a) (key b))

  -- On versions whose segments are whole numbers the comparison is a total preorder: of two
  -- versions one is not after the other, not being after is transitive, and a version is after
  -- another exactly if the other is before it.
  pub compare_versions-preorder :
      (a b c : Text)
      → IsVersion a
      → IsVersion b
      → IsVersion c
      → ((leb_ℤ (compare_versions locale_compare a b) (pos 0) ≡ true)
          ⊎ (leb_ℤ (compare_versions locale_compare b a) (pos 0) ≡ true))
        × (leb_ℤ (compare_versions locale_compare a b) (pos 0) ≡ true
            → leb_ℤ (compare_versions locale_compare b c) (pos 0) ≡ true
            → leb_ℤ (compare_versions locale_compare a c) (pos 0) ≡ true)
        × (ltb_ℤ (pos 0) (compare_versions locale_compare a b)
            ≡ ltb_ℤ (compare_versions locale_compare b a) (pos 0))
  compare_versions-preorder a b c h k l =
      rw
        (
          compare-before a b h k,
          compare-before b a k h,
          compare-before b c k l,
          compare-before a c h l,
        )
        (before_total (key a) (key b), before_trans (key a) (key b) (key c), compare-flip a b h k)
