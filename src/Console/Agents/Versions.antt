-- ===== src/Console/Agents/Versions.antt =====
-- pages/AgentsPage.tsx: the order of agent versions and the latest one. `locale_compare` stands for
-- the host's `localeCompare`.
pub mod Order
pub mod Latest
use mr1v.Base.{
  ℕ, suc, ◌-◌, ◌≡◌, refl, Bool, true, false, not, ◌&&◌, Option, none, some, List, [], ◌∷◌, map, ltb,
  ◌==◌, if◌then◌else◌, select,
}
use mr1v.Js.Num.{ℤ, pos, negsuc, ◌-ℤ◌, ltb_ℤ, leb_ℤ, Num, nan, int}
use mr1v.Js.Text.{Text, codes, text_eq, is_empty, split}
use mr1v.Js.Parse.{to_number}
use mr1v.Console.Agents.Page.{Agent}

abbrev eq_ℤ : ℤ → ℤ → Bool
eq_ℤ a b = leb_ℤ a b && leb_ℤ b a

-- One round of the loop: `fallback` is `a.localeCompare(b)`, `rest` the rounds that follow.
abbrev round : ℤ → Num → Num → ℤ → ℤ
round fallback (int x) (int y) rest = if eq_ℤ x y then rest else x -ℤ y
round fallback _ _ rest = fallback

-- The loop over the segments; one that is missing counts as 0.
unfoldable pub compare_segments : ℤ → List Num → List Num → ℤ
compare_segments fallback [] [] = pos 0
compare_segments fallback (x ∷ xs) [] =
    round fallback x (int (pos 0)) (compare_segments fallback xs [])
compare_segments fallback [] (y ∷ ys) =
    round fallback (int (pos 0)) y (compare_segments fallback [] ys)
compare_segments fallback (x ∷ xs) (y ∷ ys) = round fallback x y (compare_segments fallback xs ys)

module _ (locale_compare : Text → Text → ℤ) where
  unfoldable pub compare_versions : Text → Text → ℤ
  unfolding compare_segments
  compare_versions a b =
      compare_segments (locale_compare a b) (map to_number (split b'.' a))
        (map to_number (split b'.' b))

  -- The callback of `reduce`.
  abbrev pub later : Text → Text → Text
  later max v = if ltb_ℤ (pos 0) (compare_versions v max) then v else max

  abbrev pub reduce_versions : Text → List Text → Text
  reduce_versions max [] = max
  reduce_versions max (v ∷ vs) = reduce_versions (later max v) vs

  unfoldable pub latest_version : List Agent → Text
  latest_version agents =
      reduce_versions [] (select (λ v. not (is_empty v)) (map (λ a. a.version) agents))

-- How the version column shows a version.
pub data VersionTag : Type 0 where
  unknown : VersionTag
  current stale : Text → VersionTag

unfoldable pub version_tag : Text → Text → VersionTag
version_tag latest v =
    if is_empty v
    then unknown
    else if not (is_empty latest) && not (text_eq v latest)
    then stale v
    else current v

abbrev no_locale : Text → Text → ℤ
no_locale a b = pos 0

compare_tests :
    (compare_versions no_locale (codes "0.1.10") (codes "0.1.8") ≡ pos 2)
    × (compare_versions no_locale (codes "1.0") (codes "1.0.0") ≡ pos 0)
    × (compare_versions no_locale (codes "1.2") (codes "1.10") ≡ negsuc 7)
unfolding compare_versions split to_number
compare_tests = (refl, refl, refl)
