-- ===== src/Console/Agents/Versions/Latest.antt =====
-- The latest version of the page is a greatest one.
use mr1v.Base.{
  ℕ, ◌≡◌, refl, subst, sym, ◌∙◌, ◌⊎◌, inl, inr, true, false, not, Bool-cases, List, [], ◌∷◌, map,
  arith, All, select,
}
use mr1v.Js.Num.{ℤ, pos, leb_ℤ, ltb_ℤ}
use mr1v.Js.Text.{Text, is_empty, split}
use mr1v.Console.Agents.Page.{Agent}
use mr1v.Console.Agents.Versions.{compare_versions, later, reduce_versions, latest_version}
use mr1v.Console.Agents.Versions.Order.{
  IsVersion, key, before, before_trans, before_total, compare-before,
}

-- `v` is one of the texts.
abbrev pub OneOf : Text → List Text → Type 0
OneOf v [] = ⊥
OneOf v (w ∷ vs) = (v ≡ w) ⊎ OneOf v vs

not_positive : (z : ℤ) → ltb_ℤ (pos 0) z ≡ not (leb_ℤ z (pos 0))
not_positive z = ground arith

before_refl : (xs : List ℕ) → before xs xs ≡ true
before_refl [] = refl
before_refl (x ∷ xs) = ground (arith, before_refl xs)

before_nothing : (ys : List ℕ) → before [] ys ≡ true
before_nothing [] = refl
before_nothing (y ∷ ys) = ground (arith, before_nothing ys)

before_zero : (ys : List ℕ) → before (0 ∷ []) ys ≡ true
before_zero [] = refl
before_zero (y ∷ ys) = ground (arith, before_nothing ys)

other_way : (xs ys : List ℕ) → before xs ys ≡ false → before ys xs ≡ true
other_way xs ys h = ground (arith, before_total xs ys)

nothing_IsVersion : IsVersion []
unfolding split
nothing_IsVersion = (tt, tt)

empty_before : (ys : List ℕ) → before (key []) ys ≡ true
unfolding split
empty_before ys = before_zero ys

module _ (locale_compare : Text → Text → ℤ) where
  abbrev Greatest : Text → Text → List Text → Type 0
  Greatest m max vs =
      (before (key max) (key m) ≡ true)
      × All (λ v. before (key v) (key m) ≡ true) vs
      × IsVersion m
      × OneOf m (max ∷ vs)

  keeps :
      (max v m : Text) (vs : List Text)
      → before (key v) (key max) ≡ true
      → Greatest m max vs
      → Greatest m max (v ∷ vs)
  keeps max v m vs h (p, ps, w, inl e) =
      (p, (before_trans (key v) (key max) (key m) h p, ps), w, inl e)
  keeps max v m vs h (p, ps, w, inr o) =
      (p, (before_trans (key v) (key max) (key m) h p, ps), w, inr (inr o))

  moves :
      (max v m : Text) (vs : List Text)
      → before (key max) (key v) ≡ true
      → Greatest m v vs
      → Greatest m max (v ∷ vs)
  moves max v m vs h (p, ps, w, o) = (before_trans (key max) (key v) (key m) h p, (p, ps), w, inr o)

  reduce-Greatest :
      (max : Text) (vs : List Text)
      → IsVersion max
      → All IsVersion vs
      → Greatest (reduce_versions locale_compare max vs) max vs
  reduce-Greatest max [] h k = (before_refl (key max), tt, h, inl refl)
  reduce-Greatest max (v ∷ vs) h (k, ks) = elim (Bool-cases (before (key v) (key max))) [
    | inl old ↦
        let same : later locale_compare max v ≡ max = rw (
          not_positive (compare_versions locale_compare v max),
          compare-before locale_compare v max k h,
          old,
        ) in
        subst (λ t. Greatest (reduce_versions locale_compare t vs) max (v ∷ vs)) (sym same)
          (keeps max v _ vs old (reduce-Greatest max vs h ks))
    | inr new ↦
        let same : later locale_compare max v ≡ v = rw (
          not_positive (compare_versions locale_compare v max),
          compare-before locale_compare v max k h,
          new,
        ) in
        subst (λ t. Greatest (reduce_versions locale_compare t vs) max (v ∷ vs)) (sym same)
          (moves max v _ vs (other_way (key v) (key max) new) (reduce-Greatest v vs k ks))
  ]

  -- Every version on the page, an empty one included, is not after `m`.
  select_covers :
      (m : Text) (vs : List Text)
      → All (λ v. before (key v) (key m) ≡ true) (select (λ v. not (is_empty v)) vs)
      → All (λ v. before (key v) (key m) ≡ true) vs
  select_covers m [] h = tt
  select_covers m ([] ∷ vs) h = (empty_before (key m), select_covers m vs h)
  select_covers m ((c ∷ s) ∷ vs) (p, h) = (p, select_covers m vs h)

  select_versions :
      (vs : List Text) → All IsVersion vs → All IsVersion (select (λ v. not (is_empty v)) vs)
  select_versions [] h = tt
  select_versions ([] ∷ vs) (p, h) = select_versions vs h
  select_versions ((c ∷ s) ∷ vs) (p, h) = (p, select_versions vs h)

  select-OneOf :
      (m : Text) (vs : List Text) → OneOf m (select (λ v. not (is_empty v)) vs) → OneOf m vs
  select-OneOf m [] h = h
  select-OneOf m ([] ∷ vs) h = inr (select-OneOf m vs h)
  select-OneOf m ((c ∷ s) ∷ vs) (inl e) = inl e
  select-OneOf m ((c ∷ s) ∷ vs) (inr h) = inr (select-OneOf m vs h)

  to_compare :
      (m : Text) (vs : List Text)
      → IsVersion m
      → All IsVersion vs
      → All (λ v. before (key v) (key m) ≡ true) vs
      → All (λ v. leb_ℤ (compare_versions locale_compare v m) (pos 0) ≡ true) vs
  to_compare m [] w ws h = tt
  to_compare m (v ∷ vs) w (u, ws) (p, h) =
      (compare-before locale_compare v m u w ∙ p, to_compare m vs w ws h)

  chosen :
      (m : Text) (vs : List Text)
      → OneOf m ([] ∷ select (λ v. not (is_empty v)) vs)
      → (m ≡ []) ⊎ OneOf m vs
  chosen m vs (inl e) = inl e
  chosen m vs (inr o) = inr (select-OneOf m vs o)

  -- If the segments of every agent's version are whole numbers, no version is after the latest one,
  -- and the latest one is empty or the version of one of the agents.
  pub latest_version-Greatest :
      (agents : List Agent)
      → All IsVersion (map (λ a. a.version) agents)
      → All
          (λ v.
            leb_ℤ (compare_versions locale_compare v (latest_version locale_compare agents)) (pos 0)
            ≡ true)
          (map (λ a. a.version) agents)
        × ((latest_version locale_compare agents ≡ [])
            ⊎ OneOf (latest_version locale_compare agents) (map (λ a. a.version) agents))
  unfolding latest_version
  latest_version-Greatest agents h =
      let vs : List Text = map (λ a. a.version) agents in
      let ws : List Text = select (λ v. not (is_empty v)) vs in
      let m : Text = reduce_versions locale_compare [] ws in
      let g = reduce-Greatest [] ws nothing_IsVersion (select_versions vs h) in
      (to_compare m vs g.2 h (select_covers m vs g.1), chosen m vs g.3)
