-- ===== src/Console/Matches/Rules.antt =====
-- pages/MatchesPage.tsx: the rules of a server, filtered by the search and sorted by name.
-- `locale_compare` stands for the host's `localeCompare`.
use mathlib.Core.List.{Perm}
use mathlib.Core.List.Perm
use mr1v.Base.{
  ◌≡◌, ◌⊎◌, inl, inr, Bool, true, ◌||◌, Bool-cases, List, [], ◌∷◌, select, All, arith,
  if◌then◌else◌,
}
use mr1v.Js.Num.{ℤ, pos, leb_ℤ}
use mr1v.Js.Text.{Text, is_empty, includes}

abbrev pub Rule : Type 0
Rule = Text × Text

-- The test of the filter: no search, or a search that the name or the value contains.
unfoldable pub is_found : Text → Rule → Bool
unfolding includes
is_found search (k, v) = is_empty search || includes k search || includes v search

module _ (locale_compare : Text → Text → ℤ) where
  abbrev pub not_after : Rule → Rule → Bool
  not_after (a, _) (b, _) = leb_ℤ (locale_compare a b) (pos 0)

  insert_rule : Rule → List Rule → List Rule
  insert_rule r [] = r ∷ []
  insert_rule r (x ∷ xs) = if not_after r x then r ∷ x ∷ xs else x ∷ insert_rule r xs

  -- The array's stable sort.
  unfoldable pub sort_rules : List Rule → List Rule
  unfolding insert_rule
  sort_rules [] = []
  sort_rules (x ∷ xs) = insert_rule x (sort_rules xs)

  unfoldable pub rule_entries : List Rule → Text → List Rule
  rule_entries rules search = sort_rules (select (is_found search) rules)

  insert_rule-perm : (r : Rule) (xs : List Rule) → Perm (insert_rule r xs) (r ∷ xs)
  unfolding insert_rule
  insert_rule-perm r [] = Perm.refl (r ∷ [])
  insert_rule-perm r (x ∷ xs) = elim (Bool-cases (not_after r x)) [
    | inl first ↦ rw first (Perm.refl (r ∷ x ∷ xs))
    | inr later ↦ rw later (Perm.trans (Perm.cons x (insert_rule-perm r xs)) (Perm.swap r x xs))
  ]

  sort_rules-perm : (xs : List Rule) → Perm (sort_rules xs) xs
  unfolding sort_rules
  sort_rules-perm [] = Perm.refl []
  sort_rules-perm (x ∷ xs) =
      Perm.trans (insert_rule-perm x (sort_rules xs)) (Perm.cons x (sort_rules-perm xs))

  -- No rule stands behind one that it should precede.
  abbrev pub IsSorted : List Rule → Type 0
  IsSorted [] = Unit
  IsSorted (x ∷ xs) = All (λ y. not_after x y ≡ true) xs × IsSorted xs

  module _ (total : (a b : Rule) → (not_after a b ≡ true) ⊎ (not_after b a ≡ true))
      (trans : (a b c : Rule)
        → not_after a b ≡ true
        → not_after b c ≡ true
        → not_after a c ≡ true) where
    All-after :
        (r x : Rule) (xs : List Rule)
        → not_after r x ≡ true
        → All (λ y. not_after x y ≡ true) xs
        → All (λ y. not_after r y ≡ true) xs
    All-after r x [] h k = tt
    All-after r x (y ∷ ys) h (k, ks) = (trans r x y h k, All-after r x ys h ks)

    insert-All :
        (p r : Rule) (xs : List Rule)
        → not_after p r ≡ true
        → All (λ y. not_after p y ≡ true) xs
        → All (λ y. not_after p y ≡ true) (insert_rule r xs)
    unfolding insert_rule
    insert-All p r [] h k = (h, tt)
    insert-All p r (x ∷ xs) h (k, ks) = elim (Bool-cases (not_after r x)) [
      | inl first ↦ rw first (h, (k, ks))
      | inr later ↦ rw later (k, insert-All p r xs h ks)
    ]

    insert-IsSorted : (r : Rule) (xs : List Rule) → IsSorted xs → IsSorted (insert_rule r xs)
    unfolding insert_rule
    insert-IsSorted r [] h = (tt, tt)
    insert-IsSorted r (x ∷ xs) (h, hs) = elim (Bool-cases (not_after r x)) [
      | inl first ↦ rw first ((first, All-after r x xs first h), (h, hs))
      | inr later ↦
          rw later (insert-All x r xs (ground (arith, total r x)) h, insert-IsSorted r xs hs)
    ]

    sort-IsSorted : (xs : List Rule) → IsSorted (sort_rules xs)
    unfolding sort_rules
    sort-IsSorted [] = tt
    sort-IsSorted (x ∷ xs) = insert-IsSorted x (sort_rules xs) (sort-IsSorted xs)

    -- If the host's comparison is a total preorder on names, the table of rules is in order, and its
    -- rows are the server's rules that the search finds, each as often as the server gave it.
    pub rule_entries-IsSorted :
        (rules : List Rule) (search : Text)
        → IsSorted (rule_entries rules search)
          × Perm (rule_entries rules search) (select (is_found search) rules)
    unfolding rule_entries
    rule_entries-IsSorted rules search = (
      sort-IsSorted (select (is_found search) rules),
      sort_rules-perm (select (is_found search) rules),
    )
