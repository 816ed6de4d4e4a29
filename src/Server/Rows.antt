-- ===== src/Server/Rows.antt =====
-- Rows of a table under the statements `UPDATE … WHERE` and `DELETE … WHERE`, whatever the rows are.
use mr1v.Base.{
  ℕ, ◌+◌, ◌≤◌, ◌≡◌, refl, subst, String, str_eq, eq_iff, Bool, true, false, List, [], ◌∷◌, All,
  select, Bool-cases, inl, inr, if◌then◌else◌, arith,
}
use mr1v.Server.Rooms.{update_where, affects}

module _ {A : Type 0} where
  -- How many rows pass.
  abbrev pub tally : (A → Bool) → List A → ℕ
  tally p [] = 0
  tally p (a ∷ rows) = (if p a then 1 else 0) + tally p rows

  pub tally-none : (p : A → Bool) (rows : List A) → affects p rows ≡ false → tally p rows ≡ 0
  tally-none p [] h = refl
  tally-none p (a ∷ rows) h = ground (arith, tally-none p rows)

  -- A key that no row has is one row's after an insert.
  pub tally-insert :
      (p : String → A → Bool) (o k : String) (rows : List A)
      → affects (p o) rows ≡ false
      → tally (p k) rows ≤ 1
      → (if str_eq o k then 1 else 0) + tally (p k) rows ≤ 1
  tally-insert p o k rows fresh one = elim (Bool-cases (str_eq o k)) [
    | inl e ↦
        let free : affects (p k) rows ≡ false =
          subst (λ x. affects (p x) rows ≡ false) ((eq_iff o k).0 e) fresh in
        rw e (omega (arith, tally-none (p k) rows free))
    | inr e ↦ rw e (omega (arith, one))
  ]

  pub tally-select : (p test : A → Bool) (rows : List A) → tally p (select test rows) ≤ tally p rows
  tally-select p test [] = omega arith
  tally-select p test (a ∷ rows) = ground (arith, tally-select p test rows)

  pub All-select :
      (P : A → Type 0) (test : A → Bool) (rows : List A) → All P rows → All P (select test rows)
  All-select P test [] h = tt
  All-select P test (a ∷ rows) (p, h) = elim (Bool-cases (test a)) [
    | inl e ↦ rw e (p, All-select P test rows h)
    | inr e ↦ rw e (All-select P test rows h)
  ]

  module _ (test : A → Bool) (f : A → A) where
    pub All-update_where :
        (P : A → Type 0)
        → ((a : A) → test a ≡ true → P a → P (f a))
        → (rows : List A) → All P rows
        → All P (update_where test f rows)
    All-update_where P keep [] h = tt
    All-update_where P keep (a ∷ rows) (p, h) = elim (Bool-cases (test a)) [
      | inl e ↦ rw e (keep a e p, All-update_where P keep rows h)
      | inr e ↦ rw e (p, All-update_where P keep rows h)
    ]

    -- An update of columns that the test does not read.
    pub affects-update_where :
        (p : A → Bool)
        → ((a : A) → p (f a) ≡ p a)
        → (rows : List A) → affects p (update_where test f rows) ≡ affects p rows
    affects-update_where p same [] = refl
    affects-update_where p same (a ∷ rows) =
        ground (arith, same a, affects-update_where p same rows)

    pub tally-update_where :
        (p : A → Bool)
        → ((a : A) → p (f a) ≡ p a)
        → (rows : List A) → tally p (update_where test f rows) ≡ tally p rows
    tally-update_where p same [] = refl
    tally-update_where p same (a ∷ rows) = ground (arith, same a, tally-update_where p same rows)

    pub update_where-none :
        (rows : List A) → affects test rows ≡ false → update_where test f rows ≡ rows
    update_where-none [] h = refl
    update_where-none (a ∷ rows) h = ground (arith, update_where-none rows)
