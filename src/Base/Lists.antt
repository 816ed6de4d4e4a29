-- ===== src/Base/Lists.antt =====
-- Lists over the native numbers and Boolean tests.
use Prim.Native.Nat.{ℕ, zero, suc, ◌+◌}
use mathlib.Core.Path.{◌≡◌, refl, sym, subst}
use mathlib.Core.Bool.{Bool, true}
use mathlib.Core.Logic.{◌⊎◌, inl, inr}
use mathlib.Core.Option.{Option, none, some, some_inj}
use mathlib.Core.List.{List, [], ◌∷◌, ◌++◌}
use native.Mathlib.Omega.{arith}
use mr1v.Base.Tests.{Bool-cases, none≢some, if◌then◌else◌}

module _ {ℓ} {A : Type ℓ} where
  abbrev pub length : List A → ℕ
  length [] = 0
  length (x ∷ xs) = suc (length xs)

  abbrev pub get_elem? : List A → ℕ → Option A
  get_elem? [] i = none
  get_elem? (x ∷ xs) zero = some x
  get_elem? (x ∷ xs) (suc i) = get_elem? xs i

  -- The elements that pass a Boolean test, JavaScript's `filter`.
  abbrev pub select : (A → Bool) → List A → List A
  select p [] = []
  select p (x ∷ xs) = if p x then x ∷ select p xs else select p xs

  -- The first element that passes, JavaScript's `find`.
  abbrev pub find_first : (A → Bool) → List A → Option A
  find_first p [] = none
  find_first p (x ∷ xs) = if p x then some x else find_first p xs

  pub length-append : (xs ys : List A) → length (xs ++ ys) ≡ length xs + length ys
  length-append [] ys = omega arith
  length-append (x ∷ xs) ys = omega (arith, length-append xs ys)

module _ {ℓ κ} {A : Type ℓ} (P : A → Type κ) where
  abbrev pub All : List A → Type κ
  All [] = Unit
  All (x ∷ xs) = P x × All xs

  pub All-append : (xs ys : List A) → All xs → All ys → All (xs ++ ys)
  All-append [] ys hx hy = hy
  All-append (x ∷ xs) ys (px, hx) hy = (px, All-append xs ys hx hy)

module _ {A : Type 0} where
  -- `x` stands in the list.
  abbrev pub In : A → List A → Type 0
  In x [] = ⊥
  In x (y ∷ ys) = (x ≡ y) ⊎ In x ys

  pub All-In : (P : A → Type 0) (xs : List A) → ((x : A) → In x xs → P x) → All P xs
  All-In P [] h = tt
  All-In P (x ∷ xs) h = (h x (inl refl), All-In P xs (λ y i. h y (inr i)))

  In-select_hit :
      (p : A → Bool) (x y : A) (ys : List A)
      → p y ≡ true
      → (x ≡ y) ⊎ In x (select p ys)
      → (In x (select p ys) → In x ys × (p x ≡ true))
      → In x (y ∷ ys) × (p x ≡ true)
  In-select_hit p x y ys hit (inl e) ih = (inl e, rw e hit)
  In-select_hit p x y ys hit (inr i) ih = let (j, e) = ih i in (inr j, e)

  -- What `select` keeps stands in the list and passes the test.
  pub In-select : (p : A → Bool) (x : A) (xs : List A) → In x (select p xs) → In x xs × (p x ≡ true)
  In-select p x [] i = absurd i
  In-select p x (y ∷ ys) i = elim (Bool-cases (p y)) [
    | inl hit ↦ In-select_hit p x y ys hit (rw hit at i) (In-select p x ys)
    | inr miss ↦ let (j, e) = In-select p x ys (rw miss at i) in (inr j, e)
  ]

  pub All-lookup : (P : A → Type 0) (x : A) (xs : List A) → All P xs → In x xs → P x
  All-lookup P x [] h i = absurd i
  All-lookup P x (y ∷ ys) (p, h) (inl e) = subst P (sym e) p
  All-lookup P x (y ∷ ys) (p, h) (inr i) = All-lookup P x ys h i

  pub In-find_first : (p : A → Bool) (x : A) (xs : List A) → find_first p xs ≡ some x → In x xs
  In-find_first p x [] e = absurd (none≢some e)
  In-find_first p x (y ∷ ys) e = elim (Bool-cases (p y)) [
    | inl hit ↦ let same : some y ≡ some x = rw hit at e in inl (sym (some_inj.0 same))
    | inr miss ↦ inr (In-find_first p x ys (rw miss at e))
  ]

  pub find_first-test : (p : A → Bool) (xs : List A) (x : A) → find_first p xs ≡ some x → p x ≡ true
  find_first-test p [] x e = absurd (none≢some e)
  find_first-test p (y ∷ ys) x e = elim (Bool-cases (p y)) [
    | inl hit ↦
        let same : some y ≡ some x = rw hit at e in subst (λ z. p z ≡ true) (some_inj.0 same) hit
    | inr miss ↦ find_first-test p ys x (rw miss at e)
  ]
