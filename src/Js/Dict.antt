-- ===== src/Js/Dict.antt =====
-- JavaScript's `Record<string, V>` and `Set<string>` over texts that are only compared, as an
-- association list without repeated keys and as a list.
use mr1v.Base.{
  ◌≡◌, refl, Bool, true, false, ◌||◌, Option, none, some, List, [], ◌∷◌, arith, Bool-cases, inl,
  inr, String, str_eq, eq_iff, if◌then◌else◌,
}

module _ {ℓ} {V : Type ℓ} where
  -- `d[key]`.
  unfoldable pub get : String → List (String × V) → Option V
  get key [] = none
  get key ((k, v) ∷ d) = if str_eq k key then some v else get key d

  -- `{ ...d, [key]: v }`: a key that is there keeps its place.
  unfoldable pub put : String → V → List (String × V) → List (String × V)
  put key v [] = (key, v) ∷ []
  put key v ((k, w) ∷ d) = if str_eq k key then (key, v) ∷ d else (k, w) ∷ put key v d

  -- `delete d[key]`.
  unfoldable pub drop_key : String → List (String × V) → List (String × V)
  drop_key key [] = []
  drop_key key ((k, v) ∷ d) = if str_eq k key then drop_key key d else (k, v) ∷ drop_key key d

  pub get-put :
      (key k : String) (v : V) (d : List (String × V))
      → get k (put key v d) ≡ (if str_eq key k then some v else get k d)
  unfolding get put
  get-put key k v [] = refl
  get-put key k v ((j, w) ∷ d) =
      ground (arith, eq_iff key k, eq_iff j key, eq_iff j k, get-put key k v d)

  pub get-drop_key :
      (key k : String) (d : List (String × V))
      → get k (drop_key key d) ≡ (if str_eq key k then none else get k d)
  unfolding get drop_key
  get-drop_key key k [] = ground arith
  get-drop_key key k ((j, w) ∷ d) =
      ground (arith, eq_iff key k, eq_iff j key, eq_iff j k, get-drop_key key k d)

-- `s.has(x)`.
unfoldable pub has : String → List String → Bool
has x [] = false
has x (y ∷ s) = str_eq y x || has x s

-- `new Set(s).add(x)`.
unfoldable pub add : String → List String → List String
unfolding has
add x s = if has x s then s else x ∷ s

-- `new Set(s)` without `x`.
unfoldable pub discard : String → List String → List String
discard x [] = []
discard x (y ∷ s) = if str_eq y x then discard x s else y ∷ discard x s

pub str_eq_refl : (x : String) → str_eq x x ≡ true
str_eq_refl x = (eq_iff x x).1 refl

pub has-add : (x y : String) (s : List String) → has y (add x s) ≡ (str_eq x y || has y s)
unfolding has add
has-add x y s = elim (Bool-cases (str_eq x y)) [
  | inl same ↦ ground (arith, eq_iff x y)
  | inr other ↦ ground arith
]

pub has-discard :
    (x y : String) (s : List String) → has y (discard x s) ≡ (if str_eq x y then false else has y s)
unfolding has discard
has-discard x y [] = ground arith
has-discard x y (z ∷ s) = ground (arith, eq_iff x y, eq_iff z x, eq_iff z y, has-discard x y s)
