-- ===== src/Console/Agents/Containers/Env.antt =====
-- The split of an environment line at its first `=`.
use native.Mathlib.Numerals.{add-one}
use mr1v.Base.{ℕ, suc, ◌≡◌, refl, false, none, some, [], ◌∷◌, ◌++◌, arith}
use mr1v.Js.Text.{Text, Lacks, has_char}
use mr1v.Console.Agents.Containers.{env_row, index_of, slice_to, slice_from}

index_of-none : (c : ℕ) (s : Text) → has_char c s ≡ false → index_of c s ≡ none
unfolding has_char
index_of-none c [] h = refl
index_of-none c (d ∷ s) h = ground (arith, index_of-none c s)

index_of-append :
    (c : ℕ) (s t : Text)
    → Lacks c s
    → (i : ℕ) × (index_of c (s ++ (c ∷ t)) ≡ some i)
      × (slice_to i (s ++ (c ∷ t)) ≡ s)
      × (slice_from (suc i) (s ++ (c ∷ t)) ≡ t)
index_of-append c [] t h = (0, ground arith, refl, refl)
index_of-append c (d ∷ s) t (p, h) =
    let (i, e, f, g) = index_of-append c s t h in (suc i, ground arith, rw f, g)

-- A line `key=value` is split at its first `=`, so that the value may hold more of them; a line
-- with none is all key.
pub env_row_lem :
    (name rest line : Text)
    → Lacks b'=' name
    → has_char b'=' line ≡ false
    → (env_row (name ++ (b'=' ∷ rest)) ≡ record { key = name; val = rest })
      × (env_row line ≡ record { key = line; val = [] })
unfolding env_row
env_row_lem name rest line h k =
    let (i, e, f, g) = index_of-append b'=' name rest h in
    (rw (env_row, e, f, add-one, g), rw (env_row, index_of-none b'=' line k))
