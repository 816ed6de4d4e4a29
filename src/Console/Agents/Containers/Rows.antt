-- ===== src/Console/Agents/Containers/Rows.antt =====
-- The expanded environment rows are exactly those that were toggled an odd number of times.
use mr1v.Base.{
  ◌≡◌, refl, ap, subst, ◌∙◌, Bool, true, false, not, none, List, [], ◌∷◌, arith, String, str_eq,
  eq_iff, if◌then◌else◌, Bool-cases, inl, inr,
}
use mr1v.Js.Dict.{get, put, has, get-put}
use mr1v.Console.Agents.Containers.{Expand, mounted, flag, is_open, toggle_env, open_keys}

-- A `Record` holds each key once.
abbrev pub Distinct : List (String × Bool) → Type 0
Distinct [] = Unit
Distinct ((k, v) ∷ d) = (get k d ≡ none) × Distinct d

put-Distinct :
    (k : String) (v : Bool) (d : List (String × Bool)) → Distinct d → Distinct (put k v d)
unfolding put get
put-Distinct k v [] h = (refl, tt)
put-Distinct k v ((j, w) ∷ d) (p, h) = elim (Bool-cases (str_eq j k)) [
  | inl same ↦ rw same (rw (← (eq_iff j k).0 same) p, h)
  | inr other ↦ rw other (rw get-put (ground (arith, eq_iff j k, eq_iff k j)), put-Distinct k v d h)
]

has-open_keys :
    (k : String) (d : List (String × Bool)) → Distinct d → has k (open_keys d) ≡ flag (get k d)
unfolding has open_keys get
has-open_keys k [] h = refl
has-open_keys k ((j, true) ∷ d) (p, h) = ground (arith, has-open_keys k d h, eq_iff j k)
has-open_keys k ((j, false) ∷ d) (p, h) = elim (Bool-cases (str_eq j k)) [
  | inl same ↦
      rw (same, has-open_keys k d h) (ap flag (subst (λ x. get x d ≡ none) ((eq_iff j k).0 same) p))
  | inr other ↦ rw other (has-open_keys k d h)
]

-- The clicks on the environment links, in their order.
abbrev pub toggle_all : List String → Expand → Expand
toggle_all [] s = s
toggle_all (id ∷ ids) s = toggle_all ids (toggle_env id s)

-- Whether `k` was clicked an odd number of times, on a row that is open or not at first.
abbrev pub after_clicks : String → List String → Bool → Bool
after_clicks k [] open_now = open_now
after_clicks k (id ∷ ids) open_now =
    after_clicks k ids (if str_eq id k then not open_now else open_now)

is_open-toggle_env :
    (id k : String) (s : Expand)
    → is_open k (toggle_env id s) ≡ (if str_eq id k then not (is_open k s) else is_open k s)
unfolding is_open toggle_env
is_open-toggle_env id k s = elim (Bool-cases (str_eq id k)) [
  | inl same ↦ rw (get-put, same) (rw ((eq_iff id k).0 same))
  | inr other ↦ rw (get-put, other)
]

is_open-toggle_all :
    (k : String) (ids : List String) (s : Expand)
    → is_open k (toggle_all ids s) ≡ after_clicks k ids (is_open k s)
is_open-toggle_all k [] s = refl
is_open-toggle_all k (id ∷ ids) s =
    is_open-toggle_all k ids (toggle_env id s) ∙ ap (after_clicks k ids) (is_open-toggle_env id k s)

toggle_all-Distinct :
    (ids : List String) (s : Expand)
    → Distinct s.expanded_env
    → Distinct (toggle_all ids s).expanded_env
unfolding toggle_env
toggle_all-Distinct [] s h = h
toggle_all-Distinct (id ∷ ids) s h =
    toggle_all-Distinct ids (toggle_env id s)
      (put-Distinct id (not (is_open id s)) s.expanded_env h)

-- After any clicks on the environment links, the table expands exactly the rows whose link was
-- clicked an odd number of times.
pub open_keys-toggle_all :
    (k : String) (ids : List String)
    → has k (open_keys (toggle_all ids mounted).expanded_env) ≡ after_clicks k ids false
unfolding is_open get
open_keys-toggle_all k ids =
    has-open_keys k (toggle_all ids mounted).expanded_env (toggle_all-Distinct ids mounted tt)
    ∙ is_open-toggle_all k ids mounted
