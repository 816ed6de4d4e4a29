-- ===== src/Server/Maps/Valid.antt =====
-- internal/backend/backend.go: no map of the pool is nameless, and none stands twice in a category.
use mr1v.Base.{
  ◌≤◌, ◌≡◌, refl, true, false, not, none, some, List, [], ◌∷◌, All, String, str_eq, eq_iff,
  Bool-cases, inl, inr, ◌⊎◌, arith,
}
use mr1v.Server.Rooms.{affects}
use mr1v.Server.Rows.{
  tally, tally-none, tally-select, All-select, All-update_where, tally-update_where,
}
use mr1v.Server.Maps.{
  MapRow, Pool, is_map, has_id, insert, default_maps, seed_maps, seed_default_maps,
  handle_create_map, handle_update_map, handle_delete_map, Change, creates, updates, deletes,
  restarts, change, change_all,
}

abbrev pub Named : MapRow → Type 0
Named r = str_eq r.map_name "" ≡ false

abbrev pub empty_pool : Pool
empty_pool = record { next_id = 1; rows = [] }

module _ (category name : String) where
  abbrev pub IsValid : Pool → Type 0
  IsValid p = All Named p.rows × (tally (is_map category name) p.rows ≤ 1)

  insert-IsValid :
      (f : MapRow → MapRow) (c n : String) (p : Pool)
      → ((r : MapRow) → (f r).map_name ≡ r.map_name)
      → ((r : MapRow) → is_map category name (f r) ≡ is_map category name r)
      → str_eq n "" ≡ false
      → IsValid p
      → IsValid (insert f c n p)
  insert-IsValid f c n p same key proper (h, one) =
      elim (Bool-cases (affects (is_map c n) p.rows)) [
        | inl e ↦ rw e (
          All-update_where (is_map c n) f Named (λ q hit named. rw (same q) named) p.rows h,
          omega (arith, one, tally-update_where (is_map c n) f (is_map category name) key p.rows),
        )
        | inr e ↦ rw e (
          (proper, h),
          elim (Bool-cases (str_eq c category)) [
            | inl same_category ↦ elim (Bool-cases (str_eq n name)) [
              | inl same_name ↦
                  let free : affects (is_map category name) p.rows ≡ false =
                    rw (← (eq_iff c category).0 same_category, ← (eq_iff n name).0 same_name) e in
                  rw (same_category, same_name)
                    (omega (arith, tally-none (is_map category name) p.rows free))
              | inr other ↦ rw (same_category, other) (omega (arith, one))
            ]
            | inr other ↦ rw other (omega (arith, one))
          ],
        )
      ]

  -- Every name that is seeded is proper.
  seed_maps-IsValid :
      (maps : List (String × String)) (p : Pool)
      → All (λ m. str_eq m.1 "" ≡ false) maps
      → IsValid p
      → IsValid (seed_maps maps p)
  unfolding seed_maps
  seed_maps-IsValid [] p proper w = w
  seed_maps-IsValid ((c, n) ∷ maps) p (m, proper) w =
      seed_maps-IsValid maps (insert (λ r. r) c n p) proper
        (insert-IsValid (λ r. r) c n p (λ r. refl) (λ r. refl) m w)

  either-IsValid : (xs ys p : Pool) → (xs ≡ p) ⊎ (xs ≡ ys) → IsValid p → IsValid ys → IsValid xs
  either-IsValid xs ys p (inl e) w v = rw e w
  either-IsValid xs ys p (inr e) w v = rw e v

  change-IsValid : (c : Change) (p : Pool) → IsValid p → IsValid (change c p)
  unfolding change handle_create_map handle_update_map handle_delete_map seed_default_maps
  change-IsValid (creates ok none) p w = w
  change-IsValid (creates ok (some (c, n))) p w = elim (Bool-cases (str_eq n "")) [
    | inl e ↦ either-IsValid (handle_create_map ok (some (c, n)) p).1 p p (ground (arith, e)) w w
    | inr e ↦
        either-IsValid (handle_create_map ok (some (c, n)) p).1
          (insert (λ r. record r { enabled = true }) c n p) p (ground (arith, e)) w
          (insert-IsValid (λ r. record r { enabled = true }) c n p (λ r. refl) (λ r. refl) e w)
  ]
  change-IsValid (updates ok none enabled) p w = w
  change-IsValid (updates ok (some id) none) p w = w
  change-IsValid (updates true (some id) (some enabled)) p (h, one) = (
    All-update_where (has_id id) (λ r. record r { enabled = enabled }) Named (λ q hit named. named)
        p.rows h,
    omega (
      arith,
      one,
      tally-update_where (has_id id) (λ r. record r { enabled = enabled }) (is_map category name)
          (λ r. refl) p.rows,
    ),
  )
  change-IsValid (updates false (some id) (some enabled)) p w = w
  change-IsValid (deletes ok none) p w = w
  change-IsValid (deletes true (some id)) p (h, one) = (
    All-select Named (λ r. not (has_id id r)) p.rows h,
    omega (arith, one, tally-select (is_map category name) (λ r. not (has_id id r)) p.rows),
  )
  change-IsValid (deletes false (some id)) p w = w
  change-IsValid restarts p w =
      seed_maps-IsValid default_maps p
        (refl, (refl, (refl, (refl, (refl, (refl, (refl, (refl, tt)))))))) w

  pub change_all-IsValid :
      (changes : List Change) (p : Pool) → IsValid p → IsValid (change_all changes p)
  unfolding change_all
  change_all-IsValid [] p w = w
  change_all-IsValid (c ∷ rest) p w = change_all-IsValid rest (change c p) (change-IsValid c p w)

  pub empty-IsValid : IsValid empty_pool
  empty-IsValid = (tt, omega arith)
