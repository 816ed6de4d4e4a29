-- ===== src/Server/Maps/Off.antt =====
-- internal/backend/backend.go: a map that the console has disabled.
pub mod Never
use mr1v.Base.{
  ℕ, ◌+◌, ◌≤◌, ◌≡◌, ◌≢◌, ◌⊎◌, refl, sym, ap, ◌∙◌, Bool, true, false, not, ◌&&◌, ◌||◌, Option, none,
  some, some_inj, List, [], ◌∷◌, In, All, String, str_eq, eq_iff, ◌==◌, true≢false, select,
  In-select, In-find_first, All-lookup, find_first-test, ==_iff, find_first, Bool-cases,
  Option-cases, inl, inr, if◌then◌else◌, arith,
}
use mr1v.Js.Dict.{str_eq_refl}
use mr1v.Server.Rooms.{update_where, affects}
use mr1v.Server.Maps.{
  MapRow, Pool, is_map, has_id, insert, default_maps, seed_maps, seed_default_maps,
  handle_create_map, handle_update_map, handle_delete_map, RandomRow, name_of, pick_random_map,
  Change, creates, updates, deletes, restarts, change, change_all,
}

-- The console does not enable the row, nor add the map again, nor delete the row.
abbrev pub keeps_off : MapRow → Change → Bool
keeps_off r (creates ok (some (category, name))) = not (is_map category name r)
keeps_off r (updates ok (some id) (some enabled)) = not (has_id id r && enabled)
keeps_off r (deletes ok (some id)) = not (has_id id r)
keeps_off r _ = true

module _ (r : MapRow) where
  abbrev pub same_map : MapRow → Bool
  same_map q = is_map r.category r.map_name q

  -- The map is in the pool, under the id of the row alone, and disabled.
  abbrev pub off : MapRow → Bool
  off q = not (same_map q) || (q.id == r.id && not q.enabled)

  abbrev pub IsOff : List MapRow → Type 0
  IsOff rows = All (λ q. off q ≡ true) rows × (affects same_map rows ≡ true)

  update_where-IsOff :
      (test : MapRow → Bool) (f : MapRow → MapRow)
      → ((q : MapRow) → test q ≡ true → off q ≡ true → off (f q) ≡ true)
      → ((q : MapRow) → same_map (f q) ≡ same_map q)
      → (rows : List MapRow) → All (λ q. off q ≡ true) rows
      → All (λ q. off q ≡ true) (update_where test f rows)
        × (affects same_map (update_where test f rows) ≡ affects same_map rows)
  update_where-IsOff test f keep same [] h = (tt, refl)
  update_where-IsOff test f keep same (q ∷ rows) (o, h) =
      let (all, found) = update_where-IsOff test f keep same rows h in
      elim (Bool-cases (test q)) [
        | inl e ↦ rw e ((keep q e o, all), ground (arith, same q, found))
        | inr e ↦ rw e ((o, all), ground (arith, found))
      ]

  -- A map that is not there is another one.
  added-off :
      (c n : String) (p : Pool)
      → affects same_map p.rows ≡ true
      → affects (is_map c n) p.rows ≡ false
      → off (record { id = p.next_id; category = c; map_name = n; enabled = true }) ≡ true
  added-off c n p there e = elim (Bool-cases (str_eq c r.category)) [
    | inl same_category ↦ elim (Bool-cases (str_eq n r.map_name)) [
      | inl same_name ↦
          let gone : affects same_map p.rows ≡ false =
            rw (← (eq_iff c r.category).0 same_category, ← (eq_iff n r.map_name).0 same_name) e in
          absurd (true≢false (sym there ∙ gone))
      | inr other ↦ ground (arith, other)
    ]
    | inr other ↦ ground (arith, other)
  ]

  insert-IsOff :
      (f : MapRow → MapRow) (c n : String) (p : Pool)
      → ((q : MapRow) → is_map c n q ≡ true → off q ≡ true → off (f q) ≡ true)
      → ((q : MapRow) → same_map (f q) ≡ same_map q)
      → IsOff p.rows
      → IsOff (insert f c n p).rows
  insert-IsOff f c n p keep same (h, there) = elim (Bool-cases (affects (is_map c n) p.rows)) [
    | inl e ↦
        let (all, found) = update_where-IsOff (is_map c n) f keep same p.rows h in
        rw e (all, found ∙ there)
    | inr e ↦ rw e ((added-off c n p there e, h), ground (arith, there))
  ]

  select-IsOff :
      (id : ℕ) (rows : List MapRow)
      → has_id id r ≡ false
      → All (λ q. off q ≡ true) rows
      → All (λ q. off q ≡ true) (select (λ q. not (has_id id q)) rows)
        × (affects same_map (select (λ q. not (has_id id q)) rows) ≡ affects same_map rows)
  select-IsOff id [] other h = (tt, refl)
  select-IsOff id (q ∷ rows) other (o, h) =
      let (all, found) = select-IsOff id rows other h in
      elim (Bool-cases (has_id id q)) [
        | inl e ↦ rw e (all, ground (arith, found, o, e, other))
        | inr e ↦ rw e ((o, all), ground (arith, found))
      ]

  seed_maps-IsOff :
      (maps : List (String × String)) (p : Pool) → IsOff p.rows → IsOff (seed_maps maps p).rows
  unfolding seed_maps
  seed_maps-IsOff [] p w = w
  seed_maps-IsOff ((c, n) ∷ maps) p w =
      seed_maps-IsOff maps (insert (λ r. r) c n p)
        (insert-IsOff (λ r. r) c n p (λ q hit o. o) (λ q. refl) w)

  either-IsOff :
      (xs ys p : Pool) → (xs ≡ p) ⊎ (xs ≡ ys) → IsOff p.rows → IsOff ys.rows → IsOff xs.rows
  either-IsOff xs ys p (inl e) w v = rw e w
  either-IsOff xs ys p (inr e) w v = rw e v

  added_again-off :
      (c n : String) (q : MapRow)
      → is_map c n r ≡ false
      → is_map c n q ≡ true
      → off (record q { enabled = true }) ≡ true
  added_again-off c n q other hit = ground (
    arith,
    hit,
    other,
    eq_iff q.category c,
    eq_iff r.category c,
    eq_iff q.category r.category,
    eq_iff q.map_name n,
    eq_iff r.map_name n,
    eq_iff q.map_name r.map_name,
  )

  create-IsOff :
      (ok : Bool) (c n : String) (p : Pool)
      → is_map c n r ≡ false
      → IsOff p.rows
      → IsOff (handle_create_map ok (some (c, n)) p).1.rows
  unfolding handle_create_map
  create-IsOff ok c n p other w =
      let f : MapRow → MapRow = λ q. record q { enabled = true } in
      either-IsOff (handle_create_map ok (some (c, n)) p).1 (insert f c n p) p (ground arith) w
        (insert-IsOff f c n p (λ q hit o. added_again-off c n q other hit) (λ q. refl) w)

  update-IsOff :
      (ok : Bool) (id : ℕ) (enabled : Bool) (p : Pool)
      → (has_id id r && enabled) ≡ false
      → IsOff p.rows
      → IsOff (handle_update_map ok (some id) (some enabled) p).1.rows
  unfolding handle_update_map
  update-IsOff false id enabled p other w = w
  update-IsOff true id enabled p other (h, there) =
      let (all, found) =
        update_where-IsOff (has_id id) (λ q. record q { enabled = enabled })
          (λ q hit o. ground (arith, hit, o, other)) (λ q. refl) p.rows h in
      (all, found ∙ there)

  delete-IsOff :
      (ok : Bool) (id : ℕ) (p : Pool)
      → has_id id r ≡ false
      → IsOff p.rows
      → IsOff (handle_delete_map ok (some id) p).1.rows
  unfolding handle_delete_map
  delete-IsOff false id p other w = w
  delete-IsOff true id p other (h, there) =
      let (all, found) = select-IsOff id p.rows other h in (all, found ∙ there)

  change-IsOff :
      (c : Change) (p : Pool) → keeps_off r c ≡ true → IsOff p.rows → IsOff (change c p).rows
  unfolding change handle_create_map handle_update_map handle_delete_map seed_default_maps
  change-IsOff (creates ok none) p alone w = w
  change-IsOff (creates ok (some (c, n))) p alone w =
      create-IsOff ok c n p (ground (arith, alone)) w
  change-IsOff (updates ok none enabled) p alone w = w
  change-IsOff (updates ok (some id) none) p alone w = w
  change-IsOff (updates ok (some id) (some enabled)) p alone w =
      update-IsOff ok id enabled p (ground (arith, alone)) w
  change-IsOff (deletes ok none) p alone w = w
  change-IsOff (deletes ok (some id)) p alone w = delete-IsOff ok id p (ground (arith, alone)) w
  change-IsOff restarts p alone w = seed_maps-IsOff default_maps p w

  pub change_all-IsOff :
      (changes : List Change) (p : Pool)
      → All (λ c. keeps_off r c ≡ true) changes
      → IsOff p.rows
      → IsOff (change_all changes p).rows
  unfolding change_all
  change_all-IsOff [] p alone w = w
  change_all-IsOff (c ∷ rest) p (a, alone) w =
      change_all-IsOff rest (change c p) alone (change-IsOff c p a w)
