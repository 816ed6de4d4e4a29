-- ===== src/Server/Maps/Off/Never.antt =====
-- internal/backend/backend.go, pickRandomMap: the random map of a match is never a disabled one.
use mr1v.Base.{
  ℕ, ◌≤◌, ◌≡◌, ◌≢◌, refl, sym, ap, ◌∙◌, Bool, true, false, not, ◌&&◌, ◌||◌, some, some_inj, List,
  [], ◌∷◌, All, str_eq, eq_iff, ◌==◌, true≢false, select, In-select, In-find_first, All-lookup,
  find_first-test, ==_iff, find_first, Bool-cases, Option-cases, inl, inr, arith,
}
use mr1v.Js.Dict.{str_eq_refl}
use mr1v.Server.Rooms.{update_where, affects}
use mr1v.Server.Rows.{tally, tally-none}
use mr1v.Server.Maps.{
  MapRow, Pool, has_id, handle_update_map, RandomRow, pick_random_map, Change, change_all,
}
use mr1v.Server.Maps.Valid.{Named, IsValid, empty_pool, change_all-IsValid, empty-IsValid}
use mr1v.Server.Maps.Off.{keeps_off, same_map, off, IsOff, change_all-IsOff}

module _ (r : MapRow) where
  abbrev alone : MapRow → Bool
  alone q = not (same_map r q) || q.id == r.id

  tally-alone : (rows : List MapRow) → tally (same_map r) rows ≡ 0 → All (λ q. alone q ≡ true) rows
  tally-alone [] e = tt
  tally-alone (q ∷ rows) e = (ground arith, tally-alone rows (ground arith))

  -- The row with an id is the only one of its map.
  find_first-alone :
      (id : ℕ) (rows : List MapRow)
      → find_first (has_id id) rows ≡ some r
      → tally (same_map r) rows ≤ 1
      → All (λ q. alone q ≡ true) rows × (tally (same_map r) rows ≡ 1)
  find_first-alone id [] e one = cc
  find_first-alone id (q ∷ rows) e one = elim (Bool-cases (has_id id q)) [
    | inl hit ↦
        let same : some q ≡ some r = rw hit at e in
        let own : same_map r r ≡ true = rw (str_eq_refl r.category, str_eq_refl r.map_name) refl in
        let mine : same_map r q ≡ true = rw (some_inj.0 same) own in
        let none_left : tally (same_map r) rows ≡ 0 = ground (arith, mine, one) in
        let named : q.id ≡ r.id = ap (λ (x : MapRow). x.id) (some_inj.0 same) in
        ((ground (arith, named), tally-alone rows none_left), ground (arith, mine, none_left))
    | inr miss ↦
        let (all, n) = find_first-alone id rows (rw miss at e) (omega (arith, one)) in
        ((ground (arith, n, one), all), ground (arith, n, one))
  ]

  disable-IsOff :
      (id : ℕ) (rows : List MapRow)
      → r.id ≡ id
      → All (λ q. alone q ≡ true) rows
      → All
          (λ q. off r q ≡ true)
          (update_where (has_id id) (λ (q : MapRow). record q { enabled = false }) rows)
        × (affects
              (same_map r)
              (update_where (has_id id) (λ (q : MapRow). record q { enabled = false }) rows)
            ≡ affects (same_map r) rows)
  disable-IsOff id [] e h = (tt, refl)
  disable-IsOff id (q ∷ rows) e (a, h) =
      let (all, found) = disable-IsOff id rows e h in
      elim (Bool-cases (has_id id q)) [
        | inl hit ↦ rw hit ((ground (arith, hit, a, e), all), ground (arith, found))
        | inr miss ↦ rw miss ((ground (arith, miss, a, e), all), ground (arith, found))
      ]

  -- The pool right after the console has disabled the row.
  handle_update_map-IsOff :
      (id : ℕ) (p : Pool)
      → find_first (has_id id) p.rows ≡ some r
      → IsValid r.category r.map_name p
      → IsOff r (handle_update_map true (some id) (some false) p).1.rows
  unfolding handle_update_map
  handle_update_map-IsOff id p e (h, one) =
      let (all, n) = find_first-alone id p.rows e one in
      let own : has_id id r ≡ true = find_first-test (has_id id) p.rows r e in
      let (offs, found) = disable-IsOff id p.rows ((==_iff r.id id).0 own) all in
      let there : affects (same_map r) p.rows ≡ true =
        elim (Bool-cases (affects (same_map r) p.rows)) [
          | inl found ↦ found
          | inr gone ↦ absurd (ground (arith, n, tally-none (same_map r) p.rows gone))
        ] in
      (offs, found ∙ there)

  nameless : Named r → "" ≡ r.map_name → ⊥
  nameless named e = true≢false (sym ((eq_iff r.map_name "").1 (sym e)) ∙ named)

  IsOff-pick :
      (random : RandomRow) (p : Pool)
      → Named r
      → IsOff r p.rows
      → pick_random_map random r.category p ≢ r.map_name
  unfolding pick_random_map
  IsOff-pick random p named (h, there) e = elim (Bool-cases (str_eq r.category "")) [
    | inl blank ↦ nameless named (rw blank at e)
    | inr given ↦
        let test : MapRow → Bool = λ q. str_eq q.category r.category && q.enabled in
        elim (Option-cases (random.pick (select test p.rows))) [
          | inl gone ↦ nameless named (rw (given, gone) at e)
          | inr (q, found) ↦
              let (i, t) = In-select test q p.rows (random.pick-In (select test p.rows) q found) in
              let same : q.map_name ≡ r.map_name = rw (given, found) at e in
              absurd (
                ground (
                  arith,
                  t,
                  All-lookup (λ x. off r x ≡ true) q p.rows h i,
                  (eq_iff q.map_name r.map_name).1 same,
                ))
        ]
  ]

-- A map that the console has disabled is the random map of no match, as long as the console does not
-- enable it, add it again or delete it, whatever else changes and however often the backend restarts.
pub handle_update_map-pick_random_map :
    (random : RandomRow) (before later : List Change) (id : ℕ) (r : MapRow)
    → find_first (has_id id) (change_all before empty_pool).rows ≡ some r
    → All (λ c. keeps_off r c ≡ true) later
    → let off = (handle_update_map true (some id) (some false) (change_all before empty_pool)).1 in
      pick_random_map random r.category (change_all later off) ≢ r.map_name
handle_update_map-pick_random_map random before later id r e alone =
    let p = change_all before empty_pool in
    let valid =
      change_all-IsValid r.category r.map_name before empty_pool
        (empty-IsValid r.category r.map_name) in
    let off = (handle_update_map true (some id) (some false) p).1 in
    IsOff-pick r random (change_all later off)
      (All-lookup Named r p.rows valid.0 (In-find_first (has_id id) r p.rows e))
      (change_all-IsOff r later off alone (handle_update_map-IsOff r id p e valid))
