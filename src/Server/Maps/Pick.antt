-- ===== src/Server/Maps/Pick.antt =====
-- internal/backend/backend.go, pickRandomMap, and internal/wxserver/handlers/maps.go: the map of a match
-- for which none was asked is one that the mini program offers.
use mr1v.Base.{
  ◌≡◌, ◌↔◌, ◌⊎◌, refl, sym, ap, subst, ◌∙◌, false, ◌&&◌, List, [], ◌∷◌, In, map, All, String,
  str_eq, eq_iff, true≢false, select, All-lookup, Bool-cases, Option-cases, inl, inr, arith,
}
use mr1v.Server.Maps.{
  MapRow, Pool, handle_list_maps, list_maps, RandomRow, name_of, pick_random_map, Change,
  change_all,
}
use mr1v.Server.Maps.Valid.{Named, empty_pool, change_all-IsValid, empty-IsValid}

-- The rows of which `pickRandomMap` takes one.
abbrev eligible : String → List MapRow → List MapRow
eligible category rows = select (λ r. str_eq r.category category && r.enabled) rows

select-select :
    (category : String) (rows : List MapRow)
    → select (λ r. r.enabled) (select (λ r. str_eq r.category category) rows)
      ≡ eligible category rows
select-select category [] = refl
select-select category (r ∷ rows) = ground (arith, select-select category rows)

list_maps-eligible :
    (category : String) (p : Pool)
    → str_eq category "" ≡ false
    → list_maps category p ≡ map (λ r. r.map_name) (eligible category p.rows)
unfolding list_maps handle_list_maps
list_maps-eligible category p given =
    rw given (ap (map (λ (r : MapRow). r.map_name)) (select-select category p.rows))

In-map : (r : MapRow) (rows : List MapRow) → In r rows → In r.map_name (map (λ q. q.map_name) rows)
In-map r [] i = absurd i
In-map r (q ∷ rows) (inl e) = inl (ap (λ x. x.map_name) e)
In-map r (q ∷ rows) (inr i) = inr (In-map r rows i)

-- A name that is empty exactly if there are no names, and otherwise one of them.
abbrev pub IsOneOf : String → List String → Type 0
IsOneOf name names = ((name ≡ "") ↔ (names ≡ [])) × ((name ≡ "") ⊎ In name names)

module _ (random : RandomRow) where
  -- A pick among named rows.
  pick_name :
      (rows : List MapRow)
      → All Named rows
      → IsOneOf (name_of (random.pick rows)) (map (λ r. r.map_name) rows)
  pick_name [] h = elim (Option-cases (random.pick [])) [
    | inl e ↦ rw e (((λ x. refl), (λ x. refl)), inl refl)
    | inr (r, e) ↦ absurd (random.pick-In [] r e)
  ]
  pick_name (x ∷ rows) h = elim (Option-cases (random.pick (x ∷ rows))) [
    | inl e ↦ absurd (random.pick-some x rows e)
    | inr (r, e) ↦
        let i = random.pick-In (x ∷ rows) r e in
        let n = All-lookup Named r (x ∷ rows) h i in
        subst (λ o. IsOneOf (name_of o) (map (λ r. r.map_name) (x ∷ rows))) (sym e)
          (
            (λ x. absurd (true≢false (sym ((eq_iff r.map_name "").1 x) ∙ n)), λ x. absurd cc),
            inr (In-map r (x ∷ rows) i),
          )
  ]

eligible-Named :
    (category : String) (rows : List MapRow) → All Named rows → All Named (eligible category rows)
eligible-Named category [] h = tt
eligible-Named category (r ∷ rows) (n, h) =
    elim (Bool-cases (str_eq r.category category && r.enabled)) [
      | inl e ↦ rw e (n, eligible-Named category rows h)
      | inr e ↦ rw e (eligible-Named category rows h)
    ]

-- After any changes of the pool, restarts included: the random map of a category is one of those that
-- the mini program offers for it, and there is none exactly if it offers none.
pub pick_random_map-list_maps :
    (random : RandomRow) (changes : List Change) (category : String)
    → str_eq category "" ≡ false
    → let p = change_all changes empty_pool in
      IsOneOf (pick_random_map random category p) (list_maps category p)
unfolding pick_random_map
pick_random_map-list_maps random changes category given =
    let p = change_all changes empty_pool in
    let valid = change_all-IsValid category "" changes empty_pool (empty-IsValid category "") in
    rw (given, list_maps-eligible category p given)
      (pick_name random (eligible category p.rows) (eligible-Named category p.rows valid.0))
