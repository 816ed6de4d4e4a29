-- ===== src/Examples/Maps.antt =====
-- The pool of maps at concrete inputs.
use mr1v.Base.{
  ◌≡◌, ◌≢◌, refl, true, false, Option, none, some, some_inj, List, [], ◌∷◌, In, inl, sym,
}
use mr1v.Server.Maps.{
  MapRow, RandomRow, pick_random_map, list_maps, Change, creates, restarts, change_all,
  handle_update_map,
}
use mr1v.Server.Maps.Valid.{empty_pool}
use mr1v.Server.Maps.Pick.{IsOneOf, pick_random_map-list_maps}
use mr1v.Server.Maps.Off.Never.{handle_update_map-pick_random_map}

abbrev first_of : List MapRow → Option MapRow
first_of [] = none
first_of (r ∷ rows) = some r

first_of-In : (rows : List MapRow) (r : MapRow) → first_of rows ≡ some r → In r rows
first_of-In [] r e = absurd cc
first_of-In (q ∷ rows) r e = inl (sym (some_inj.0 e))

first_of-some : (r : MapRow) (rows : List MapRow) → first_of (r ∷ rows) ≢ none
first_of-some r rows e = cc

-- A database that always answers with the first row keeps what RandomRow says.
abbrev first_row : RandomRow
first_row = record { pick = first_of; pick-In = first_of-In; pick-some = first_of-some }

abbrev two_changes : List Change
two_changes = creates true (some ("rifle", "fy_snow")) ∷ creates true (some ("rifle", "")) ∷ []

pick_random_map-list_maps_example :
    IsOneOf
      (pick_random_map first_row "rifle" (change_all two_changes empty_pool))
      (list_maps "rifle" (change_all two_changes empty_pool))
pick_random_map-list_maps_example = pick_random_map-list_maps first_row two_changes "rifle" refl

abbrev snow : MapRow
snow = record { id = 1; category = "rifle"; map_name = "fy_snow"; enabled = true }

-- The backend restarts, and another map is added.
abbrev later : List Change
later = restarts ∷ creates true (some ("rifle", "fy_iceworld")) ∷ []

handle_update_map-pick_random_map_example :
    pick_random_map first_row "rifle" (
      change_all later
        (handle_update_map true (some 1) (some false) (change_all two_changes empty_pool)).1)
    ≢ "fy_snow"
unfolding change_all
handle_update_map-pick_random_map_example =
    handle_update_map-pick_random_map first_row two_changes later 1 snow refl (refl, (refl, tt))
