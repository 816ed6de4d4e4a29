-- ===== src/Server/Maps.antt =====
-- internal/backend/backend.go: the pool of maps, the random map of a match, and the list that
-- internal/wxserver/handlers/maps.go makes of it. The order of rows is left out, and so are
-- requests with a negative id, which no row has.
pub mod Valid
pub mod Pick
pub mod Off
use mr1v.Base.{
  ℕ, ◌+◌, ◌≡◌, ◌≢◌, Bool, true, false, not, ◌&&◌, ◌||◌, Option, none, some, List, [], ◌∷◌, In,
  String, str_eq, ◌==◌, select, map, find_first, if◌then◌else◌,
}
use mr1v.Server.Rooms.{update_where, affects}

pub record MapRow : Type 0 where
  pub id : ℕ
  pub category : String
  pub map_name : String
  pub enabled : Bool

-- manager_maps and the sequence of its ids, which a refused insert advances too.
pub record Pool : Type 0 where
  pub next_id : ℕ
  pub rows : List MapRow

-- The unique key of the table.
abbrev pub is_map : String → String → MapRow → Bool
is_map category name r = str_eq r.category category && str_eq r.map_name name

abbrev pub has_id : ℕ → MapRow → Bool
has_id id r = r.id == id

abbrev pub insert : (on_conflict : MapRow → MapRow) → String → String → Pool → Pool
insert on_conflict category name p = record {
  next_id = p.next_id + 1;
  rows =
      if affects (is_map category name) p.rows
      then update_where (is_map category name) on_conflict p.rows
      else record { id = p.next_id; category = category; map_name = name; enabled = true } ∷ p.rows;
}

abbrev pub default_maps : List (String × String)
default_maps =
    ("pistol", "aim_sk_usp_deagle")
    ∷ ("pistol", "aim_usp")
    ∷ ("rifle", "aim_sk_ak_m4")
    ∷ ("rifle", "ak47_m4a1_dust")
    ∷ ("rifle", "aim_map")
    ∷ ("rifle", "aim_qpad_2007")
    ∷ ("sniper", "aim_sk_awp")
    ∷ ("sniper", "awp_map_32")
    ∷ []

-- `seedDefaultMaps`, which runs when the backend starts.
unfoldable pub seed_maps : List (String × String) → Pool → Pool
seed_maps [] p = p
seed_maps ((category, name) ∷ maps) p = seed_maps maps (insert (λ r. r) category name p)

unfoldable pub seed_default_maps : Pool → Pool
unfolding seed_maps
seed_default_maps p = seed_maps default_maps p

pub data Reply : Type 0 where
  done : Reply
  failed : ℕ → Reply

-- `none` is a body that does not parse, or an id that is no number.
unfoldable pub handle_create_map : (ok : Bool) → Option (String × String) → Pool → Reply × Pool
handle_create_map ok none p = (failed 400, p)
handle_create_map ok (some (category, name)) p =
    if str_eq category "" || str_eq name ""
    then (failed 400, p)
    else if ok
    then (done, insert (λ r. record r { enabled = true }) category name p)
    else (failed 500, p)

unfoldable pub handle_update_map : (ok : Bool) → Option ℕ → Option Bool → Pool → Reply × Pool
handle_update_map ok none enabled p = (failed 400, p)
handle_update_map ok (some id) none p = (failed 400, p)
handle_update_map ok (some id) (some enabled) p =
    if ok
    then (
      done,
      record p { rows = update_where (has_id id) (λ r. record r { enabled = enabled }) p.rows },
    )
    else (failed 500, p)

unfoldable pub handle_delete_map : (ok : Bool) → Option ℕ → Pool → Reply × Pool
handle_delete_map ok none p = (failed 400, p)
handle_delete_map ok (some id) p =
    if ok
    then (done, record p { rows = select (λ r. not (has_id id r)) p.rows })
    else (failed 500, p)

-- GET /maps; the empty text asks for all categories.
unfoldable pub handle_list_maps : (category : String) → Pool → List MapRow
handle_list_maps category p =
    if str_eq category "" then p.rows else select (λ r. str_eq r.category category) p.rows

-- The list of the mini program: the names of the rows that are enabled.
unfoldable pub list_maps : (category : String) → Pool → List String
unfolding handle_list_maps
list_maps category p = map (λ r. r.map_name) (select (λ r. r.enabled) (handle_list_maps category p))

-- `ORDER BY random() LIMIT 1` of PostgreSQL: any row there is, and none only where there is none.
pub record RandomRow : Type 0 where
  pub pick : List MapRow → Option MapRow
  pub pick-In : (rows : List MapRow) (r : MapRow) → pick rows ≡ some r → In r rows
  pub pick-some : (r : MapRow) (rows : List MapRow) → pick (r ∷ rows) ≢ none

abbrev pub name_of : Option MapRow → String
name_of none = ""
name_of (some r) = r.map_name

-- `pickRandomMap` where its query does not fail.
unfoldable pub pick_random_map : RandomRow → (category : String) → Pool → String
pick_random_map random category p =
    if str_eq category ""
    then ""
    else name_of (random.pick (select (λ r. str_eq r.category category && r.enabled) p.rows))

-- What changes the pool.
pub data Change : Type 0 where
  creates : (ok : Bool) → Option (String × String) → Change
  updates : (ok : Bool) → Option ℕ → Option Bool → Change
  deletes : (ok : Bool) → Option ℕ → Change
  restarts : Change

unfoldable pub change : Change → Pool → Pool
unfolding handle_create_map handle_update_map handle_delete_map seed_default_maps
change (creates ok q) p = (handle_create_map ok q p).1
change (updates ok id enabled) p = (handle_update_map ok id enabled p).1
change (deletes ok id) p = (handle_delete_map ok id p).1
change restarts p = seed_default_maps p

unfoldable pub change_all : List Change → Pool → Pool
unfolding change
change_all [] p = p
change_all (c ∷ rest) p = change_all rest (change c p)
