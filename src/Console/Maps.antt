-- ===== src/Console/Maps.antt =====
-- pages/MapsPage.tsx: the pool of maps.
pub mod View
use mr1v.Base.{
  ℕ, Bool, true, false, Option, none, some, List, [], ◌∷◌, String, str_eq, if◌then◌else◌,
}
use mr1v.Js.Dict.{get}
use mr1v.Console.Fetch.{Listing, Reply, begin, finish}
use mr1v.Console.Matches.{or_else}

pub record MapItem : Type 0 where
  pub id : ℕ
  pub category : String
  pub map_name : String
  pub enabled : Bool
  pub created_at : String

abbrev pub category_label : List (String × String)
category_label = ("pistol", "手枪图池") ∷ ("rifle", "步枪图池") ∷ ("sniper", "狙击图池") ∷ []

pub record Page : Type 0 where
  pub maps : Listing MapItem
  pub add_open : Bool

pub record MapValues : Type 0 where
  pub category : String
  pub map_name : String

-- GET /maps, POST /maps, PATCH /maps/:id and DELETE /maps/:id.
pub data Request : Type 0 where
  get_maps : Request
  post_map : MapValues → Request
  patch_map : ℕ → Bool → Request
  delete_map : ℕ → Request

pub data Notice : Type 0 where
  added enabled_now disabled_now deleted : Notice

unfoldable pub fetch_maps : Page → Page × List Request
fetch_maps p = (record p { maps = begin p.maps }, get_maps ∷ [])

unfoldable pub fetched_maps : Reply MapItem → Page → Page
fetched_maps r p = record p { maps = finish r p.maps }

-- The handlers up to their requests; a form that does not validate sends nothing.
unfoldable pub handle_add : Option MapValues → List Request
handle_add none = []
handle_add (some v) = post_map v ∷ []

unfoldable pub handle_toggle : ℕ → Bool → List Request
handle_toggle id enabled = patch_map id enabled ∷ []

unfoldable pub handle_delete : ℕ → List Request
handle_delete id = delete_map id ∷ []

abbrev notice_of : Request → List Notice
notice_of get_maps = []
notice_of (post_map v) = added ∷ []
notice_of (patch_map id enabled) = if enabled then enabled_now ∷ [] else disabled_now ∷ []
notice_of (delete_map id) = deleted ∷ []

abbrev closed_by : Request → Page → Page
closed_by (post_map v) p = record p { add_open = false }
closed_by _ p = p

-- The handlers after their requests: a failed one throws; else a notice, and the pool is fetched.
unfoldable pub changed : Request → Bool → Page → Page × List Request × List Notice
unfolding fetch_maps
changed r false p = (p, [], [])
changed r true p = ((fetch_maps (closed_by r p)).0, (fetch_maps p).1, notice_of r)

-- The filter of the category column, and how a category is shown.
unfoldable pub on_filter : String → MapItem → Bool
on_filter value r = str_eq r.category value

unfoldable pub category_text : String → String
unfolding get
category_text v = or_else (get v category_label) v

unfoldable pub open_add : Page → Page
open_add p = record p { add_open = true }

unfoldable pub cancel_add : Page → Page
cancel_add p = record p { add_open = false }
