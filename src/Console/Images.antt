-- ===== src/Console/Images.antt =====
-- pages/RehldsConfigPage.tsx: the images of the game server, one of which is active.
pub mod View
use mr1v.Base.{ℕ, Bool, true, false, Option, none, some, List, [], ◌∷◌, String, if◌then◌else◌}
use mr1v.Console.Fetch.{Listing, Reply, begin, finish}

pub record RehldsConfig : Type 0 where
  pub id : ℕ
  pub image : String
  pub version : String
  pub is_active : Bool
  pub created_at : String

pub record Page : Type 0 where
  pub configs : Listing RehldsConfig
  pub add_open : Bool

pub record ConfigValues : Type 0 where
  pub image : String
  pub version : Option String

-- GET /rehlds-configs, POST /rehlds-configs and PATCH /rehlds-configs/:id/activate.
pub data Request : Type 0 where
  get_configs : Request
  post_config : ConfigValues → Request
  activate : ℕ → Request

pub data Notice : Type 0 where
  added activated : Notice

unfoldable pub fetch_configs : Page → Page × List Request
fetch_configs p = (record p { configs = begin p.configs }, get_configs ∷ [])

unfoldable pub fetched_configs : Reply RehldsConfig → Page → Page
fetched_configs r p = record p { configs = finish r p.configs }

unfoldable pub handle_add : Option ConfigValues → List Request
handle_add none = []
handle_add (some v) = post_config v ∷ []

unfoldable pub handle_activate : ℕ → List Request
handle_activate id = activate id ∷ []

abbrev notice_of : Request → List Notice
notice_of get_configs = []
notice_of (post_config v) = added ∷ []
notice_of (activate id) = activated ∷ []

abbrev closed_by : Request → Page → Page
closed_by (post_config v) p = record p { add_open = false }
closed_by _ p = p

-- The handlers after their requests.
unfoldable pub changed : Request → Bool → Page → Page × List Request × List Notice
unfolding fetch_configs
changed r false p = (p, [], [])
changed r true p = ((fetch_configs (closed_by r p)).0, (fetch_configs p).1, notice_of r)

-- The action of a row: the active image has a disabled button, any other can be activated.
pub data Action : Type 0 where
  already_active : Action
  can_activate : ℕ → Action

unfoldable pub row_action : RehldsConfig → Action
row_action r = if r.is_active then already_active else can_activate r.id

unfoldable pub open_add : Page → Page
open_add p = record p { add_open = true }

unfoldable pub cancel_add : Page → Page
cancel_add p = record p { add_open = false }
