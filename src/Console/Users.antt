-- ===== src/Console/Users.antt =====
-- pages/WxUsersPage.tsx: the players of the mini program.
pub mod View
use mr1v.Base.{
  ◌≡◌, Bool, true, false, Option, none, some, List, [], ◌∷◌, String, str_eq, if◌then◌else◌,
}
use mr1v.Console.Fetch.{Listing, Reply, begin, finish}

pub record WxUser : Type 0 where
  pub openid : String
  pub steam_id : String
  pub nickname : String
  pub avatar_url : String
  pub status : String
  pub created_at : String
  pub updated_at : String

pub record Page : Type 0 where
  pub users : Listing WxUser
  pub editing : Option WxUser

pub record UserValues : Type 0 where
  pub nickname : String
  pub steam_id : String
  pub avatar_url : String

-- GET /wx-users, DELETE /wx-users/:openid and the two forms of PATCH /wx-users/:openid.
pub data Request : Type 0 where
  get_users : Request
  delete_user : String → Request
  patch_status : String → String → Request
  patch_user : String → UserValues → Request

pub data Notice : Type 0 where
  deleted enabled_now disabled_now kept : Notice

unfoldable pub fetch_users : Page → Page × List Request
fetch_users p = (record p { users = begin p.users }, get_users ∷ [])

unfoldable pub fetched_users : Reply WxUser → Page → Page
fetched_users r p = record p { users = finish r p.users }

unfoldable pub handle_delete : String → List Request
handle_delete openid = delete_user openid ∷ []

unfoldable pub handle_toggle_status : WxUser → Bool → List Request
handle_toggle_status u enabled =
    patch_status u.openid (if enabled then "enabled" else "disabled") ∷ []

unfoldable pub open_edit : WxUser → Page → Page × UserValues
open_edit u p = (
  record p { editing = some u },
  record { nickname = u.nickname; steam_id = u.steam_id; avatar_url = u.avatar_url },
)

abbrev submit_for : Option WxUser → Option UserValues → List Request
submit_for none validated = []
submit_for (some u) none = []
submit_for (some u) (some v) = patch_user u.openid v ∷ []

unfoldable pub submit_edit : Option UserValues → Page → List Request
submit_edit validated p = submit_for p.editing validated

abbrev notice_of : Request → List Notice
notice_of get_users = []
notice_of (delete_user openid) = deleted ∷ []
notice_of (patch_status openid status) =
    if str_eq status "enabled" then enabled_now ∷ [] else disabled_now ∷ []
notice_of (patch_user openid v) = kept ∷ []

abbrev closed_by : Request → Page → Page
closed_by (patch_user openid v) p = record p { editing = none }
closed_by _ p = p

-- The handlers after their requests.
unfoldable pub changed : Request → Bool → Page → Page × List Request × List Notice
unfolding fetch_users
changed r false p = (p, [], [])
changed r true p = ((fetch_users (closed_by r p)).0, (fetch_users p).1, notice_of r)

-- The status column: the switch is on, and the tag says so, for an enabled user.
unfoldable pub is_enabled : String → Bool
is_enabled v = str_eq v "enabled"

unfoldable pub status_tag : String → String × String
unfolding is_enabled
status_tag v = if is_enabled v then ("green", "启用") else ("red", "禁用")

unfoldable pub cancel_edit : Page → Page
cancel_edit p = record p { editing = none }

-- Turning the switch of a user asks for a status that shows the switch as it was turned.
pub toggle-is_enabled :
    (u : WxUser) (enabled : Bool) (openid status : String)
    → handle_toggle_status u enabled ≡ patch_status openid status ∷ []
    → (openid ≡ u.openid) × (is_enabled status ≡ enabled)
unfolding handle_toggle_status is_enabled
toggle-is_enabled u true openid status e = let s : status ≡ "enabled" = cc in (cc, rw s)
toggle-is_enabled u false openid status e = let s : status ≡ "disabled" = cc in (cc, rw s)
